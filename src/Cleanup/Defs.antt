-- ===== src/Cleanup/Defs.antt =====
-- internal/downloader/cleanup.go: which files are removed. What the file system answers is `Entry`,
-- for one file that a walk or a directory listing comes across; times are in seconds, and disk usage
-- is in any unit.
use tg.Base.{
  ℕ, suc, ◌+◌, List, [], ◌∷◌, ◌++◌, Option, none, some, Bool, true, false, not, ◌||◌, Text, bytes,
  ℤ, ltb, nat_beq, text_eq, if◌then◌else◌, is_blank, contains, to_lower, Result, ok, err,
}
use tg.Player.{Memory, Pointer, ChatCacher, get_active_chats, get_queue}
use tg.Cleanup.Paths.{ext, clean, join}

abbrev pub cleanup_max_age : ℕ
cleanup_max_age = 43200

abbrev pub media_exts : List Text
media_exts =
    bytes ".mp3"
    ∷ bytes ".m4a"
    ∷ bytes ".webm"
    ∷ bytes ".ogg"
    ∷ bytes ".opus"
    ∷ bytes ".flac"
    ∷ bytes ".wav"
    ∷ bytes ".aac"
    ∷ []

abbrev pub media_cache_dirs : List (Text × List Text)
media_cache_dirs =
    (bytes "videos", bytes ".mp4" ∷ [])
    ∷ (bytes "music", media_exts)
    ∷ (bytes "documents", media_exts)
    ∷ []

-- A file: its path and its name, whether it is a directory or cannot be read, the time of its last
-- change where Info answers, and the error of removing it.
pub record Entry : Type 0 where
  pub path : Text
  pub name : Text
  pub is_dir : Bool
  pub unreadable : Bool
  pub mod_time : Option ℕ
  pub remove_error : Option Text

-- The paths of the files that were removed, the last one first, and the counts of the others.
pub record Swept : Type 0 where
  pub removed : List Text
  pub skipped_in_use : ℕ
  pub failed : ℕ

abbrev pub nothing_swept : Swept
nothing_swept = record { removed = []; skipped_in_use = 0; failed = 0 }

unfoldable pub has_allowed_ext : Text → List Text → Bool
has_allowed_ext name exts = contains exts (to_lower (ext name))

-- The paths of the tracks of a queue.
unfoldable pub file_paths : Memory → List Pointer → List Text
file_paths mem [] = []
file_paths mem (none ∷ ps) = file_paths mem ps
file_paths mem (some a ∷ ps) =
    let rest = file_paths mem ps in
    if is_blank (mem a).file_path then rest else clean (mem a).file_path ∷ rest

unfoldable pub paths_of_chats : Memory → ChatCacher → List ℤ → List Text
unfolding file_paths
paths_of_chats mem c [] = []
paths_of_chats mem c (chat ∷ chats) =
    file_paths mem (get_queue chat c) ++ paths_of_chats mem c chats

unfoldable pub active_file_paths : Memory → ChatCacher → List Text
unfolding paths_of_chats
active_file_paths mem c = paths_of_chats mem c (get_active_chats c)

-- `info.ModTime().After(cutoff)`, or no info; it is not asked for where the sweep is urgent.
unfoldable pub is_kept : ℕ → Bool → Option ℕ → Bool
is_kept now true time = false
is_kept now false none = true
is_kept now false (some time) = ltb now (time + cleanup_max_age)

-- What both sweeps do with a file that they may remove.
unfoldable pub sweep_file : ℕ → Bool → List Text → Text → Entry → Swept → Swept
unfolding is_kept
sweep_file now urgent in_use path e s =
    if contains in_use (clean path)
    then record s { skipped_in_use = suc s.skipped_in_use }
    else if is_kept now urgent e.mod_time
    then s
    else elim e.remove_error [
      | some x ↦ record s { failed = suc s.failed }
      | none ↦ record s { removed = path ∷ s.removed }
    ]

-- The function that WalkDir calls, for the files that it comes across.
unfoldable pub walk : ℕ → Bool → List Text → List Text → List Entry → Swept → Swept
unfolding has_allowed_ext sweep_file
walk now urgent in_use exts [] s = s
walk now urgent in_use exts (e ∷ es) s = walk now urgent in_use exts es (
    if e.unreadable || e.is_dir || not (has_allowed_ext e.name exts)
    then s
    else sweep_file now urgent in_use e.path e s)

-- The files under each subdirectory are an argument.
unfoldable pub walk_dirs :
    ℕ → Bool → List Text → (Text → List Entry) → Text → List (Text × List Text) → Swept → Swept
unfolding walk
walk_dirs now urgent in_use files root [] s = s
walk_dirs now urgent in_use files root ((subdir, exts) ∷ dirs) s =
    walk_dirs now urgent in_use files root dirs
      (walk now urgent in_use exts (files (join root subdir)) s)

unfoldable pub cleanup_media_cache :
    ℕ → Bool → List Text → (Text → List Entry) → Text → Swept → Swept
unfolding walk_dirs
cleanup_media_cache now urgent in_use files root s =
    if is_blank root then s else walk_dirs now urgent in_use files root media_cache_dirs s

abbrev pub is_dotfile : Text → Bool
is_dotfile [] = false
is_dotfile (c ∷ s) = nat_beq c b'.'

unfoldable pub sweep_downloads : ℕ → Bool → List Text → Text → List Entry → Swept → Swept
unfolding sweep_file
sweep_downloads now urgent in_use dir [] s = s
sweep_downloads now urgent in_use dir (e ∷ es) s = sweep_downloads now urgent in_use dir es (
    if e.is_dir || is_dotfile e.name then s else sweep_file now urgent in_use (join dir e.name) e s)

unfoldable pub cleanup_downloads :
    ℕ → Bool → List Text → Text → Result Text (List Entry) → Swept → Swept
unfolding sweep_downloads
cleanup_downloads now urgent in_use dir (err x) s = s
cleanup_downloads now urgent in_use dir (ok es) s = sweep_downloads now urgent in_use dir es s

-- What a pass meets: the two times that it reads, and the file system.
pub record Disk : Type 0 where
  pub media_now : ℕ
  pub downloads_now : ℕ
  pub td_database_dir : Text
  pub downloads_dir : Text
  pub files : Text → List Entry
  pub downloads : Result Text (List Entry)

unfoldable pub run_cleanup : Memory → ChatCacher → Disk → Bool → Swept
unfolding active_file_paths cleanup_media_cache cleanup_downloads
run_cleanup mem c d urgent =
    let in_use = active_file_paths mem c in
    cleanup_downloads d.downloads_now urgent in_use d.downloads_dir d.downloads
      (cleanup_media_cache d.media_now urgent in_use d.files d.td_database_dir nothing_swept)

-- checkDiskAndCleanupIfNeeded
unfoldable pub check_disk_and_cleanup_if_needed :
    ℕ → Result Text ℕ → Memory → ChatCacher → Disk → Swept
unfolding run_cleanup
check_disk_and_cleanup_if_needed threshold (err x) mem c d = nothing_swept
check_disk_and_cleanup_if_needed threshold (ok usage) mem c d =
    if ltb usage threshold then nothing_swept else run_cleanup mem c d true
