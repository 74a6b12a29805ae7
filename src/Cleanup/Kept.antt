-- ===== src/Cleanup/Kept.antt =====
-- internal/downloader/cleanup.go: a sweep keeps the files of the tracks that stand in a queue.
use tg.Base.{
  ℕ, zero, suc, ◌≡◌, refl, ◌⊎◌, inl, inr, List, [], ◌∷◌, none, some, Bool, true, false, Text,
  text_eq, text_beq_iff, ◌==◌, ==_refl, contains, contains-append, All, ok, err, arith, ℤ, int_eq,
  int_beq_iff, get_elem?, lookup, is_empty, is_blank, Bool-cases, Option-cases, Result,
}
use mathlib.Core.List.{Mem}
use tg.Player.{Memory, Pointer, ChatCacher, VcData, get_active_chats, active_in, get_queue}
use tg.Cleanup.Paths.{clean, join}
use tg.Cleanup.Defs.{
  Entry, Swept, Disk, nothing_swept, media_cache_dirs, has_allowed_ext, file_paths, paths_of_chats,
  active_file_paths, cleanup_media_cache, is_dotfile, cleanup_downloads, run_cleanup,
}
use tg.Cleanup.Removed.{IsOld, walk_dirs-All, sweep_downloads-All}

-- Track a stands at index i of the queue of a chat.
abbrev pub IsQueued : ChatCacher → ℕ → Type 0
IsQueued c a = (chat : ℤ) × (i : ℕ) × (get_elem? (get_queue chat c) i ≡ some (some a))

file_paths-contains :
    (mem : Memory) (ps : List Pointer) (i a : ℕ)
    → get_elem? ps i ≡ some (some a)
    → is_blank (mem a).file_path ≡ false
    → contains (file_paths mem ps) (clean (mem a).file_path) ≡ true
unfolding file_paths
file_paths-contains mem [] i a h b = absurd cc
file_paths-contains mem (none ∷ ps) zero a h b = absurd cc
file_paths-contains mem (none ∷ ps) (suc i) a h b = file_paths-contains mem ps i a h b
file_paths-contains mem (some x ∷ ps) zero a h b = ground (arith, ==_refl (clean (mem a).file_path))
file_paths-contains mem (some x ∷ ps) (suc i) a h b =
    ground (arith, file_paths-contains mem ps i a h b)

paths_of_chats-contains :
    (mem : Memory) (c : ChatCacher) (chats : List ℤ) (chat : ℤ) (path : Text)
    → contains chats chat ≡ true
    → contains (file_paths mem (get_queue chat c)) path ≡ true
    → contains (paths_of_chats mem c chats) path ≡ true
unfolding paths_of_chats
paths_of_chats-contains mem c [] chat path h k = absurd cc
paths_of_chats-contains mem c (x ∷ chats) chat path h k = ground (
  arith,
  contains-append (file_paths mem (get_queue x c)) (paths_of_chats mem c chats) path,
  paths_of_chats-contains mem c chats chat path,
  int_beq_iff x chat,
)

get_elem?-is_empty :
    (ps : List Pointer) (i : ℕ) {p : Pointer} → get_elem? ps i ≡ some p → is_empty ps ≡ false
get_elem?-is_empty [] i h = absurd cc
get_elem?-is_empty (x ∷ ps) i h = refl

active_in-contains :
    (chat : ℤ) (m : List (ℤ × VcData)) (d : VcData)
    → lookup chat m ≡ some d
    → is_empty d.queue ≡ false
    → contains (active_in m) chat ≡ true
unfolding active_in lookup
active_in-contains chat [] d h q = absurd cc
active_in-contains chat ((x, y) ∷ m) d h q =
    ground (arith, active_in-contains chat m d, int_beq_iff x chat)

get_active_chats-contains :
    (c : ChatCacher) (chat : ℤ) (i a : ℕ)
    → get_elem? (get_queue chat c) i ≡ some (some a)
    → contains (get_active_chats c) chat ≡ true
unfolding get_active_chats get_queue
get_active_chats-contains c chat i a = elim (Option-cases (lookup chat c.chat_cache)) [
  | inl n ↦ rw (get_queue, n) (λ h. absurd cc)
  | inr (d, n) ↦
      rw (get_queue, n)
        (λ h. active_in-contains chat c.chat_cache d n (get_elem?-is_empty d.queue i h))
]

active_file_paths-contains :
    (mem : Memory) (c : ChatCacher) (a : ℕ)
    → IsQueued c a
    → is_blank (mem a).file_path ≡ false
    → contains (active_file_paths mem c) (clean (mem a).file_path) ≡ true
unfolding active_file_paths
active_file_paths-contains mem c a (chat, i, h) b =
    paths_of_chats-contains mem c (get_active_chats c) chat (clean (mem a).file_path)
      (get_active_chats-contains c chat i a h) (file_paths-contains mem (get_queue chat c) i a h b)

-- No track of a queue has this path, after filepath.Clean.
abbrev pub IsUnused : Memory → ChatCacher → Text → Type 0
IsUnused mem c path =
    (a : ℕ)
    → IsQueued c a
    → is_blank (mem a).file_path ≡ false
    → (clean (mem a).file_path == clean path) ≡ false

contains-equal :
    (xs : List Text) (x y : Text) → contains xs x ≡ true → contains xs y ≡ false → (x == y) ≡ false
contains-equal xs x y h k = elim (Bool-cases (x == y)) [
  | inl e ↦ absurd (let same = (text_beq_iff x y).0 e in cc)
  | inr e ↦ e
]

IsUnused-active_file_paths :
    (mem : Memory) (c : ChatCacher) (path : Text)
    → contains (active_file_paths mem c) (clean path) ≡ false
    → IsUnused mem c path
IsUnused-active_file_paths mem c path u a q b =
    contains-equal (active_file_paths mem c) (clean (mem a).file_path) (clean path)
      (active_file_paths-contains mem c a q b) u

-- A file that a walk through one of the directories of the media cache comes across.
abbrev pub IsMedia : Disk → Bool → Text → Type 0
IsMedia d urgent path =
    (dir : Text × List Text) × (e : Entry) × Mem dir media_cache_dirs
    × Mem e (d.files (join d.td_database_dir dir.0))
    × IsOld d.media_now urgent e
    × (e.is_dir ≡ false)
    × (has_allowed_ext e.name dir.1 ≡ true)
    × (path ≡ e.path)

-- A file that stands in the downloads directory itself.
abbrev pub IsDownload : Disk → Bool → Text → Type 0
IsDownload d urgent path =
    (es : List Entry) × (e : Entry) × (d.downloads ≡ ok es)
    × Mem e es
    × IsOld d.downloads_now urgent e
    × (e.is_dir ≡ false)
    × (is_dotfile e.name ≡ false)
    × (path ≡ join d.downloads_dir e.name)

abbrev pub IsRemovable : Memory → ChatCacher → Disk → Bool → Text → Type 0
IsRemovable mem c d urgent path =
    IsUnused mem c path × (IsMedia d urgent path ⊎ IsDownload d urgent path)

module _ (mem : Memory) (c : ChatCacher) (d : Disk) (urgent : Bool) where
  cleanup_media_cache-All :
      (s : Swept)
      → All (IsRemovable mem c d urgent) s.removed
      → All
          (IsRemovable mem c d urgent)
          (cleanup_media_cache d.media_now urgent
            (active_file_paths mem c)
            d.files
            d.td_database_dir
            s).removed
  unfolding cleanup_media_cache
  cleanup_media_cache-All s h = elim (Bool-cases (is_blank d.td_database_dir)) [
    | inl b ↦ rw (b) h
    | inr b ↦ rw (b) (
        walk_dirs-All (active_file_paths mem c) d.media_now urgent (IsRemovable mem c d urgent)
          d.files d.td_database_dir media_cache_dirs s h
          (λ dir e k m u o i x.
            (IsUnused-active_file_paths mem c e.path u, inl (dir, e, k, m, o, i, x, refl))))
  ]

  cleanup_downloads-All :
      (s : Swept) (listing : Result Text (List Entry))
      → d.downloads ≡ listing
      → All (IsRemovable mem c d urgent) s.removed
      → All
          (IsRemovable mem c d urgent)
          (cleanup_downloads d.downloads_now urgent
            (active_file_paths mem c)
            d.downloads_dir
            listing
            s).removed
  unfolding cleanup_downloads
  cleanup_downloads-All s (err x) r h = h
  cleanup_downloads-All s (ok es) r h =
      sweep_downloads-All (active_file_paths mem c) d.downloads_now urgent
        (IsRemovable mem c d urgent) d.downloads_dir es s h
        (λ e m u o i k. (
          IsUnused-active_file_paths mem c (join d.downloads_dir e.name) u,
          inr (es, e, r, m, o, i, k, refl),
        ))

-- Whatever the file system holds, and whether or not a sweep is urgent: every file that it
-- removes has, after filepath.Clean, another path than every track that stands in the queue of
-- any chat; it was not changed for twelve hours where the sweep is not urgent, is no directory,
-- and is either one of the media files of the TDLib directories, by its extension, or a file that
-- stands in the downloads directory itself and whose name has no dot in front.
pub run_cleanup-IsRemovable :
    (mem : Memory) (c : ChatCacher) (d : Disk) (urgent : Bool)
    → All (IsRemovable mem c d urgent) (run_cleanup mem c d urgent).removed
unfolding run_cleanup
run_cleanup-IsRemovable mem c d urgent =
    cleanup_downloads-All mem c d urgent _ d.downloads refl
      (cleanup_media_cache-All mem c d urgent nothing_swept tt)
