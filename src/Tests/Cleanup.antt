-- ===== src/Tests/Cleanup.antt =====
-- Sweeps of a small file system, while one track is queued.
use tg.Base.{
  inl, ◌≡◌, refl, [], ◌∷◌, none, some, true, false, Text, bytes, text_eq, ◌==◌, ok, negsuc,
  if◌then◌else◌, lookup, contains, All,
}
use tg.Player.{Memory, ChatCacher, no_track, active_in, get_active_chats, get_queue}
use tg.Cleanup.Paths.{clean, join, push, push_all, joined, ext_of}
use tg.Cleanup.Defs.{
  Entry, Disk, file_paths, paths_of_chats, active_file_paths, has_allowed_ext, is_kept, sweep_file,
  walk, walk_dirs, cleanup_media_cache, sweep_downloads, cleanup_downloads, run_cleanup,
}
use tg.Cleanup.Kept.{IsRemovable, run_cleanup-IsRemovable}
use tg.Cleanup.Complete.{run_cleanup-removed}
use tg.Commands.Numbers

abbrev playing : Memory
playing a = record no_track { file_path = bytes "/srv/td/music/a.mp3" }

abbrev chats : ChatCacher
chats = record {
  chat_cache =
      (negsuc 4, record { queue = some 0 ∷ []; autoplay = false; autoplay_history = [] }) ∷ [];
}

abbrev file : Text → Text → Entry
file path name = record {
  path = path;
  name = name;
  is_dir = false;
  unreadable = false;
  mod_time = some 100;
  remove_error = none;
}

-- The music directory under `root` holds the file that plays and another one.
abbrev disk : Text → Text → Text → Disk
disk root played other = record {
  media_now = 50000;
  downloads_now = 50000;
  td_database_dir = root;
  downloads_dir = bytes "downloads";
  files = λ dir.
      if dir == join root (bytes "music")
      then file played (bytes "a.mp3") ∷ file other (bytes "b.MP3") ∷ []
      else [];
  downloads = ok (file [] (bytes ".env") ∷ file [] (bytes "c.part") ∷ []);
}

abbrev absolute : Disk
absolute = disk (bytes "/srv/td") (bytes "/srv/td/music/a.mp3") (bytes "/srv/td/music/b.MP3")

-- The file that plays is kept, the others go.
absolute_sweep :
    (run_cleanup playing chats absolute false).removed
    ≡ bytes "downloads/c.part" ∷ bytes "/srv/td/music/b.MP3" ∷ []
unfolding run_cleanup active_file_paths cleanup_media_cache cleanup_downloads paths_of_chats
    file_paths walk_dirs walk sweep_downloads sweep_file is_kept has_allowed_ext clean join push
    push_all joined ext_of active_in get_active_chats get_queue lookup Numbers.split
absolute_sweep = refl

-- A directory that is given relatively, as main.go gives it: the track's own path is absolute, so
-- the file that plays goes as well.
relative_sweep :
    (run_cleanup playing chats
      (disk (bytes "td") (bytes "td/music/a.mp3") (bytes "td/music/b.MP3"))
      false).removed
    ≡ bytes "downloads/c.part" ∷ bytes "td/music/b.MP3" ∷ bytes "td/music/a.mp3" ∷ []
unfolding run_cleanup active_file_paths cleanup_media_cache cleanup_downloads paths_of_chats
    file_paths walk_dirs walk sweep_downloads sweep_file is_kept has_allowed_ext clean join push
    push_all joined ext_of active_in get_active_chats get_queue lookup Numbers.split
relative_sweep = refl

run_cleanup-IsRemovable_example :
    All (IsRemovable playing chats absolute true) (run_cleanup playing chats absolute true).removed
run_cleanup-IsRemovable_example = run_cleanup-IsRemovable playing chats absolute true

run_cleanup-removed_example :
    contains
      (run_cleanup playing chats absolute true).removed
      (join (bytes "downloads") (bytes "c.part"))
    ≡ true
unfolding active_file_paths paths_of_chats file_paths is_kept clean join push push_all joined
    active_in get_active_chats get_queue lookup Numbers.split
run_cleanup-removed_example =
    run_cleanup-removed playing chats absolute true
      (file [] (bytes ".env") ∷ file [] (bytes "c.part") ∷ []) 1 (file [] (bytes "c.part")) refl
      refl refl (λ a q b. refl) (inl refl) refl
