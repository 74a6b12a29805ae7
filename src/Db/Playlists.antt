-- ===== src/Db/Playlists.antt =====
-- internal/db/playlist.go: the playlists of the users. There is no cache here, so the state is the
-- collection. `fault` is the error of a write, `read_fault` that of the read before it, if any. The
-- random ids are arguments; the list of a user's playlists is left out.
use tg.Base.{
  List, [], ◌∷◌, ◌++◌, Option, none, some, Bool, false, ◌||◌, not, Text, bytes, ℤ, int_eq, text_eq,
  if◌then◌else◌, ◌==◌, Result, ok, err, keep_if,
}
use tg.Db.Collection.{Collection}

pub record Song : Type 0 where
  pub url : Text
  pub name : Text
  pub track_id : Text
  pub duration : ℤ
  pub platform : Text

-- A document, without its _id.
pub record Playlist : Type 0 where
  pub name : Text
  pub user_id : ℤ
  pub songs : List Song

-- The texts of the driver's errors.
abbrev pub no_documents : Text
no_documents = bytes "mongo: no documents in result"

abbrev pub duplicate_key : Text
duplicate_key = bytes "duplicate key error"

abbrev pub not_in_playlist : Text → Text
not_in_playlist id = bytes "track with ID " ++ id ++ bytes " not found in playlist"

abbrev pub not_removed : Text → Text
not_removed e = bytes "error removing song: " ++ e

-- The loop of songExists.
unfoldable pub has_track : Text → List Song → Bool
has_track track [] = false
has_track track (song ∷ songs) = song.track_id == track || has_track track songs

-- $push and $pull.
unfoldable pub push_song : Song → Playlist → Playlist
push_song song p = record p { songs = p.songs ++ song ∷ [] }

unfoldable pub pull_track : Text → Playlist → Playlist
pull_track track p = record p { songs = keep_if (λ song. not (song.track_id == track)) p.songs }

module _ (C : Collection Text Playlist) where
  open C use {Store, find_one, upsert, update, remove}

  -- `id` is what generateUniquePlaylistID returned. InsertOne fails where the id is taken.
  unfoldable pub create_playlist : Option Text → Text → Text → ℤ → Store → Store × Result Text Text
  create_playlist (some e) id name uid s = (s, err e)
  create_playlist none id name uid s = elim (find_one id s) [
    | some p ↦ (s, err duplicate_key)
    | none ↦
        let p : Playlist = record { name = name; user_id = uid; songs = [] } in
        (upsert id (λ q. q) p s, ok id)
  ]

  unfoldable pub get_playlist : Option Text → Text → Store → Result Text Playlist
  get_playlist (some e) id s = err e
  get_playlist none id s = elim (find_one id s) [ none ↦ err no_documents | some p ↦ ok p ]

  -- DeleteOne by _id and user_id.
  unfoldable pub delete_playlist : Option Text → Text → ℤ → Store → Store × Option Text
  delete_playlist (some e) id uid s = (s, some e)
  delete_playlist none id uid s = elim (find_one id s) [
    | none ↦ (s, none)
    | some p ↦ (if p.user_id == uid then remove id s else s, none)
  ]

  abbrev pub tracks_in : Text → Result Text Playlist → Bool
  tracks_in track (err e) = false
  tracks_in track (ok p) = has_track track p.songs

  unfoldable pub song_exists : Option Text → Text → Text → Store → Bool
  unfolding get_playlist
  song_exists fault id track s = tracks_in track (get_playlist fault id s)

  unfoldable pub write_playlist :
      Option Text → Text → (Playlist → Playlist) → Store → Store × Option Text
  write_playlist (some e) id f s = (s, some e)
  write_playlist none id f s = (update id f s, none)

  unfoldable pub add_song_to_playlist :
      Option Text → Option Text → Text → Song → Store → Store × Option Text
  unfolding song_exists write_playlist
  add_song_to_playlist read_fault fault id song s =
      if song_exists read_fault id song.track_id s
      then (s, none)
      else write_playlist fault id (push_song song) s

  abbrev pub removal_error : Option Text → Option Text
  removal_error none = none
  removal_error (some e) = some (not_removed e)

  unfoldable pub remove_song_from_playlist :
      Option Text → Option Text → Text → Text → Store → Store × Option Text
  unfolding song_exists write_playlist
  remove_song_from_playlist read_fault fault id track s =
      if song_exists read_fault id track s
      then (let (s', e) = write_playlist fault id (pull_track track) s in (s', removal_error e))
      else (s, some (not_in_playlist track))
