-- ===== src/Commands/Playlists.antt =====
-- internal/bot/playlist.go: the commands that change playlists, from their arguments to the
-- collection. Each reply is a constructor, the deletion of the command's message is left out.
use tg.Base.{
  ℕ, zero, suc, List, [], ◌∷◌, Option, none, some, not, ◌&&◌, ◌||◌, Text, ℤ, pos, negsuc, text_eq,
  int_eq, ◌==◌, ltb, leb, nat_beq, if◌then◌else◌, is_blank, length, get_elem?, Result, ok, err,
}
use tg.Commands.Numbers.{atoi}
use tg.Db.Collection.{Collection}
use tg.Db.Playlists.{
  Song, Playlist, create_playlist, get_playlist, delete_playlist, add_song_to_playlist,
  remove_song_from_playlist,
}
use tg.Playback.Next.{GetUrlTrack}

pub data PlaylistReply : Type 0 where
  usage unable_to_fetch limit_reached not_found not_owner invalid_url no_tracks invalid_number
        song_not_found :
      PlaylistReply
  failed deleted : Text → PlaylistReply
  created added : Text → Text → PlaylistReply
  removed : Text → PlaylistReply

-- How the calls of the database fail, if they do: GetPlaylist, the read that an update makes first,
-- and the write.
pub record Faults : Type 0 where
  pub get_fault : Option Text
  pub read_fault : Option Text
  pub write_fault : Option Text

-- The bytes of the first runes of valid UTF-8: string([]rune(s)[:n])
unfoldable pub first_runes : ℕ → Text → Text
first_runes n [] = []
first_runes zero (c ∷ s) = if leb 128 c && ltb c 192 then c ∷ first_runes zero s else []
first_runes (suc n) (c ∷ s) =
    if leb 128 c && ltb c 192 then c ∷ first_runes (suc n) s else c ∷ first_runes n s

-- strings.SplitN(s, " ", 2), where it has two parts
unfoldable pub split_two : Text → Option (Text × Text)
split_two [] = none
split_two (c ∷ s) =
    if nat_beq c b' '
    then some ([], s)
    else elim (split_two s) [ none ↦ none | some (a, b) ↦ some (c ∷ a, b) ]

-- The loop that looks for a song by its url or its track.
unfoldable pub find_song : Text → List Song → Text
find_song id [] = []
find_song id (song ∷ songs) =
    let rest = find_song id songs in
    if song.url == id || song.track_id == id then song.track_id else rest

abbrev pub song_at : List Song → ℕ → Option Text
song_at songs i = elim (get_elem? songs i) [ none ↦ none | some song ↦ some song.track_id ]

-- The track that /removefromplaylist is asked for; `none` is a number out of range.
unfoldable pub track_of : Text → List Song → Option Text
unfolding find_song
track_of identifier songs = elim (atoi identifier) [
  | none ↦ some (find_song identifier songs)
  | some (negsuc n) ↦ none
  | some (pos zero) ↦ none
  | some (pos (suc n)) ↦ song_at songs n
]

abbrev pub song_of : GetUrlTrack → Song
song_of track = record {
  url = track.url;
  name = track.title;
  track_id = track.id;
  duration = track.duration;
  platform = track.platform;
}

module _ (C : Collection Text Playlist) where
  open C use {Store}

  abbrev pub reply_to_write : PlaylistReply → Store × Option Text → Store × PlaylistReply
  reply_to_write reply (s, none) = (s, reply)
  reply_to_write reply (s, some e) = (s, failed e)

  -- `owned` is what GetUserPlaylists answers, and `id` the random id.
  unfoldable pub create_playlist_handler :
      Faults → ℤ → Text → Result Text (List Playlist) → Text → Store → Store × PlaylistReply
  create_playlist_handler f uid args owned id s = if is_blank args then (s, usage) else elim owned [
    | err e ↦ (s, unable_to_fetch)
    | ok playlists ↦
        if leb 10 (length playlists)
        then (s, limit_reached)
        else let name = first_runes 40 args in
          let (s', r) = create_playlist C f.write_fault id name uid s in
          elim r [ err e ↦ (s', failed e) | ok id' ↦ (s', created name id') ]
  ]

  -- The start that the other handlers share: the playlist, if the user owns it.
  unfoldable pub with_own :
      Faults → ℤ → Text → Store → (Playlist → Store × PlaylistReply) → Store × PlaylistReply
  with_own f uid id s k = elim (get_playlist C f.get_fault id s) [
    | err e ↦ (s, not_found)
    | ok p ↦ if not (p.user_id == uid) then (s, not_owner) else k p
  ]

  unfoldable pub delete_playlist_handler : Faults → ℤ → Text → Store → Store × PlaylistReply
  unfolding with_own
  delete_playlist_handler f uid args s =
      if is_blank args
      then (s, usage)
      else with_own f uid args s
          (λ p. reply_to_write (deleted p.name) (delete_playlist C f.write_fault args uid s))

  -- The tracks behind a link; `none` is a link that is not valid.
  unfoldable pub add_first_track :
      Faults
      → Text
      → Playlist
      → Option (Result Text (List GetUrlTrack))
      → Store
      → Store × PlaylistReply
  add_first_track f id p none s = (s, invalid_url)
  add_first_track f id p (some (err e)) s = (s, failed e)
  add_first_track f id p (some (ok [])) s = (s, no_tracks)
  add_first_track f id p (some (ok (track ∷ tracks))) s =
      reply_to_write (added track.title p.name)
        (add_song_to_playlist C f.read_fault f.write_fault id (song_of track) s)

  -- `get_info` is what the wrapper of a link finds.
  unfoldable pub add_to_playlist_handler :
      Faults
      → ℤ
      → Text
      → (Text → Option (Result Text (List GetUrlTrack)))
      → Store
      → Store × PlaylistReply
  unfolding with_own add_first_track
  add_to_playlist_handler f uid args get_info s = elim (split_two args) [
    | none ↦ (s, usage)
    | some (id, link) ↦ with_own f uid id s (λ p. add_first_track f id p (get_info link) s)
  ]

  unfoldable pub remove_track_from :
      Faults → Text → Playlist → Option Text → Store → Store × PlaylistReply
  remove_track_from f id p none s = (s, invalid_number)
  remove_track_from f id p (some track) s =
      if is_blank track
      then (s, song_not_found)
      else reply_to_write (removed p.name)
          (remove_song_from_playlist C f.read_fault f.write_fault id track s)

  unfoldable pub remove_from_playlist_handler : Faults → ℤ → Text → Store → Store × PlaylistReply
  unfolding with_own remove_track_from track_of
  remove_from_playlist_handler f uid args s = elim (split_two args) [
    | none ↦ (s, usage)
    | some (id, identifier) ↦
        with_own f uid id s (λ p. remove_track_from f id p (track_of identifier p.songs) s)
  ]
