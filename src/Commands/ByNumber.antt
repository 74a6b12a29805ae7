-- ===== src/Commands/ByNumber.antt =====
-- internal/bot/playlist.go: /removefromplaylist with the number of a song.
use tg.Base.{
  ℕ, zero, suc, ◌≡◌, refl, ap, ◌∙◌, List, [], ◌∷◌, Option, none, some, true, false, Text, ℤ, pos,
  text_eq, text_beq_iff, int_eq, ◌==◌, ==_refl, is_blank, get_elem?, erase_at, arith,
}
use tg.Db.Collection.{Collection}
use tg.Db.Playlists.{
  Song, Playlist, has_track, pull_track, get_playlist, song_exists, write_playlist,
  remove_song_from_playlist,
}
use tg.Db.Tracks.{HasDistinctTracks, without}
use tg.Commands.Numbers.{atoi}
use tg.Commands.Playlists.{
  PlaylistReply, Faults, removed, song_at, reply_to_write, split_two, track_of, with_own,
  remove_track_from, remove_from_playlist_handler,
}

has_track-get_elem? :
    (songs : List Song) (i : ℕ) (song : Song)
    → get_elem? songs i ≡ some song
    → has_track song.track_id songs ≡ true
unfolding has_track
has_track-get_elem? [] i song h = absurd cc
has_track-get_elem? (x ∷ xs) zero song h =
    let same : x ≡ song = cc in ground (arith, ap (λ s. s.track_id) same, ==_refl song.track_id)
has_track-get_elem? (x ∷ xs) (suc i) song h = ground (arith, has_track-get_elem? xs i song h)

without_absent :
    (track : Text) (songs : List Song) → has_track track songs ≡ false → without track songs ≡ songs
unfolding has_track
without_absent track [] h = refl
without_absent track (x ∷ xs) h = ground (arith, without_absent track xs)

without-get_elem? :
    (songs : List Song) (i : ℕ) (song : Song)
    → HasDistinctTracks songs
    → get_elem? songs i ≡ some song
    → without song.track_id songs ≡ erase_at i songs
without-get_elem? [] i song d h = refl
without-get_elem? (x ∷ xs) zero song d h =
    let same : x.track_id ≡ song.track_id = ap (λ s. s.track_id) (let e : x ≡ song = cc in e) in
    ground (arith, without_absent x.track_id xs d.0, ==_refl song.track_id)
without-get_elem? (x ∷ xs) (suc i) song d h = ground (
  arith,
  without-get_elem? xs i song d.1 h,
  has_track-get_elem? xs i song h,
  text_beq_iff x.track_id song.track_id,
)

abbrev pub no_faults : Faults
no_faults = record { get_fault = none; read_fault = none; write_fault = none }

module _ (C : Collection Text Playlist) where
  open C use {Store, find_one}

  remove_song_from_playlist-find_one :
      (id track : Text) (p : Playlist) (s : Store)
      → find_one id s ≡ some p
      → has_track track p.songs ≡ true
      → let r = remove_song_from_playlist C none none id track s in
        (find_one id r.0 ≡ some (pull_track track p)) × (r.1 ≡ none)
  unfolding remove_song_from_playlist song_exists get_playlist write_playlist
  remove_song_from_playlist-find_one id track p s h k =
      (ground (arith, C.find_one-update id id (pull_track track) s, ==_refl id), ground arith)

  own_reply :
      (reply : PlaylistReply) (r : Store × Option Text) {id : Text} {q : Option Playlist}
      → r.1 ≡ none
      → find_one id r.0 ≡ q
      → (find_one id (reply_to_write C reply r).0 ≡ q) × ((reply_to_write C reply r).1 ≡ reply)
  own_reply reply (s, none) e h = (h, refl)
  own_reply reply (s, some x) e h = absurd cc

  -- /removefromplaylist of its owner with the number of a song takes just that song out, and says
  -- so, where the tracks of the playlist differ, the song has a track id, and no call of the
  -- database fails: although the number is turned into a track id, and all songs with that id are
  -- pulled.
  pub remove_from_playlist_handler-erase_at :
      (uid : ℤ) (args id identifier : Text) (p : Playlist) (i : ℕ) (song : Song) (s : Store)
      → split_two args ≡ some (id, identifier)
      → atoi identifier ≡ some (pos (suc i))
      → find_one id s ≡ some p
      → (p.user_id == uid) ≡ true
      → HasDistinctTracks p.songs
      → get_elem? p.songs i ≡ some song
      → is_blank song.track_id ≡ false
      → let r = remove_from_playlist_handler C no_faults uid args s in
        (find_one id r.0 ≡ some (record p { songs = erase_at i p.songs })) × (r.1 ≡ removed p.name)
  unfolding remove_from_playlist_handler with_own remove_track_from track_of get_playlist pull_track
  remove_from_playlist_handler-erase_at uid args id identifier p i song s a n h u d g b =
      let r =
        remove_song_from_playlist-find_one id song.track_id p s h
          (has_track-get_elem? p.songs i song g) in
      let ready : track_of identifier p.songs ≡ some song.track_id =
        rw (n, track_of, g, song_at) refl in
      rw
        (remove_from_playlist_handler, a, with_own, get_playlist, h, u, ready, remove_track_from, b)
        (own_reply (removed p.name) _ r.1
          (r.0 ∙ ap (λ ss. some (record p { songs = ss })) (without-get_elem? p.songs i song d g)))
