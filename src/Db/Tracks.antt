-- ===== src/Db/Tracks.antt =====
-- internal/db/playlist.go: which tracks a playlist holds.
use tg.Base.{
  ◌≡◌, refl, sym, subst, List, [], ◌∷◌, ◌++◌, Option, none, some, Bool, true, false, ◌||◌, ◌&&◌,
  not, Text, ℤ, int_eq, text_eq, text_beq_iff, if◌then◌else◌, ◌==◌, arith, keep_if,
}
use tg.Db.Collection.{Collection}
use tg.Db.Playlists.{
  Song, Playlist, not_in_playlist, has_track, push_song, pull_track, create_playlist, get_playlist,
  delete_playlist, song_exists, write_playlist, add_song_to_playlist, remove_song_from_playlist,
}

-- No track stands twice.
abbrev pub HasDistinctTracks : List Song → Type 0
HasDistinctTracks [] = Unit
HasDistinctTracks (song ∷ songs) = (has_track song.track_id songs ≡ false) × HasDistinctTracks songs

has_track-append :
    (track : Text) (xs ys : List Song)
    → has_track track (xs ++ ys) ≡ (has_track track xs || has_track track ys)
unfolding has_track
has_track-append track [] ys = refl
has_track-append track (x ∷ xs) ys = ground (arith, has_track-append track xs ys)

-- The songs without those of a track.
abbrev pub without : Text → List Song → List Song
without track songs = keep_if (λ song. not (song.track_id == track)) songs

has_track-without :
    (gone track : Text) (songs : List Song)
    → has_track track (without gone songs) ≡ (not (gone == track) && has_track track songs)
unfolding has_track
has_track-without gone track [] = ground arith
has_track-without gone track (x ∷ xs) = ground (
  arith,
  has_track-without gone track xs,
  text_beq_iff x.track_id gone,
  text_beq_iff x.track_id track,
  text_beq_iff gone track,
)

append-HasDistinctTracks :
    (song : Song) (xs : List Song)
    → HasDistinctTracks xs
    → has_track song.track_id xs ≡ false
    → HasDistinctTracks (xs ++ song ∷ [])
unfolding has_track
append-HasDistinctTracks song [] d h = (refl, tt)
append-HasDistinctTracks song (x ∷ xs) d h = (
  ground (
    arith,
    has_track-append x.track_id xs (song ∷ []),
    text_beq_iff x.track_id song.track_id,
    text_beq_iff song.track_id x.track_id,
  ),
  append-HasDistinctTracks song xs d.1 (ground arith),
)

without-HasDistinctTracks :
    (gone : Text) (xs : List Song) → HasDistinctTracks xs → HasDistinctTracks (without gone xs)
without-HasDistinctTracks gone [] d = tt
without-HasDistinctTracks gone (x ∷ xs) d =
    ground (arith, has_track-without gone x.track_id xs, without-HasDistinctTracks gone xs d.1)

abbrev pub is_there : Option Playlist → Bool
is_there none = false
is_there (some p) = true

-- A call whose read is answered; its write can fail.
pub data Call : Type 0 where
  creates : Option Text → Text → Text → ℤ → Call
  deletes : Option Text → Text → ℤ → Call
  adds : Option Text → Text → Song → Call
  removes : Option Text → Text → Text → Call

module _ (C : Collection Text Playlist) where
  open C use {Store, find_one}

  unfoldable pub step : Call → Store → Store
  step (creates fault id name uid) s = (create_playlist C fault id name uid s).0
  step (deletes fault id uid) s = (delete_playlist C fault id uid s).0
  step (adds fault id song) s = (add_song_to_playlist C none fault id song s).0
  step (removes fault id track) s = (remove_song_from_playlist C none fault id track s).0

  unfoldable pub run : List Call → Store → Store
  run [] s = s
  run (c ∷ calls) s = run calls (step c s)

  abbrev songs_in : Option Playlist → List Song
  songs_in none = []
  songs_in (some p) = p.songs

  -- The songs of a playlist; none, where there is no playlist.
  abbrev pub songs_of : Text → Store → List Song
  songs_of id s = songs_in (find_one id s)

  song_exists-songs_of :
      (id track : Text) (s : Store)
      → song_exists C none id track s ≡ has_track track (songs_of id s)
  unfolding song_exists get_playlist has_track
  song_exists-songs_of id track s = ground arith

  -- What adding makes of the songs of a playlist that is there or not.
  songs_of-add :
      (id j : Text) (song : Song) (s : Store)
      → songs_of j (add_song_to_playlist C none none id song s).0 ≡ (
          if id == j && (is_there (find_one j s) && not (has_track song.track_id (songs_of j s)))
          then songs_of j s ++ song ∷ []
          else songs_of j s)
  unfolding add_song_to_playlist write_playlist push_song
  songs_of-add id j song s = ground (
    arith,
    song_exists-songs_of id song.track_id s,
    C.find_one-update id j (push_song song) s,
    text_beq_iff id j,
  )

  songs_of-remove :
      (id j track : Text) (s : Store)
      → songs_of j (remove_song_from_playlist C none none id track s).0 ≡ (
          if id == j && has_track track (songs_of j s)
          then without track (songs_of j s)
          else songs_of j s)
  unfolding remove_song_from_playlist write_playlist pull_track
  songs_of-remove id j track s = ground (
    arith,
    song_exists-songs_of id track s,
    C.find_one-update id j (pull_track track) s,
    text_beq_iff id j,
  )

  -- Where the reads and the writes succeed: adding a song puts its track into the playlist, if
  -- there is one, and nothing else changes in any playlist; removing a track takes it out of the
  -- playlist, and nothing else changes, and it reports an error exactly where the track is not
  -- there.
  pub has_track-add_remove :
      (id j gone track : Text) (song : Song) (s : Store)
      → (has_track track (songs_of j (add_song_to_playlist C none none id song s).0) ≡ (
          (id == j && (is_there (find_one j s) && song.track_id == track))
          || has_track track (songs_of j s)))
        × (has_track track (songs_of j (remove_song_from_playlist C none none id gone s).0)
            ≡ (not (id == j && gone == track) && has_track track (songs_of j s)))
        × ((remove_song_from_playlist C none none id gone s).1
            ≡ (if has_track gone (songs_of id s) then none else some (not_in_playlist gone)))
  unfolding has_track
  has_track-add_remove id j gone track song s = (
    ground (
      arith,
      songs_of-add id j song s,
      has_track-append track (songs_of j s) (song ∷ []),
      text_beq_iff song.track_id track,
    ),
    ground (
      arith,
      songs_of-remove id j gone s,
      has_track-without gone track (songs_of j s),
      text_beq_iff gone track,
    ),
    unfold remove_song_from_playlist write_playlist in
        ground (arith, song_exists-songs_of id gone s),
  )

  songs_of-create :
      (fault : Option Text) (id j name : Text) (uid : ℤ) (s : Store)
      → songs_of j (create_playlist C fault id name uid s).0 ≡ songs_of j s
  unfolding create_playlist
  songs_of-create (some e) id j name uid s = refl
  songs_of-create none id j name uid s =
      let p : Playlist = record { name = name; user_id = uid; songs = [] } in
      ground (arith, C.find_one-upsert id j (λ q. q) p s, text_beq_iff id j)

  delete_playlist-HasDistinctTracks :
      (fault : Option Text) (id j : Text) (uid : ℤ) (s : Store)
      → HasDistinctTracks (songs_of j s)
      → HasDistinctTracks (songs_of j (delete_playlist C fault id uid s).0)
  unfolding delete_playlist
  delete_playlist-HasDistinctTracks (some e) id j uid s h = h
  delete_playlist-HasDistinctTracks none id j uid s h = ground (arith, C.find_one-remove id j s)

  add-HasDistinctTracks :
      (fault : Option Text) (id j : Text) (song : Song) (s : Store)
      → HasDistinctTracks (songs_of j s)
      → HasDistinctTracks (songs_of j (add_song_to_playlist C none fault id song s).0)
  unfolding add_song_to_playlist write_playlist
  add-HasDistinctTracks (some e) id j song s h = ground arith
  add-HasDistinctTracks none id j song s h =
      ground (arith, songs_of-add id j song s, append-HasDistinctTracks song (songs_of j s) h)

  remove-HasDistinctTracks :
      (fault : Option Text) (id j track : Text) (s : Store)
      → HasDistinctTracks (songs_of j s)
      → HasDistinctTracks (songs_of j (remove_song_from_playlist C none fault id track s).0)
  unfolding remove_song_from_playlist write_playlist
  remove-HasDistinctTracks (some e) id j track s h = ground arith
  remove-HasDistinctTracks none id j track s h =
      ground (arith, songs_of-remove id j track s, without-HasDistinctTracks track (songs_of j s) h)

  step-HasDistinctTracks :
      (c : Call) (j : Text) (s : Store)
      → HasDistinctTracks (songs_of j s)
      → HasDistinctTracks (songs_of j (step c s))
  unfolding step
  step-HasDistinctTracks (creates fault id name uid) j s h =
      subst HasDistinctTracks (sym (songs_of-create fault id j name uid s)) h
  step-HasDistinctTracks (deletes fault id uid) j s h =
      delete_playlist-HasDistinctTracks fault id j uid s h
  step-HasDistinctTracks (adds fault id song) j s h = add-HasDistinctTracks fault id j song s h
  step-HasDistinctTracks (removes fault id track) j s h =
      remove-HasDistinctTracks fault id j track s h

  -- A playlist that holds no track twice never comes to hold one twice, whatever is called on
  -- whatever playlists, one call after the other, with whatever errors of the writes, as long as
  -- the reads before them are answered.
  pub run-HasDistinctTracks :
      (calls : List Call) (j : Text) (s : Store)
      → HasDistinctTracks (songs_of j s)
      → HasDistinctTracks (songs_of j (run calls s))
  unfolding run
  run-HasDistinctTracks [] j s h = h
  run-HasDistinctTracks (c ∷ calls) j s h =
      run-HasDistinctTracks calls j (step c s) (step-HasDistinctTracks c j s h)
