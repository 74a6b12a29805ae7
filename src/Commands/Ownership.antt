-- ===== src/Commands/Ownership.antt =====
-- internal/bot/playlist.go: who changes a playlist.
use tg.Base.{
  ◌≡◌, refl, ap, ◌∙◌, List, [], ◌∷◌, Option, none, some, true, false, Text, ℤ, text_eq,
  text_beq_iff, int_eq, int_beq_iff, ◌==◌, ==_refl, is_blank, Result, ok, err, All, arith,
  Option-cases, Bool-cases, Result-cases, inl, inr,
}
use tg.Db.Collection.{Collection}
use tg.Db.Playlists.{
  Song, Playlist, push_song, pull_track, create_playlist, get_playlist, delete_playlist,
  write_playlist, add_song_to_playlist, remove_song_from_playlist,
}
use tg.Playback.Next.{GetUrlTrack}
use tg.Commands.Playlists.{
  PlaylistReply, Faults, first_runes, split_two, song_of, track_of, create_playlist_handler,
  with_own, delete_playlist_handler, add_first_track, add_to_playlist_handler, remove_track_from,
  remove_from_playlist_handler, reply_to_write,
}

-- A command, with the user who sends it and its arguments.
pub data Command : Type 0 where
  creates : Faults → ℤ → Text → Result Text (List Playlist) → Text → Command
  deletes : Faults → ℤ → Text → Command
  adds : Faults → ℤ → Text → (Text → Option (Result Text (List GetUrlTrack))) → Command
  removes : Faults → ℤ → Text → Command

abbrev pub user_of : Command → ℤ
user_of (creates f uid args owned id) = uid
user_of (deletes f uid args) = uid
user_of (adds f uid args get_info) = uid
user_of (removes f uid args) = uid

module _ (C : Collection Text Playlist) where
  open C use {Store, find_one}

  unfoldable pub step : Command → Store → Store
  unfolding create_playlist_handler delete_playlist_handler add_to_playlist_handler
      remove_from_playlist_handler
  step (creates f uid args owned id) s = (create_playlist_handler C f uid args owned id s).0
  step (deletes f uid args) s = (delete_playlist_handler C f uid args s).0
  step (adds f uid args get_info) s = (add_to_playlist_handler C f uid args get_info s).0
  step (removes f uid args) s = (remove_from_playlist_handler C f uid args s).0

  unfoldable pub run : List Command → Store → Store
  unfolding step
  run [] s = s
  run (c ∷ commands) s = run commands (step c s)

  write_playlist-other :
      (fault : Option Text) (id j : Text) (f : Playlist → Playlist) (s : Store)
      → (id == j) ≡ false
      → find_one j (write_playlist C fault id f s).0 ≡ find_one j s
  unfolding write_playlist
  write_playlist-other (some e) id j f s h = refl
  write_playlist-other none id j f s h = ground (arith, C.find_one-update id j f s)

  add-other :
      (read_fault fault : Option Text) (id j : Text) (song : Song) (s : Store)
      → (id == j) ≡ false
      → find_one j (add_song_to_playlist C read_fault fault id song s).0 ≡ find_one j s
  unfolding add_song_to_playlist
  add-other read_fault fault id j song s h =
      ground (arith, write_playlist-other fault id j (push_song song) s h)

  remove-other :
      (read_fault fault : Option Text) (id j track : Text) (s : Store)
      → (id == j) ≡ false
      → find_one j (remove_song_from_playlist C read_fault fault id track s).0 ≡ find_one j s
  unfolding remove_song_from_playlist
  remove-other read_fault fault id j track s h =
      ground (arith, write_playlist-other fault id j (pull_track track) s h)

  delete-other :
      (fault : Option Text) (id j : Text) (uid : ℤ) (s : Store)
      → (id == j) ≡ false
      → find_one j (delete_playlist C fault id uid s).0 ≡ find_one j s
  unfolding delete_playlist
  delete-other (some e) id j uid s h = refl
  delete-other none id j uid s h = ground (arith, C.find_one-remove id j s)

  create-taken :
      (fault : Option Text) (id j name : Text) (uid : ℤ) (p : Playlist) (s : Store)
      → find_one j s ≡ some p
      → find_one j (create_playlist C fault id name uid s).0 ≡ some p
  unfolding create_playlist
  create-taken (some e) id j name uid p s h = h
  create-taken none id j name uid p s h =
      let q : Playlist = record { name = name; user_id = uid; songs = [] } in
      ground (arith, C.find_one-upsert id j (λ d. d) q s, text_beq_iff id j)

  reply_to_write-store :
      (reply : PlaylistReply) (r : Store × Option Text) → (reply_to_write C reply r).0 ≡ r.0
  reply_to_write-store reply (s, none) = refl
  reply_to_write-store reply (s, some e) = refl

  not_own :
      (fault : Option Text) (uid : ℤ) (id j : Text) (p q : Playlist) (s : Store)
      → find_one j s ≡ some p
      → (uid == p.user_id) ≡ false
      → get_playlist C fault id s ≡ ok q
      → (q.user_id == uid) ≡ true
      → (id == j) ≡ true
      → ⊥
  unfolding get_playlist
  not_own (some x) uid id j p q s h o g u e = absurd cc
  not_own none uid id j p q s h o g u e =
      ground (arith, text_beq_iff id j, int_beq_iff q.user_id uid, ==_refl uid)

  -- Somebody else's playlist is not changed by what is done to the user's own.
  with_own-other :
      (f : Faults) (uid : ℤ) (id j : Text) (p : Playlist) (s : Store)
      (k : Playlist → Store × PlaylistReply)
      → find_one j s ≡ some p
      → (uid == p.user_id) ≡ false
      → ((q : Playlist) → (id == j) ≡ false → find_one j (k q).0 ≡ find_one j s)
      → find_one j (with_own C f uid id s k).0 ≡ some p
  unfolding with_own
  with_own-other f uid id j p s k h o b = elim (Result-cases (get_playlist C f.get_fault id s)) [
    | inr (e, g) ↦ rw (g, with_own) h
    | inl (q, g) ↦ elim (Bool-cases (q.user_id == uid)) [
      | inr u ↦ rw (g, with_own, u) h
      | inl u ↦ elim (Bool-cases (id == j)) [
        | inr e ↦ rw (g, with_own, u) (b q e ∙ h)
        | inl e ↦ absurd (not_own f.get_fault uid id j p q s h o g u e)
      ]
    ]
  ]

  add_first_track-other :
      (f : Faults) (id j : Text) (p : Playlist) (found : Option (Result Text (List GetUrlTrack)))
      (s : Store)
      → (id == j) ≡ false
      → find_one j (add_first_track C f id p found s).0 ≡ find_one j s
  unfolding add_first_track
  add_first_track-other f id j p none s h = refl
  add_first_track-other f id j p (some (err e)) s h = refl
  add_first_track-other f id j p (some (ok [])) s h = refl
  add_first_track-other f id j p (some (ok (track ∷ tracks))) s h =
      ap (find_one j) (reply_to_write-store _ _)
      ∙ add-other f.read_fault f.write_fault id j (song_of track) s h

  remove_track_from-other :
      (f : Faults) (id j : Text) (p : Playlist) (found : Option Text) (s : Store)
      → (id == j) ≡ false
      → find_one j (remove_track_from C f id p found s).0 ≡ find_one j s
  unfolding remove_track_from
  remove_track_from-other f id j p none s h = refl
  remove_track_from-other f id j p (some track) s h = elim (Bool-cases (is_blank track)) [
    | inl b ↦ rw (b) refl
    | inr b ↦ rw (b) (
        ap (find_one j) (reply_to_write-store _ _)
        ∙ remove-other f.read_fault f.write_fault id j track s h)
  ]

  step-find_one :
      (c : Command) (j : Text) (p : Playlist) (s : Store)
      → find_one j s ≡ some p
      → (user_of c == p.user_id) ≡ false
      → find_one j (step c s) ≡ some p
  unfolding step create_playlist_handler delete_playlist_handler add_to_playlist_handler
      remove_from_playlist_handler
  step-find_one (creates f uid args owned id) j p s h o =
      ground (arith, create-taken f.write_fault id j (first_runes 40 args) uid p s h)
  step-find_one (deletes f uid args) j p s h o = elim (Bool-cases (is_blank args)) [
    | inl b ↦ rw (step, delete_playlist_handler, b) h
    | inr b ↦
        rw (step, delete_playlist_handler, b)
          (with_own-other f uid args j p s _ h o (λ q e.
            ap (find_one j) (reply_to_write-store _ _) ∙ delete-other f.write_fault args j uid s e))
  ]
  step-find_one (adds f uid args get_info) j p s h o = elim (Option-cases (split_two args)) [
    | inl n ↦ rw (step, add_to_playlist_handler, n) h
    | inr ((id, link), n) ↦
        rw (step, add_to_playlist_handler, n)
          (with_own-other f uid id j p s _ h o
            (λ q e. add_first_track-other f id j q (get_info link) s e))
  ]
  step-find_one (removes f uid args) j p s h o = elim (Option-cases (split_two args)) [
    | inl n ↦ rw (step, remove_from_playlist_handler, n) h
    | inr ((id, identifier), n) ↦
        rw (step, remove_from_playlist_handler, n)
          (with_own-other f uid id j p s _ h o
            (λ q e. remove_track_from-other f id j q (track_of identifier q.songs) s e))
  ]

  -- Whatever playlist commands others than its owner send, in whatever order and number and with
  -- whatever errors of the database, a playlist that is there stays as it is: nobody else deletes
  -- it, adds to it, takes from it or puts another one in its place.
  pub run-others :
      (commands : List Command) (j : Text) (p : Playlist) (s : Store)
      → find_one j s ≡ some p
      → All (λ c. (user_of c == p.user_id) ≡ false) commands
      → find_one j (run commands s) ≡ some p
  unfolding run
  run-others [] j p s h o = h
  run-others (c ∷ commands) j p s h o =
      run-others commands j p (step c s) (step-find_one c j p s h o.0) o.1
