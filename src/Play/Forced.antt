-- ===== src/Play/Forced.antt =====
-- internal/bot/play.go: several songs in a chat where nothing plays, with and without force.
use tg.Base.{
  subst, ℕ, suc, ◌+◌, ◌-◌, List, [], ◌∷◌, some, true, false, ◌≡◌, refl, ap, ◌∙◌, ℤ, pos, Bool, Text,
  int_eq, ==_refl, length, map, arith, nat_beq_iff, nat_eq,
}
use mathlib.Core.List.{reverse}
use tg.Player.{Pointer, data_of, write, add_songs, get_queue_length, remove_current_song}
use tg.Db.Collection.{Collection}
use tg.Playback.Next.{GetUrlTrack, Session, Ending, with_chats, play_next, play_track}
use tg.Play.Defs.{
  Attempt, Config, added, requested, within_limit, allocate_all, in_memory, then_next, after_adding,
  add_multiple, add_each_to_front, handle_multiple_tracks,
}
use tg.Play.Front.{add_each_to_front_lem}
use tg.Play.Allocated.{
  Holds, write-Holds, allocate_all-Holds, short_tracks, within_limit-short_tracks, addresses,
  addresses-snoc, length-addresses, length-map, allocate_all-world, allocate_all-loop,
  requested-AreOnce,
}
use tg.Play.Multiple.{
  replies, handle_multiple-added, play_next-over, play_next-repeats, added-then_next,
  add_multiple-queued,
}

module _ {C : Collection ℤ ℤ} where
  get_queue_length-data_of :
      (chat : ℤ) (s : Session C)
      → get_queue_length chat s.world.chats ≡ length (data_of chat s.world.chats).queue
  unfolding get_queue_length
  get_queue_length-data_of chat s = ground arith

  add_multiple-forced :
      (a : Attempt) (k : Config) (chat : ℤ) (first n : ℕ) (s : Session C)
      → (data_of chat s.world.chats).queue ≡ []
      → let songs = addresses first (suc (suc n)) in
        let c = add_each_to_front chat (reverse songs) s.world.chats in
        (add_multiple a k chat true songs s
          ≡ then_next a k chat (added (suc (suc n))) (
              in_memory
                (write first (record (s.mem first) { loop = pos 1 }) s.mem)
                (with_chats c s)))
        × ((data_of chat c).queue ≡ some (first + suc n) ∷ addresses first (suc n))
  unfolding add_multiple after_adding
  add_multiple-forced a k chat first n s q =
      let songs : List Pointer = addresses first (suc (suc n)) in
      let c = add_each_to_front chat (reverse songs) s.world.chats in
      let last : Pointer = some (first + suc n) in
      let queue : (data_of chat c).queue ≡ last ∷ addresses first (suc n) =
        rw (addresses-snoc first (suc n)) (
          ground (
            arith,
            add_each_to_front_lem chat chat (addresses first (suc n)) last s.world.chats,
            ==_refl chat,
            q,
          )) in
      let size : get_queue_length chat c ≡ suc (suc n) =
        get_queue_length-data_of chat (with_chats c s)
        ∙ ap length queue
        ∙ ap suc (length-addresses first (suc n)) in
      let none_before : suc (suc n) - length songs ≡ 0 =
        omega (arith, length-addresses first (suc (suc n))) in
      (rw (size, none_before) refl, queue)

  -- What handleMultipleTracks comes to: PlayNext that plays the first track, with the queue given,
  -- while the tracks that are wanted stand at the new addresses, with the loop count given of the
  -- first.
  abbrev pub PlaysFirst :
      Attempt
      → Config
      → ℤ
      → Text
      → Bool
      → Bool
      → List GetUrlTrack
      → Session C
      → ℕ
      → ℕ
      → List Pointer
      → List GetUrlTrack
      → ℤ
      → Type 0
  PlaysFirst a k chat user is_video force tracks s fuel count queue wanted loop =
      let go_on : Session C → Ending C =
        λ t. play_next fuel a.next k.total k.auto_play_limit chat t in
      (s' : Session C) × (handle_multiple_tracks a k chat user is_video force tracks s
        ≡ replies (added count) (play_track a.next k.total chat go_on s.fresh s'))
      × ((data_of chat s'.world.chats).queue ≡ queue)
      × Holds s'.mem s.fresh user is_video loop wanted

  handle_multiple-PlaysFirst :
      (a : Attempt) (k : Config) (chat : ℤ) (user : Text) (is_video : Bool)
      (tracks : List GetUrlTrack) (s : Session C) (fuel n : ℕ)
      → (data_of chat s.world.chats).queue ≡ []
      → length (within_limit k.song_duration_limit tracks) ≡ suc n
      → a.fuel ≡ suc fuel
      → PlaysFirst a k chat user is_video false tracks s fuel
          (suc n)
          (addresses s.fresh (suc n))
          (within_limit k.song_duration_limit tracks)
          (pos 0)
  handle_multiple-PlaysFirst a k chat user is_video tracks s fuel n q found f =
      let wanted = within_limit k.song_duration_limit tracks in
      let songs = map (requested user is_video []) wanted in
      let s1 = (allocate_all songs s).0 in
      let same : (data_of chat s1.world.chats).queue ≡ [] =
        ap (λ w. (data_of chat w.chats).queue) (allocate_all-world songs s).1 ∙ q in
      let put = add_multiple-queued a k chat s.fresh n s1 same in
      let c = (add_songs chat (addresses s.fresh (suc n)) s1.world.chats).0 in
      let s2 =
        in_memory (write s.fresh (record (s1.mem s.fresh) { loop = pos 1 }) s1.mem)
          (with_chats c s1) in
      let looped : (s2.mem s.fresh).loop ≡ pos 1 = ground (arith, nat_beq_iff s.fresh s.fresh) in
      let again = record (s2.mem s.fresh) { loop = pos 0 } in
      (
        in_memory (write s.fresh again s2.mem) s2,
        handle_multiple-added a k chat user is_video false tracks s n found
            ∙ put.0
            ∙ added-then_next (suc fuel) a k chat (added (suc n)) s2 f
            ∙ ap (replies (added (suc n))) (
                play_next-repeats fuel a k chat s2 s.fresh (addresses (suc s.fresh) n) put.1
                  looped),
        put.1,
        write-Holds s2.mem s.fresh user is_video (pos 1) (pos 0) wanted (
            write-Holds s1.mem s.fresh user is_video (pos 0) (pos 1) wanted
              (allocate_all-Holds user is_video wanted s)),
      )

  handle_multiple-forced :
      (a : Attempt) (k : Config) (chat : ℤ) (user : Text) (is_video : Bool)
      (tracks : List GetUrlTrack) (s : Session C) (fuel n : ℕ)
      → (data_of chat s.world.chats).queue ≡ []
      → length (within_limit k.song_duration_limit tracks) ≡ suc (suc n)
      → a.fuel ≡ suc fuel
      → PlaysFirst a k chat user is_video true tracks s fuel
          (suc (suc n))
          (addresses s.fresh (suc n))
          (within_limit k.song_duration_limit tracks)
          (pos 1)
  handle_multiple-forced a k chat user is_video tracks s fuel n q found f =
      let wanted = within_limit k.song_duration_limit tracks in
      let songs = map (requested user is_video []) wanted in
      let s1 = (allocate_all songs s).0 in
      let same : (data_of chat s1.world.chats).queue ≡ [] =
        ap (λ w. (data_of chat w.chats).queue) (allocate_all-world songs s).1 ∙ q in
      let put = add_multiple-forced a k chat s.fresh n s1 same in
      let c = add_each_to_front chat (reverse (addresses s.fresh (suc (suc n)))) s1.world.chats in
      let s2 =
        in_memory (write s.fresh (record (s1.mem s.fresh) { loop = pos 1 }) s1.mem)
          (with_chats c s1) in
      let last : ℕ = s.fresh + suc n in
      let once : (s1.mem last).loop ≡ pos 0 =
        allocate_all-loop songs s last (requested-AreOnce user is_video wanted) (omega arith)
          (omega (arith, found, length-map (requested user is_video []) wanted)) in
      let over =
        play_next-over fuel a k chat s2 last s.fresh (addresses (suc s.fresh) n) put.1
          (ground (arith, once, nat_beq_iff s.fresh last)) in
      (
        with_chats (remove_current_song s2.mem chat s2.world.chats).0 s2,
        handle_multiple-added a k chat user is_video true tracks s (suc n) found
            ∙ put.0
            ∙ added-then_next (suc fuel) a k chat (added (suc (suc n))) s2 f
            ∙ ap (replies (added (suc (suc n)))) over.0,
        over.1,
        write-Holds s1.mem s.fresh user is_video (pos 0) (pos 1) wanted
            (allocate_all-Holds user is_video wanted s),
      )

  -- /play of several tracks where nothing plays: with fuel for one call of PlayNext, the first of
  -- the tracks that are not too long is played, not to be repeated, and all of them stand in the
  -- queue, in order, none of them repeated, as the handler got them.
  pub handle_multiple_tracks-PlaysFirst :
      (a : Attempt) (k : Config) (chat : ℤ) (user : Text) (is_video : Bool)
      (tracks : List GetUrlTrack) (s : Session C) (fuel n : ℕ)
      → (data_of chat s.world.chats).queue ≡ []
      → length (short_tracks k.song_duration_limit tracks) ≡ suc n
      → a.fuel ≡ suc fuel
      → PlaysFirst a k chat user is_video false tracks s fuel
          (suc n)
          (addresses s.fresh (suc n))
          (short_tracks k.song_duration_limit tracks)
          (pos 0)
  handle_multiple_tracks-PlaysFirst a k chat user is_video tracks s fuel n q found f =
      let same = within_limit-short_tracks k.song_duration_limit tracks in
      subst
        (λ wanted.
          PlaysFirst a k chat user is_video false tracks s fuel (suc n) (addresses s.fresh (suc n))
            wanted (pos 0))
        same
        (handle_multiple-PlaysFirst a k chat user is_video tracks s fuel n q
          (ap length same ∙ found) f)

  -- /fplay where nothing plays and two or more tracks are not too long: with fuel for one call of
  -- PlayNext, the first of these is played, with one repetition left, and the queue holds them in
  -- order but for the last, which is dropped unheard; each stands in memory as the handler got
  -- it.
  pub handle_multiple_tracks-forced :
      (a : Attempt) (k : Config) (chat : ℤ) (user : Text) (is_video : Bool)
      (tracks : List GetUrlTrack) (s : Session C) (fuel n : ℕ)
      → (data_of chat s.world.chats).queue ≡ []
      → length (short_tracks k.song_duration_limit tracks) ≡ suc (suc n)
      → a.fuel ≡ suc fuel
      → PlaysFirst a k chat user is_video true tracks s fuel
          (suc (suc n))
          (addresses s.fresh (suc n))
          (short_tracks k.song_duration_limit tracks)
          (pos 1)
  handle_multiple_tracks-forced a k chat user is_video tracks s fuel n q found f =
      let same = within_limit-short_tracks k.song_duration_limit tracks in
      subst
        (λ wanted.
          PlaysFirst a k chat user is_video true tracks s fuel (suc (suc n))
            (addresses s.fresh (suc n)) wanted (pos 1))
        same
        (handle_multiple-forced a k chat user is_video tracks s fuel n q (ap length same ∙ found) f)
