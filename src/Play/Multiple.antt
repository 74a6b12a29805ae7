-- ===== src/Play/Multiple.antt =====
-- internal/bot/play.go: what handleMultipleTracks comes to where nothing plays.
use tg.Base.{
  ℕ, suc, ◌-◌, List, [], ◌∷◌, ◌++◌, none, some, false, ◌≡◌, refl, ap, ◌∙◌, ℤ, pos, Bool, Text,
  int_eq, ==_refl, length, map, arith, is_empty,
}
use tg.Player.{
  no_track, Pointer, ChatCacher, data_of, pointer_at, write, add_songs, get_loop_count,
  get_playing_track, remove_current_song, set_loop_count,
}
use tg.Player.Calls.{apply, spec, queue_spec, adds_all, removes_current}
use tg.Player.Queue.{apply-Means, get_or_create-data_of}
use tg.Db.Collection.{Collection}
use tg.Playback.Next.{GetUrlTrack, Session, Ending, with_chats, play_next, play_track, advance}
use tg.Playback.Remaining.{get_playing_track-data_of}
use tg.Play.Defs.{
  Attempt, Config, Reply, added, Ended, requested, within_limit, allocate_all, in_memory, then_next,
  after_adding, add_multiple, handle_multiple_tracks,
}
use tg.Play.Allocated.{addresses, length-addresses, length-map, allocate_all-world}

-- The reply of the handler after PlayNext.
abbrev pub replies : {C : Collection ℤ ℤ} → Reply → Ending C → Ended C
replies reply none = none
replies reply (some (s, e)) = some (s, reply)

not_empty : {A : Type 0} (xs : List A) (n : ℕ) → length xs ≡ suc n → is_empty xs ≡ false
not_empty [] n h = absurd (omega (arith, h))
not_empty (x ∷ xs) n h = refl

add_songs_lem :
    (chat : ℤ) (p : Pointer) (ps : List Pointer) (c : ChatCacher)
    → let queue = (data_of chat c).queue ++ p ∷ ps in
      ((add_songs chat (p ∷ ps) c).1 ≡ length queue)
      × ((data_of chat (add_songs chat (p ∷ ps) c).0).queue ≡ queue)
unfolding add_songs apply spec queue_spec
add_songs_lem chat p ps c = (
  ap (λ d. length (d.queue ++ p ∷ ps)) (get_or_create-data_of chat chat c).0,
  ground (arith, apply-Means (λ a. no_track) chat (adds_all (p ∷ ps)) c chat, ==_refl chat),
)

module _ {C : Collection ℤ ℤ} where
  -- The songs that are found, where nothing is too long or some are left.
  pub handle_multiple-added :
      (a : Attempt) (k : Config) (chat : ℤ) (user : Text) (is_video force : Bool)
      (tracks : List GetUrlTrack) (s : Session C) (n : ℕ)
      → length (within_limit k.song_duration_limit tracks) ≡ suc n
      → let songs = map (requested user is_video []) (within_limit k.song_duration_limit tracks) in
        handle_multiple_tracks a k chat user is_video force tracks s
        ≡ add_multiple a k chat force (addresses s.fresh (suc n)) (allocate_all songs s).0
  unfolding handle_multiple_tracks
  handle_multiple-added a k chat user is_video force [] s n h =
      absurd (unfold within_limit in omega (arith, h))
  handle_multiple-added a k chat user is_video force (t ∷ ts) s n h =
      let found = within_limit k.song_duration_limit (t ∷ ts) in
      let songs = map (requested user is_video []) found in
      let e : is_empty found ≡ false = not_empty found n h in
      let p : (allocate_all songs s).1 ≡ addresses s.fresh (suc n) =
        (allocate_all-world songs s).0
        ∙ ap (addresses s.fresh) (length-map (requested user is_video []) found ∙ h) in
      rw (e, p) refl

  -- PlayNext where the current song is over, and another one stands behind it.
  pub play_next-over :
      (fuel : ℕ) (a : Attempt) (k : Config) (chat : ℤ) (s : Session C) (current next : ℕ)
      (rest : List Pointer)
      → (data_of chat s.world.chats).queue ≡ some current ∷ some next ∷ rest
      → (s.mem current).loop ≡ pos 0
      → let go_on : Session C → Ending C =
          λ t. play_next fuel a.next k.total k.auto_play_limit chat t in
        let s' = with_chats (remove_current_song s.mem chat s.world.chats).0 s in
        (play_next (suc fuel) a.next k.total k.auto_play_limit chat s
          ≡ play_track a.next k.total chat go_on next s')
        × ((data_of chat s'.world.chats).queue ≡ some next ∷ rest)
  unfolding play_next advance get_loop_count apply spec queue_spec
  play_next-over fuel a k chat s current next rest q l =
      let c = s.world.chats in
      let c' = (remove_current_song s.mem chat c).0 in
      let playing : get_playing_track chat c ≡ some current =
        get_playing_track-data_of chat c ∙ ap (λ ps. pointer_at ps 0) q in
      let left : (data_of chat c').queue ≡ some next ∷ rest =
        ground (arith, apply-Means s.mem chat removes_current c chat, ==_refl chat, q) in
      let behind : get_playing_track chat c' ≡ some next =
        get_playing_track-data_of chat c' ∙ ap (λ ps. pointer_at ps 0) left in
      (rw (playing, l, behind, play_next, get_loop_count, advance) refl, left)

  -- PlayNext where the current song is to be repeated.
  pub play_next-repeats :
      (fuel : ℕ) (a : Attempt) (k : Config) (chat : ℤ) (s : Session C) (current : ℕ)
      (rest : List Pointer)
      → (data_of chat s.world.chats).queue ≡ some current ∷ rest
      → (s.mem current).loop ≡ pos 1
      → let go_on : Session C → Ending C =
          λ t. play_next fuel a.next k.total k.auto_play_limit chat t in
        let song = record (s.mem current) { loop = pos 0 } in
        play_next (suc fuel) a.next k.total k.auto_play_limit chat s
        ≡ play_track a.next k.total chat go_on current (in_memory (write current song s.mem) s)
  unfolding play_next
  play_next-repeats fuel a k chat s current rest q l =
      let song = record (s.mem current) { loop = pos 0 } in
      let playing : get_playing_track chat s.world.chats ≡ some current =
        get_playing_track-data_of chat s.world.chats ∙ ap (λ ps. pointer_at ps 0) q in
      let count : get_loop_count s.mem chat s.world.chats ≡ pos 1 =
        unfold get_loop_count in rw (playing, get_loop_count) l in
      let written : (set_loop_count s.mem chat (pos 0) s.world.chats).0 ≡ write current song s.mem =
        unfold set_loop_count in rw (playing, set_loop_count) refl in
      rw (playing, count, play_next) (rw (written) refl)

  pub added-then_next :
      (fuel : ℕ) (a : Attempt) (k : Config) (chat : ℤ) (reply : Reply) (s : Session C)
      → a.fuel ≡ fuel
      → then_next a k chat reply s
        ≡ replies reply (play_next fuel a.next k.total k.auto_play_limit chat s)
  unfolding then_next
  added-then_next fuel a k chat reply s e = rw (e) (ground arith)

  -- AddSongs of new songs, with what follows.
  pub add_multiple-queued :
      (a : Attempt) (k : Config) (chat : ℤ) (first n : ℕ) (s : Session C)
      → (data_of chat s.world.chats).queue ≡ []
      → let songs = addresses first (suc n) in
        let c = (add_songs chat songs s.world.chats).0 in
        (add_multiple a k chat false songs s
          ≡ then_next a k chat (added (suc n)) (
              in_memory
                (write first (record (s.mem first) { loop = pos 1 }) s.mem)
                (with_chats c s)))
        × ((data_of chat c).queue ≡ songs)
  unfolding add_multiple after_adding
  add_multiple-queued a k chat first n s q =
      let c = s.world.chats in
      let rest = addresses (suc first) n in
      let count = add_songs_lem chat (some first) rest c in
      let size : (add_songs chat (some first ∷ rest) c).1 ≡ suc n =
        count.0 ∙ ap (λ ps. length (ps ++ some first ∷ rest)) q ∙ length-addresses first (suc n) in
      let none_before : suc n - suc (length rest) ≡ 0 =
        omega (arith, length-addresses (suc first) n) in
      (rw (size, none_before) refl, count.1 ∙ ap (λ ps. ps ++ some first ∷ rest) q)
