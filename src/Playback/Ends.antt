-- ===== src/Playback/Ends.antt =====
-- internal/calls: PlayNext ends, although a failed download calls it again and autoplay goes on adding
-- songs.
use tg.Base.{
  ℕ, suc, zero, ◌+◌, ◌≤◌, ◌<◌, ◌≡◌, refl, subst, List, [], ◌∷◌, Option, none, some, not, ◌&&◌, Text,
  ℤ, is_positive, arith, length, is_blank, All, leb, nat_eq, int_eq, get_elem?, Option-cases,
  Bool-cases, inl, inr, ◌⊎◌,
}
use tg.Player.{
  PlayerCache, ChatCacher, data_of, write, get_playing_track, get_loop_count, set_loop_count,
  remove_current_song, get_last_autoplay_track_id, get_autoplay, get_autoplay_history,
  add_autoplay_history, clear_autoplay_history, add_song,
}
use tg.Db.Collection.{Collection}
use tg.Playback.Defs.{World, play_media}
use tg.Playback.Account.{DrawsBelow, play_media-EndsWithin}
use tg.Playback.Rotation.{EndsWithin}
use tg.Playback.Next.{
  GetUrlTrack, Outside, Session, Ending, minus_one, candidates, or_first, save_cache, proposals,
  with_chats, stop, handle_no_song, prepare_track_download, started, play_track, play_proposed,
  handle_autoplay, advance, play_next,
}
use tg.Playback.Remaining.{write-Loops-le, left, left_mono, left-loop, left-remove}
use tg.Playback.Proposed.{left-proposed, HasId, IsFresh, chosen-IsFresh}

-- What is assumed of the outside: random numbers are below their bound, and YouTube's tracks have ids.
abbrev pub IsSound : Outside → ℕ → Type 0
IsSound o total =
    ((n : ℕ) → DrawsBelow total (o.play n).draw)
    × ((n : ℕ) (last : Text) → All HasId (proposals (o.mix n last)))

List-cases :
    (ts : List GetUrlTrack)
    → (ts ≡ []) ⊎ ((u : GetUrlTrack) × (us : List GetUrlTrack) × (ts ≡ u ∷ us))
List-cases [] = inl refl
List-cases (u ∷ us) = inr (u, us, refl)

get_autoplay_history-data_of :
    (chat : ℤ) (c : ChatCacher) → get_autoplay_history chat c ≡ (data_of chat c).autoplay_history
unfolding get_autoplay_history
get_autoplay_history-data_of chat c = ground arith

module _ {C : Collection ℤ ℤ} where
  -- It ends, after so many rounds at most.
  abbrev pub EndsBy : ℕ → Ending C → Type 0
  EndsBy n none = ⊥
  EndsBy n (some (s, failed)) = s.round ≤ n

  EndsBy-mono : (m n : ℕ) (r : Ending C) → m ≤ n → EndsBy m r → EndsBy n r
  EndsBy-mono m n none h k = k
  EndsBy-mono m n (some (s, failed)) h k = omega arith

  -- What the session has left to play in a chat.
  abbrev pub remaining : ℕ → ℤ → Session C → ℕ
  remaining limit chat s = left limit s.mem (data_of chat s.world.chats)

  started-EndsBy :
      (o : Outside) (a bound : ℕ) (s : Session C) (r : Option (World C × Option Text)) (n : ℕ)
      → s.round ≤ bound
      → EndsWithin n r
      → EndsBy bound (started o a s r)
  unfolding started
  started-EndsBy o a bound s none n h k = k
  started-EndsBy o a bound s (some (w, some e)) n h k = h
  started-EndsBy o a bound s (some (w, none)) n h k = ground arith

  prepare-remaining :
      (o : Outside) (limit a : ℕ) (chat : ℤ) (s : Session C)
      → (remaining limit chat (prepare_track_download o a s).0 ≤ remaining limit chat s)
        × ((prepare_track_download o a s).0.round ≡ s.round)
  unfolding prepare_track_download
  prepare-remaining o limit a chat s =
      let song = s.mem a in
      let (path, failed) = o.download s.round song in
      let track : PlayerCache = record song { file_path = path } in
      let fewer = write-Loops-le s.mem a track (omega arith) in
      (
        ground
            (arith, left_mono limit (write a track s.mem) s.mem (data_of chat s.world.chats) fewer),
        ground arith,
      )

  handle_no_song-round :
      (o : Outside) (total : ℕ) (chat : ℤ) (s : Session C)
      → (handle_no_song o total chat s).0.round ≡ s.round
  unfolding handle_no_song stop
  handle_no_song-round o total chat s = ground arith

  module _ (o : Outside) (total limit : ℕ) (chat : ℤ) (sound : IsSound o total) (bound : ℕ) where
    -- The rest of PlayNext ends in time from a session in the next round that has less than so much left.
    abbrev GoesOn : ℕ → ℕ → (Session C → Ending C) → Type 0
    GoesOn m n go_on =
        (s : Session C) → s.round ≡ suc n → remaining limit chat s < m → EndsBy bound (go_on s)

    play_track-EndsBy :
        (m a : ℕ) (go_on : Session C → Ending C) (s : Session C)
        → suc s.round ≤ bound
        → remaining limit chat s < m
        → GoesOn m s.round go_on
        → EndsBy bound (play_track o total chat go_on a s)
    unfolding play_track
    play_track-EndsBy m a go_on s h lt g =
        let s' = (prepare_track_download o a s).0 in
        let next : Session C = record s' { round = suc s.round } in
        let kept = prepare-remaining o limit a chat s in
        elim (Option-cases (o.message s.round)) [
          | inr (e, f) ↦ rw (f, play_track) h
          | inl f ↦ elim (Option-cases (prepare_track_download o a s).1) [
            | inr (e, p) ↦ rw (f, play_track, p) (g next refl (omega (arith, kept.0)))
            | inl p ↦
                rw (f, play_track, p)
                  (started-EndsBy o a bound next
                    (play_media (o.play s.round) total chat [] next.world) _ h
                    (play_media-EndsWithin (o.play s.round) total chat [] next.world
                      (sound.0 s.round)))
          ]
        ]

    no_song-EndsBy :
        (s : Session C) → s.round ≤ bound → EndsBy bound (some (handle_no_song o total chat s))
    no_song-EndsBy s h = omega (arith, handle_no_song-round o total chat s)

    -- The session once handleAutoplay has put its song into the queue.
    abbrev proposed : Text → GetUrlTrack → Session C → Session C
    proposed last t s =
        let mem' = write s.fresh (save_cache t) s.mem in
        let c = add_autoplay_history chat (last ∷ t.id ∷ []) s.world.chats in
        record (with_chats (add_song mem' chat (some s.fresh) c).0 s) {
          mem = mem';
          fresh = suc s.fresh;
        }

    propose-EndsBy :
        (m : ℕ) (go_on : Session C → Ending C) (last : Text) (t : GetUrlTrack) (s : Session C)
        → suc s.round ≤ bound
        → remaining limit chat s ≤ m
        → length (data_of chat s.world.chats).autoplay_history < limit
        → IsFresh last (data_of chat s.world.chats).autoplay_history t
        → GoesOn m s.round go_on
        → EndsBy bound (play_proposed o total chat go_on last t s)
    unfolding play_proposed
    propose-EndsBy m go_on last t s h le room fresh g =
        play_track-EndsBy m s.fresh go_on (proposed last t s) h
          (omega (arith, left-proposed limit s.mem chat s.fresh last t s.world.chats room fresh)) g

    handle_autoplay-EndsBy :
        (m : ℕ) (go_on : Session C → Ending C) (last : Text) (s : Session C)
        → suc s.round ≤ bound
        → remaining limit chat s ≤ m
        → GoesOn m s.round go_on
        → EndsBy bound (handle_autoplay o total limit chat go_on last s)
    unfolding handle_autoplay
    handle_autoplay-EndsBy m go_on last s h le g =
        let c = s.world.chats in
        let history = get_autoplay_history chat c in
        let known = get_autoplay_history-data_of chat c in
        let tracks = proposals (o.mix s.round last) in
        elim (Bool-cases (leb limit (length history))) [
          | inl f ↦
              rw (f, handle_autoplay)
                (no_song-EndsBy (with_chats (clear_autoplay_history chat c) s) (omega arith))
          | inr f ↦ elim (List-cases (candidates last history tracks)) [
            | inl p ↦ rw (f, handle_autoplay, p) (no_song-EndsBy s (omega arith))
            | inr (t, ts, p) ↦
                let i = o.pick s.round (length (t ∷ ts)) in
                let room : length history < limit = ground arith in
                rw (f, handle_autoplay, p)
                  (propose-EndsBy m go_on last (or_first t (get_elem? (t ∷ ts) i)) s h le
                    (subst (λ (x : List Text). length x < limit) known room)
                    (subst (λ (x : List Text). IsFresh last x (or_first t (get_elem? (t ∷ ts) i)))
                      known (chosen-IsFresh last history tracks i t ts (sound.1 s.round last) p))
                    g)
          ]
        ]

    advance-EndsBy :
        (m : ℕ) (go_on : Session C → Ending C) (s : Session C)
        → suc s.round ≤ bound
        → remaining limit chat s ≤ m
        → GoesOn m s.round go_on
        → EndsBy bound (advance o total limit chat go_on s)
    unfolding advance
    advance-EndsBy m go_on s h le g =
        let c = (remove_current_song s.mem chat s.world.chats).0 in
        let fewer = left-remove limit s.mem chat s.world.chats in
        let s' = with_chats c s in
        let last = get_last_autoplay_track_id chat c in
        elim (Option-cases (get_playing_track chat c)) [
          | inr (a, e) ↦
              rw (e, advance) (play_track-EndsBy m a go_on s' h (omega (arith, fewer.1 a e)) g)
          | inl e ↦ elim (Bool-cases (not (is_blank last) && get_autoplay chat c)) [
            | inl f ↦
                rw (e, advance, f)
                  (handle_autoplay-EndsBy m go_on last s' h (omega (arith, fewer.0)) g)
            | inr f ↦ rw (e, advance, f) (no_song-EndsBy s' (omega arith))
          ]
        ]

  -- PlayNext ends, whatever Telegram, YouTube and the downloads do, although a failed download
  -- calls it again and autoplay goes on adding songs: with as much fuel as the chat has left to
  -- play (its songs with their loops, and twice the free room in its autoplay history) it
  -- returns, after one more round at most; where random numbers are below their bound and the
  -- tracks of YouTube have ids.
  pub play_next-EndsBy :
      (fuel : ℕ) (o : Outside) (total limit : ℕ) (chat : ℤ) (s : Session C)
      → IsSound o total
      → remaining limit chat s < fuel
      → EndsBy (s.round + remaining limit chat s + 1) (play_next fuel o total limit chat s)
  unfolding play_next
  play_next-EndsBy zero o total limit chat s sound h = absurd (omega arith)
  play_next-EndsBy (suc fuel) o total limit chat s sound h =
      let m = remaining limit chat s in
      let c = s.world.chats in
      let loop = get_loop_count s.mem chat c in
      let bound = s.round + m + 1 in
      let go_on : Session C → Ending C = λ s'. play_next fuel o total limit chat s' in
      let again : GoesOn o total limit chat sound bound m s.round go_on = λ s' e lt.
        EndsBy-mono (s'.round + remaining limit chat s' + 1) bound (go_on s') (omega arith)
          (play_next-EndsBy fuel o total limit chat s' sound (omega arith)) in
      let over =
        advance-EndsBy o total limit chat sound bound m go_on s (omega arith) (omega arith) again in
      elim (Bool-cases (is_positive loop)) [
        | inr f ↦ rw (play_next, f) over
        | inl f ↦ elim (Option-cases (get_playing_track chat c)) [
          | inl e ↦ absurd (unfold get_loop_count in ground arith)
          | inr (a, e) ↦
              let s' : Session C = record s {
                mem = (set_loop_count s.mem chat (minus_one loop) c).0;
              } in
              rw (play_next, f, e)
                (play_track-EndsBy o total limit chat sound bound m a go_on s' (omega arith)
                  (left-loop limit s.mem chat c a e f) again)
        ]
      ]
