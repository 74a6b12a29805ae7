-- ===== src/Playback/Remaining.antt =====
-- internal/calls: how much a chat has left to play, by its queue, the loop counts of its tracks, and
-- the room in its autoplay history.
use tg.Base.{
  ℕ, suc, zero, ◌+◌, ◌-◌, ◌*◌, ◌≤◌, ◌<◌, ◌≡◌, refl, ◌∙◌, is_empty, ==_refl, List, [], ◌∷◌, none,
  some, Bool, true, false, Text, ℤ, pos, negsuc, is_positive, arith, length, length-append, drop,
  if◌then◌else◌, text_eq, nat_eq, int_eq, nat_beq_iff, ap, sym, subst,
}
use tg.Player.{
  PlayerCache, Memory, Pointer, VcData, ChatCacher, data_of, write, pointer_at, get_playing_track,
  get_loop_count, set_loop_count, remove_current_song, note_played,
}
use tg.Player.Calls.{Op, apply, spec, queue_spec, history_spec, removes_current}
use tg.Player.Queue.{apply-Means}
use tg.Playback.Next.{minus_one}

abbrev pub loops_left : ℤ → ℕ
loops_left (pos n) = n
loops_left (negsuc n) = 0

abbrev pub plays_of : Memory → Pointer → ℕ
plays_of mem none = 1
plays_of mem (some a) = suc (loops_left (mem a).loop)

-- How often the tracks of a queue are still played.
unfoldable pub plays_left : Memory → List Pointer → ℕ
plays_left mem [] = 0
plays_left mem (p ∷ ps) = plays_of mem p + plays_left mem ps

-- What a chat has left: an entry of the history that is still free stands for two rounds.
unfoldable pub left : ℕ → Memory → VcData → ℕ
unfolding plays_left
left limit mem d = plays_left mem d.queue + 2 * (limit - length d.autoplay_history)

-- No track has more loops than before.
abbrev pub Loops-le : Memory → Memory → Type 0
Loops-le mem' mem = (a : ℕ) → loops_left (mem' a).loop ≤ loops_left (mem a).loop

pub plays_left_mono :
    (mem' mem : Memory) (queue : List Pointer)
    → Loops-le mem' mem
    → plays_left mem' queue ≤ plays_left mem queue
unfolding plays_left
plays_left_mono mem' mem [] h = omega arith
plays_left_mono mem' mem (none ∷ ps) h = omega (arith, plays_left_mono mem' mem ps h)
plays_left_mono mem' mem (some a ∷ ps) h = omega (arith, h a, plays_left_mono mem' mem ps h)

pub left_mono :
    (limit : ℕ) (mem' mem : Memory) (d : VcData)
    → Loops-le mem' mem
    → left limit mem' d ≤ left limit mem d
unfolding left
left_mono limit mem' mem d h = omega (arith, plays_left_mono mem' mem d.queue h)

-- A write that does not raise the loop count of its track.
pub write-Loops-le :
    (mem : Memory) (a : ℕ) (track : PlayerCache)
    → loops_left track.loop ≤ loops_left (mem a).loop
    → Loops-le (write a track mem) mem
write-Loops-le mem a track h b = ground (arith, nat_beq_iff a b)

pub get_playing_track-data_of :
    (chat : ℤ) (c : ChatCacher) → get_playing_track chat c ≡ pointer_at (data_of chat c).queue 0
unfolding get_playing_track
get_playing_track-data_of chat c = ground arith

plays_left-write :
    (mem : Memory) (queue : List Pointer) (a : ℕ) (track : PlayerCache)
    → pointer_at queue 0 ≡ some a
    → loops_left track.loop < loops_left (mem a).loop
    → plays_left (write a track mem) queue < plays_left mem queue
unfolding plays_left
plays_left-write mem [] a track e h = cc
plays_left-write mem (none ∷ ps) a track e h = cc
plays_left-write mem (some b ∷ ps) a track e h = ground (
  arith,
  nat_beq_iff a b,
  plays_left_mono (write a track mem) mem ps (write-Loops-le mem a track (omega arith)),
)

minus_one-lt : (n : ℤ) → is_positive n ≡ true → loops_left (minus_one n) < loops_left n
minus_one-lt (pos zero) h = ground arith
minus_one-lt (pos (suc n)) h = ground arith
minus_one-lt (negsuc n) h = cc

-- One loop less of the playing track.
pub left-loop :
    (limit : ℕ) (mem : Memory) (chat : ℤ) (c : ChatCacher) (a : ℕ)
    → get_playing_track chat c ≡ some a
    → is_positive (get_loop_count mem chat c) ≡ true
    → let loop = minus_one (get_loop_count mem chat c) in
      left limit (set_loop_count mem chat loop c).0 (data_of chat c)
      < left limit mem (data_of chat c)
unfolding left
left-loop limit mem chat c a e h =
    let loop = minus_one (get_loop_count mem chat c) in
    let counted : get_loop_count mem chat c ≡ (mem a).loop =
      unfold get_loop_count in ground arith in
    let written : (set_loop_count mem chat loop c).0
        ≡ write a (record (mem a) { loop = loop }) mem =
      unfold set_loop_count in ground arith in
    rw (written) (
      omega (
        arith,
        plays_left-write mem (data_of chat c).queue a (record (mem a) { loop = loop })
            (sym (get_playing_track-data_of chat c) ∙ e)
            (rw counted (minus_one-lt (mem a).loop (ap is_positive (sym counted) ∙ h))),
      ))

length-note_played :
    (mem : Memory) (p : Pointer) (history : List Text)
    → length history ≤ length (note_played mem p history)
unfolding note_played
length-note_played mem none history = omega arith
length-note_played mem (some a) history =
    ground (arith, length-append history ((mem a).track_id ∷ []))

abbrev one_unless : Bool → ℕ
one_unless true = 0
one_unless false = 1

plays_of-pos : (mem : Memory) (p : Pointer) → 1 ≤ plays_of mem p
plays_of-pos mem none = omega arith
plays_of-pos mem (some a) = omega arith

plays_left-drop :
    (limit : ℕ) (mem : Memory) (queue : List Pointer) (history : List Text)
    → plays_left mem (drop 1 queue)
        + 2 * (limit - length (history_spec mem removes_current queue history))
        + one_unless (is_empty queue)
      ≤ plays_left mem queue + 2 * (limit - length history)
unfolding plays_left history_spec
plays_left-drop limit mem [] history = omega arith
plays_left-drop limit mem (p ∷ ps) history =
    omega (arith, length-note_played mem p history, plays_of-pos mem p)

-- Once the current song is gone, less is left, unless nothing was there.
left-drop :
    (limit : ℕ) (mem : Memory) (d : VcData)
    → left limit mem (spec mem removes_current d) + one_unless (is_empty d.queue) ≤ left limit mem d
unfolding left spec queue_spec
left-drop limit mem d = plays_left-drop limit mem d.queue d.autoplay_history

head-drop :
    (queue : List Pointer) (a : ℕ) → pointer_at (drop 1 queue) 0 ≡ some a → is_empty queue ≡ false
head-drop [] a h = cc
head-drop (p ∷ ps) a h = refl

-- What a method makes of the state of its own chat.
pub own :
    (mem : Memory) (chat : ℤ) (op : Op) (c : ChatCacher)
    → data_of chat (apply mem chat op c) ≡ spec mem op (data_of chat c)
own mem chat op c =
    subst
      (λ (b : Bool).
        data_of chat (apply mem chat op c)
        ≡ (if b then spec mem op (data_of chat c) else data_of chat c))
      (==_refl chat) (apply-Means mem chat op c chat)

-- After RemoveCurrentSong less is left where another song follows, and never more.
pub left-remove :
    (limit : ℕ) (mem : Memory) (chat : ℤ) (c : ChatCacher)
    → let c' = (remove_current_song mem chat c).0 in
      (left limit mem (data_of chat c') ≤ left limit mem (data_of chat c))
      × ((a : ℕ)
          → get_playing_track chat c' ≡ some a
          → left limit mem (data_of chat c') < left limit mem (data_of chat c))
left-remove limit mem chat c =
    let c' = (remove_current_song mem chat c).0 in
    let d = data_of chat c in
    let after : data_of chat c' ≡ spec mem removes_current d =
      unfold apply in own mem chat removes_current c in
    (
      rw after (omega (arith, left-drop limit mem d)),
      λ a e.
          let head : pointer_at (drop 1 d.queue) 0 ≡ some a =
            unfold spec queue_spec in
            ap (λ (x : VcData). pointer_at x.queue 0) (sym after)
            ∙ sym (get_playing_track-data_of chat c')
            ∙ e in
          let full = head-drop d.queue a head in rw after (ground (arith, left-drop limit mem d)),
    )
