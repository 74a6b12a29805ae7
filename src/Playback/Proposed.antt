-- ===== src/Playback/Proposed.antt =====
-- internal/calls/autoplay.go: what is left to play after autoplay has added a song.
use tg.Base.{
  ℕ, suc, zero, ◌+◌, ◌<◌, ◌≡◌, ◌∙◌, ==_refl, List, [], ◌∷◌, ◌++◌, some, false, Text, ℤ, arith,
  length, length-append, is_blank, contains, contains-append, All, get_elem?, ◌==◌, text_eq, nat_eq,
  int_eq, ap, subst, text_beq_iff,
}
use tg.Player.{
  Memory, Pointer, VcData, ChatCacher, data_of, write, add_autoplay_history, add_song, add_ids,
}
use tg.Player.Calls.{apply, spec, queue_spec, history_spec, adds, adds_history}
use tg.Playback.Next.{GetUrlTrack, candidates, or_first, save_cache}
use tg.Playback.Remaining.{plays_of, plays_left, left, plays_left_mono, write-Loops-le, own}

plays_left-snoc :
    (mem : Memory) (queue : List Pointer) (p : Pointer)
    → plays_left mem (queue ++ p ∷ []) ≡ plays_left mem queue + plays_of mem p
unfolding plays_left
plays_left-snoc mem [] p = omega arith
plays_left-snoc mem (q ∷ queue) p = omega (arith, plays_left-snoc mem queue p)

-- A proposal that handleAutoplay keeps, with an id.
abbrev pub IsFresh : Text → List Text → GetUrlTrack → Type 0
IsFresh last history t =
    (is_blank t.id ≡ false) × ((t.id == last) ≡ false) × (contains history t.id ≡ false)

abbrev pub HasId : GetUrlTrack → Type 0
HasId t = is_blank t.id ≡ false

candidates-IsFresh :
    (last : Text) (history : List Text) (ts : List GetUrlTrack)
    → All HasId ts
    → All (IsFresh last history) (candidates last history ts)
unfolding candidates
candidates-IsFresh last history [] h = tt
candidates-IsFresh last history (t ∷ ts) h = ground (arith, candidates-IsFresh last history ts h.1)

get_elem?-All :
    (last : Text) (history : List Text) (ts : List GetUrlTrack) (i : ℕ) (d : GetUrlTrack)
    → IsFresh last history d
    → All (IsFresh last history) ts
    → IsFresh last history (or_first d (get_elem? ts i))
get_elem?-All last history [] i d h k = h
get_elem?-All last history (t ∷ ts) zero d h k = k.0
get_elem?-All last history (t ∷ ts) (suc i) d h k = get_elem?-All last history ts i d h k.1

-- Whatever the shuffle puts first is fresh.
pub chosen-IsFresh :
    (last : Text) (history : List Text) (proposed : List GetUrlTrack) (i : ℕ) (t : GetUrlTrack)
    (ts : List GetUrlTrack)
    → All HasId proposed
    → candidates last history proposed ≡ t ∷ ts
    → IsFresh last history (or_first t (get_elem? (t ∷ ts) i))
chosen-IsFresh last history proposed i t ts h e =
    let k : All (IsFresh last history) (t ∷ ts) =
      subst (All (IsFresh last history)) e (candidates-IsFresh last history proposed h) in
    get_elem?-All last history (t ∷ ts) i t k.0 k

length-add_ids :
    (last : Text) (history : List Text) (t : GetUrlTrack)
    → IsFresh last history t
    → length history < length (add_ids (last ∷ t.id ∷ []) history)
unfolding add_ids
length-add_ids last history t h = ground (
  arith,
  text_beq_iff last t.id,
  text_beq_iff t.id last,
  length-append history (last ∷ []),
  length-append history (t.id ∷ []),
  length-append (history ++ last ∷ []) (t.id ∷ []),
  contains-append history (last ∷ []) t.id,
)

abbrev proposed_data : Memory → ℕ → Text → GetUrlTrack → VcData → VcData
proposed_data mem fresh last t d =
    spec mem (adds (some fresh)) (spec mem (adds_history (last ∷ t.id ∷ [])) d)

left-proposed_data :
    (limit : ℕ) (mem : Memory) (fresh : ℕ) (last : Text) (t : GetUrlTrack) (d : VcData)
    → length d.autoplay_history < limit
    → IsFresh last d.autoplay_history t
    → let mem' = write fresh (save_cache t) mem in
      left limit mem' (proposed_data mem' fresh last t d) < left limit mem d
unfolding left spec queue_spec history_spec
left-proposed_data limit mem fresh last t d h f =
    let mem' = write fresh (save_cache t) mem in
    ground (
      arith,
      ==_refl fresh,
      plays_left-snoc mem' d.queue (some fresh),
      plays_left_mono mem' mem d.queue (write-Loops-le mem fresh (save_cache t) (omega arith)),
      length-add_ids last d.autoplay_history t f,
    )

data_of-proposed :
    (mem : Memory) (chat : ℤ) (fresh : ℕ) (last : Text) (t : GetUrlTrack) (c : ChatCacher)
    → data_of chat
        (add_song mem chat (some fresh) (add_autoplay_history chat (last ∷ t.id ∷ []) c)).0
      ≡ proposed_data mem fresh last t (data_of chat c)
unfolding apply
data_of-proposed mem chat fresh last t c =
    let c' = add_autoplay_history chat (last ∷ t.id ∷ []) c in
    own mem chat (adds (some fresh)) c'
    ∙ ap (spec mem (adds (some fresh))) (own mem chat (adds_history (last ∷ t.id ∷ [])) c)

-- The song that autoplay adds takes more room from the history than it adds to the queue.
pub left-proposed :
    (limit : ℕ) (mem : Memory) (chat : ℤ) (fresh : ℕ) (last : Text) (t : GetUrlTrack)
    (c : ChatCacher)
    → length (data_of chat c).autoplay_history < limit
    → IsFresh last (data_of chat c).autoplay_history t
    → let mem' = write fresh (save_cache t) mem in
      let c' = add_autoplay_history chat (last ∷ t.id ∷ []) c in
      left limit mem' (data_of chat (add_song mem' chat (some fresh) c').0)
      < left limit mem (data_of chat c)
left-proposed limit mem chat fresh last t c h f =
    rw (data_of-proposed (write fresh (save_cache t) mem) chat fresh last t c)
      (left-proposed_data limit mem fresh last t (data_of chat c) h f)
