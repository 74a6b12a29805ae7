-- ===== src/Player/Queue.antt =====
-- internal/cache/player_cache.go: each writing method refines its meaning on plain lists, and
-- leaves the other chats alone.
use tg.Base.{
  ℕ, ap, sym, drop, erase_at, ◌++◌, ◌≡◌, refl, ◌∙◌, List, [], ◌∷◌, Option, none, some, Bool, true,
  Text, ℤ, pos, negsuc, arith, if◌then◌else◌, ◌==◌, int_eq, int_beq_iff, lookup, lookup-insert,
  lookup-delete, ◌⊎◌, inl, inr, Bool-cases, ltb, leb, length, suc, Option-cases,
}
use tg.Player.State.{
  Memory, Pointer, VcData, ChatCacher, empty_data, data_of, put, get_or_create, or_nil,
}
use tg.Player.Slices.{
  position, put_in_front_lem, shift_to_front_lem, cut_out_lem, index_from-position,
  get_elem?-position, erase_at_beyond,
}
use tg.Player.Updates.{
  add_song, add_songs, add_song_to_front, move_track_to_front, remove_current_song, remove_track,
  put_in_front, index_from, shift_to_front, set_autoplay, add_autoplay_history,
  clear_autoplay_history, clear_chat,
}
use tg.Player.Calls.{
  Op, Call, apply, step, run, move_spec, queue_spec, spec, adds, adds_all, adds_to_front,
  moves_to_front, removes_current, removes, sets_autoplay, adds_history, clears_history, clears,
}

append_nothing : (queue : List Pointer) → queue ++ [] ≡ queue
append_nothing [] = refl
append_nothing (x ∷ xs) = ap (◌∷◌ x) (append_nothing xs)

pub data_of-put :
    (chat j : ℤ) (d : VcData) (c : ChatCacher)
    → data_of j (put chat d c) ≡ (if chat == j then d else data_of j c)
unfolding put
data_of-put chat j d c = ground (arith, lookup-insert chat j d c.chat_cache)

pub get_or_create-data_of :
    (chat j : ℤ) (c : ChatCacher)
    → ((get_or_create chat c).1 ≡ data_of chat c)
      × (data_of j (get_or_create chat c).0 ≡ data_of j c)
unfolding get_or_create
get_or_create-data_of chat j c = ground (arith, data_of-put chat j empty_data c, int_beq_iff chat j)

-- The rule for a method that creates the chat's state and writes it.
create_lem :
    (chat j : ℤ) (c : ChatCacher) (f : VcData → VcData)
    → data_of j (put chat (f (get_or_create chat c).1) (get_or_create chat c).0)
      ≡ (if chat == j then f (data_of j c) else data_of j c)
create_lem chat j c f =
    let known = get_or_create-data_of chat j c in
    rw (data_of-put chat j (f (get_or_create chat c).1) (get_or_create chat c).0, known.0, known.1)
      (ground (arith, int_beq_iff chat j))

List-cases : (xs : List Pointer) → (xs ≡ []) ⊎ ((y : Pointer) × (ys : List Pointer) × (xs ≡ y ∷ ys))
List-cases [] = inl refl
List-cases (y ∷ ys) = inr (y, ys, refl)

abbrev pub Means : Memory → ℤ → Op → ChatCacher → Type 0
Means mem chat op c =
    (j : ℤ)
    → data_of j (apply mem chat op c)
      ≡ (if chat == j then spec mem op (data_of j c) else data_of j c)

adds-Means :
    (mem : Memory) (chat : ℤ) (song : Pointer) (c : ChatCacher) → Means mem chat (adds song) c
unfolding apply spec add_song
adds-Means mem chat song c j = create_lem chat j c (spec mem (adds song))

adds_all-Means :
    (mem : Memory) (chat : ℤ) (songs : List Pointer) (c : ChatCacher)
    → Means mem chat (adds_all songs) c
unfolding apply spec add_songs
adds_all-Means mem chat [] c j = ground (arith, append_nothing (data_of j c).queue)
adds_all-Means mem chat (song ∷ songs) c j =
    create_lem chat j c (spec mem (adds_all (song ∷ songs)))

put_in_front-spec :
    (mem : Memory) (song : Pointer) (queue : List Pointer)
    → put_in_front song queue ≡ queue_spec mem (adds_to_front song) queue
unfolding put_in_front queue_spec
put_in_front-spec mem song [] = refl
put_in_front-spec mem song (x ∷ xs) = put_in_front_lem song x xs

adds_to_front-Means :
    (mem : Memory) (chat : ℤ) (song : Pointer) (c : ChatCacher)
    → Means mem chat (adds_to_front song) c
unfolding apply spec add_song_to_front
adds_to_front-Means mem chat song c j =
    rw (put_in_front-spec mem song (get_or_create chat c).1.queue)
      (create_lem chat j c (spec mem (adds_to_front song)))

sets_autoplay-Means :
    (mem : Memory) (chat : ℤ) (state : Bool) (c : ChatCacher)
    → Means mem chat (sets_autoplay state) c
unfolding apply spec set_autoplay
sets_autoplay-Means mem chat state c j = create_lem chat j c (spec mem (sets_autoplay state))

adds_history-Means :
    (mem : Memory) (chat : ℤ) (ids : List Text) (c : ChatCacher)
    → Means mem chat (adds_history ids) c
unfolding apply spec add_autoplay_history
adds_history-Means mem chat ids c j = create_lem chat j c (spec mem (adds_history ids))

clears-Means : (mem : Memory) (chat : ℤ) (c : ChatCacher) → Means mem chat clears c
unfolding apply spec clear_chat
clears-Means mem chat c j = ground (arith, lookup-delete chat j c.chat_cache)

clears_history-Means : (mem : Memory) (chat : ℤ) (c : ChatCacher) → Means mem chat clears_history c
unfolding apply spec clear_autoplay_history
clears_history-Means mem chat c j =
    ground
      (arith, int_beq_iff chat j, data_of-put chat j (spec mem clears_history (data_of chat c)) c)

-- The rules for a method that leaves the map alone, and for one that writes a state that is there.
keep-spec :
    (mem : Memory) (chat j : ℤ) (op : Op) (c : ChatCacher)
    → spec mem op (data_of chat c) ≡ data_of chat c
    → data_of j c ≡ (if chat == j then spec mem op (data_of j c) else data_of j c)
keep-spec mem chat j op c h = ground (arith, int_beq_iff chat j)

put-spec :
    (mem : Memory) (chat j : ℤ) (op : Op) (d : VcData) (c : ChatCacher)
    → d ≡ spec mem op (data_of chat c)
    → data_of j (put chat d c) ≡ (if chat == j then spec mem op (data_of j c) else data_of j c)
put-spec mem chat j op d c h = ground (arith, int_beq_iff chat j, data_of-put chat j d c)

removes_current-Means :
    (mem : Memory) (chat : ℤ) (c : ChatCacher) → Means mem chat removes_current c
unfolding apply remove_current_song
removes_current-Means mem chat c j = elim (Option-cases (lookup chat c.chat_cache)) [
  | inl e ↦ rw (e, apply) (keep-spec mem chat j removes_current c (unfold spec in ground arith))
  | inr (d, e) ↦ elim (List-cases d.queue) [
    | inl f ↦
        rw (e, apply, f) (keep-spec mem chat j removes_current c (unfold spec in ground arith))
    | inr (x, xs, f) ↦
        rw (e, apply, f) (put-spec mem chat j removes_current _ c (unfold spec in ground arith))
  ]
]

removes-Means : (mem : Memory) (chat index : ℤ) (c : ChatCacher) → Means mem chat (removes index) c
unfolding apply remove_track
removes-Means mem chat (negsuc n) c j =
    keep-spec mem chat j (removes (negsuc n)) c (unfold spec in ground arith)
removes-Means mem chat (pos i) c j = elim (Option-cases (lookup chat c.chat_cache)) [
  | inl e ↦ rw (e, apply) (keep-spec mem chat j (removes (pos i)) c (unfold spec in ground arith))
  | inr (d, e) ↦ elim (Bool-cases (leb (length d.queue) i)) [
    | inl f ↦
        rw (e, apply, f)
          (keep-spec mem chat j (removes (pos i)) c
            (unfold spec in ground (arith, erase_at_beyond i d.queue)))
    | inr f ↦
        rw (e, apply, f)
          (put-spec mem chat j (removes (pos i)) _ c
            (unfold spec in ground (arith, cut_out_lem i d.queue)))
  ]
]

move_spec-shift :
    (mem : Memory) (id : Text) (x : Pointer) (xs : List Pointer) (index : ℕ)
    → index_from mem id 1 xs ≡ some index
    → shift_to_front index (x ∷ xs) ≡ move_spec mem id (x ∷ xs)
unfolding move_spec
move_spec-shift mem id x xs index h = elim (Option-cases (position mem id xs)) [
  | inl e ↦ absurd (ground (arith, index_from-position mem id 1 xs))
  | inr (i, e) ↦
      let (track, found, _) = get_elem?-position mem id xs i e in
      let same : index ≡ suc i = ground (arith, index_from-position mem id 1 xs) in
      rw (e, move_spec)
        (rw same (
          shift_to_front_lem i x track xs found
          ∙ ap (λ (o : Option Pointer). x ∷ or_nil o ∷ erase_at i xs) (sym found)))
]

move_spec-absent :
    (mem : Memory) (id : Text) (queue : List Pointer)
    → index_from mem id 1 (drop 1 queue) ≡ none
    → move_spec mem id queue ≡ queue
unfolding move_spec
move_spec-absent mem id [] h = refl
move_spec-absent mem id (x ∷ xs) h = ground (arith, index_from-position mem id 1 xs)

move_spec-found :
    (mem : Memory) (id : Text) (queue : List Pointer) (index : ℕ)
    → index_from mem id 1 (drop 1 queue) ≡ some index
    → shift_to_front index queue ≡ move_spec mem id queue
unfolding index_from
move_spec-found mem id [] index h = cc
move_spec-found mem id (x ∷ xs) index h = move_spec-shift mem id x xs index h

index_from-short :
    (mem : Memory) (id : Text) (queue : List Pointer)
    → ltb (length queue) 2 ≡ true
    → index_from mem id 1 (drop 1 queue) ≡ none
unfolding index_from
index_from-short mem id [] h = refl
index_from-short mem id (x ∷ []) h = refl
index_from-short mem id (x ∷ y ∷ ys) h = absurd (ground arith)

moves_to_front-Means :
    (mem : Memory) (chat : ℤ) (id : Text) (c : ChatCacher) → Means mem chat (moves_to_front id) c
unfolding apply move_track_to_front
moves_to_front-Means mem chat id c j = elim (Option-cases (lookup chat c.chat_cache)) [
  | inl e ↦
      rw (e, apply)
        (keep-spec mem chat j (moves_to_front id) c (unfold spec move_spec in ground arith))
  | inr (d, e) ↦ elim (Bool-cases (ltb (length d.queue) 2)) [
    | inl f ↦
        rw (e, apply, f)
          (keep-spec mem chat j (moves_to_front id) c (
            unfold spec in
            ground (arith, move_spec-absent mem id d.queue, index_from-short mem id d.queue)))
    | inr f ↦ elim (Option-cases (index_from mem id 1 (drop 1 d.queue))) [
      | inl g ↦
          rw (e, apply, f, g)
            (keep-spec mem chat j (moves_to_front id) c
              (unfold spec in ground (arith, move_spec-absent mem id d.queue)))
      | inr (index, g) ↦
          rw (e, apply, f, g)
            (put-spec mem chat j (moves_to_front id) _ c
              (unfold spec in ground (arith, move_spec-found mem id d.queue index g)))
    ]
  ]
]

-- Every writing method does to its chat exactly what the reference says on plain lists: songs are
-- added at the end or behind the current one, a moved song keeps all others in order, a removed one
-- leaves them in order, and an index out of range or an unknown id changes nothing. No method
-- changes what is read of another chat.
pub apply-Means : (mem : Memory) (chat : ℤ) (op : Op) (c : ChatCacher) → Means mem chat op c
apply-Means mem chat (adds song) c = adds-Means mem chat song c
apply-Means mem chat (adds_all songs) c = adds_all-Means mem chat songs c
apply-Means mem chat (adds_to_front song) c = adds_to_front-Means mem chat song c
apply-Means mem chat (moves_to_front id) c = moves_to_front-Means mem chat id c
apply-Means mem chat removes_current c = removes_current-Means mem chat c
apply-Means mem chat (removes index) c = removes-Means mem chat index c
apply-Means mem chat (sets_autoplay state) c = sets_autoplay-Means mem chat state c
apply-Means mem chat (adds_history ids) c = adds_history-Means mem chat ids c
apply-Means mem chat clears_history c = clears_history-Means mem chat c
apply-Means mem chat clears c = clears-Means mem chat c

-- The reference for a history of calls: those on the chat, one after the other.
pub run_spec : ℤ → List Call → VcData → VcData
run_spec j [] d = d
run_spec j (k ∷ ks) d = run_spec j ks (if k.chat == j then spec k.mem k.op d else d)

-- After any history of calls on any chats, the state of a chat is what its own calls make of it,
-- one after the other, by the reference on plain lists.
pub run-run_spec :
    (j : ℤ) (ks : List Call) (c : ChatCacher) → data_of j (run ks c) ≡ run_spec j ks (data_of j c)
unfolding run run_spec step
run-run_spec j [] c = refl
run-run_spec j (k ∷ ks) c =
    run-run_spec j ks (step k c) ∙ ap (run_spec j ks) (apply-Means k.mem k.chat k.op c j)
