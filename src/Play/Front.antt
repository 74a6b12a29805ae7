-- ===== src/Play/Front.antt =====
-- internal/bot/play.go: AddSongToFront, called for several songs, the last one first.
use tg.Base.{
  ◌⊎◌, inl, inr, List, [], ◌∷◌, ◌++◌, ◌≡◌, refl, ap, sym, ◌∙◌, ℤ, if◌then◌else◌, ◌==◌, int_eq,
  arith,
}
use mathlib.Core.List.{
  reverse, reverse-cons, reverse-append, reverse-reverse, append_assoc, append-nil,
}
use tg.Player.{no_track, Memory, Pointer, ChatCacher, data_of, add_song_to_front}
use tg.Player.Calls.{apply, spec, queue_spec, history_spec, autoplay_spec, adds_to_front}
use tg.Player.Queue.{apply-Means}
use tg.Play.Defs.{add_each_to_front}

-- One song after the other behind the first one of a queue.
abbrev put_each : List Pointer → List Pointer → List Pointer
put_each [] queue = queue
put_each (p ∷ ps) [] = put_each ps (p ∷ [])
put_each (p ∷ ps) (x ∷ xs) = put_each ps (x ∷ p ∷ xs)

-- The queue after the songs `ps` and `last`.
abbrev pub front_spec : List Pointer → Pointer → List Pointer → List Pointer
front_spec ps last [] = last ∷ ps
front_spec ps last (x ∷ xs) = x ∷ (ps ++ last ∷ []) ++ xs

List-cases : (xs : List Pointer) → (xs ≡ []) ⊎ ((y : Pointer) × (ys : List Pointer) × (xs ≡ y ∷ ys))
List-cases [] = inl refl
List-cases (y ∷ ys) = inr (y, ys, refl)

add_each_to_front-data_of :
    (mem : Memory) (chat j : ℤ) (ps : List Pointer) (c : ChatCacher)
    → data_of j (add_each_to_front chat ps c) ≡ (
        if chat == j
        then record (data_of j c) { queue = put_each ps (data_of j c).queue }
        else data_of j c)
unfolding add_each_to_front apply spec queue_spec history_spec autoplay_spec
add_each_to_front-data_of mem chat j [] c = ground arith
add_each_to_front-data_of mem chat j (p ∷ ps) c =
    let c' = (add_song_to_front chat p c).0 in
    ground (
      arith,
      add_each_to_front-data_of mem chat j ps c',
      apply-Means mem chat (adds_to_front p) c j,
    )

put_each-behind :
    (ps : List Pointer) (x : Pointer) (xs : List Pointer)
    → put_each ps (x ∷ xs) ≡ x ∷ reverse ps ++ xs
put_each-behind [] x xs = refl
put_each-behind (p ∷ ps) x xs =
    put_each-behind ps x (p ∷ xs)
    ∙ ap (◌∷◌ x) (
        sym (append_assoc (reverse ps) (p ∷ []) xs) ∙ ap (λ ys. ys ++ xs) (sym (reverse-cons p ps)))

-- Into an empty queue the last song comes first.
put_each-empty :
    (ps : List Pointer) (last : Pointer) → put_each (reverse (ps ++ last ∷ [])) [] ≡ last ∷ ps
put_each-empty ps last =
    ap (λ rs. put_each rs []) (reverse-append ps (last ∷ []))
    ∙ put_each-behind (reverse ps) last []
    ∙ ap (◌∷◌ last) (append-nil (reverse (reverse ps)) ∙ reverse-reverse ps)

put_each-playing :
    (ps : List Pointer) (x : Pointer) (xs : List Pointer)
    → put_each (reverse ps) (x ∷ xs) ≡ x ∷ ps ++ xs
put_each-playing ps x xs =
    put_each-behind (reverse ps) x xs ∙ ap (λ ys. x ∷ ys ++ xs) (reverse-reverse ps)

-- The songs come behind the first one of the queue, in order; but an empty queue begins with the
-- last of them.
pub add_each_to_front_lem :
    (chat j : ℤ) (ps : List Pointer) (last : Pointer) (c : ChatCacher)
    → data_of j (add_each_to_front chat (reverse (ps ++ last ∷ [])) c) ≡ (
        if chat == j
        then record (data_of j c) { queue = front_spec ps last (data_of j c).queue }
        else data_of j c)
add_each_to_front_lem chat j ps last c =
    let whole = ps ++ last ∷ [] in
    rw (add_each_to_front-data_of (λ a. no_track) chat j (reverse whole) c)
      (elim (List-cases (data_of j c).queue) [
        | inl e ↦ rw (e, front_spec) (ground (arith, put_each-empty ps last))
        | inr (x, xs, e) ↦ rw (e, front_spec) (ground (arith, put_each-playing whole x xs))
      ])
