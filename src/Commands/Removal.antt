-- ===== src/Commands/Removal.antt =====
-- internal/bot/remove.go: which songs are left.
use tg.Base.{
  ℕ, zero, suc, ◌+◌, ◌<◌, ◌≡◌, refl, sym, ap, ◌∙◌, List, [], ◌∷◌, true, not, ◌&&◌, ◌==◌, Text, ℤ,
  pos, nat_eq, int_eq, ltb, if◌then◌else◌, contains, int_beq_iff, inl, inr, is_blank, is_empty,
  length, erase_at, arith, Bool-cases,
}
use tg.Player.{no_track, PlayerCache, ChatCacher, Pointer, remove_track, is_active, get_queue}
use tg.Commands.Numbers.{split, trim_space, trim_left, atoi}
use tg.Commands.Remove.{
  tracks_to_remove, tracks_of_part, unique_tracks, sorted_tracks, remove_tracks, remove_handler,
}
use tg.Commands.Selection.{
  IsBelow, IsDescending, IsBelow-contains, IsBelow-mono, contains-sort_descending,
  sort_descending-IsDescending, contains-unique_tracks, unique_tracks-Distinct,
}
use tg.Player.{data_of}
use tg.Player.Calls.{apply, removes, spec, queue_spec, history_spec, autoplay_spec}
use tg.Player.Queue.{apply-Means}

-- A list without the entries whose number is listed, where the first entry has a given number.
module _ {A : Type 0} where
  unfoldable pub without : ℕ → List ℕ → List A → List A
  without n ts [] = []
  without n ts (x ∷ xs) =
      let rest = without (suc n) ts xs in if contains ts n then rest else x ∷ rest

  pub erase_all : List ℕ → List A → List A
  erase_all [] xs = xs
  erase_all (t ∷ ts) xs = erase_all ts (erase_at t xs)

module _ {A : Type 0} where
  without-IsBelow : (n : ℕ) (ts : List ℕ) (xs : List A) → IsBelow n ts → without n ts xs ≡ xs
  unfolding without
  without-IsBelow n ts [] h = refl
  without-IsBelow n ts (x ∷ xs) h = ground (
    arith,
    IsBelow-contains n ts h,
    without-IsBelow (suc n) ts xs (IsBelow-mono n (suc n) ts (omega arith) h),
  )

  without-erase_at :
      (n i t : ℕ) (ts : List ℕ) (xs : List A)
      → t ≡ n + i
      → IsBelow t ts
      → without n ts (erase_at i xs) ≡ without n (t ∷ ts) xs
  unfolding without
  without-erase_at n i t ts [] e h = refl
  without-erase_at n zero t ts (x ∷ xs) e h = ground (
    arith,
    without-IsBelow n ts xs (IsBelow-mono t n ts (omega arith) h),
    without-IsBelow (suc n) (t ∷ ts) xs (omega arith, IsBelow-mono t (suc n) ts (omega arith) h),
  )
  without-erase_at n (suc i) t ts (x ∷ xs) e h =
      ground (arith, without-erase_at (suc n) i t ts xs (omega arith) h)

  erase_all-without :
      (ts : List ℕ) (xs : List A) → IsDescending ts → erase_all ts xs ≡ without 0 ts xs
  unfolding erase_all
  erase_all-without [] xs h = sym (without-IsBelow 0 [] xs tt)
  erase_all-without (t ∷ ts) xs h =
      erase_all-without ts (erase_at t xs) h.1 ∙ without-erase_at 0 t t ts xs (omega arith) h.0

-- What the command means: a list without the entries behind the first whose number is named.
unfoldable pub without_named : {A : Type 0} → ℕ → List ℤ → List A → List A
without_named n named [] = []
without_named n named (x ∷ xs) =
    let rest = without_named (suc n) named xs in
    if ltb 0 n && contains named (pos n) then rest else x ∷ rest

without-named :
    {A : Type 0} (n : ℕ) (ts : List ℕ) (named : List ℤ) (xs : List A)
    → ((t : ℕ) → t < n + length xs → contains ts t ≡ (ltb 0 t && contains named (pos t)))
    → without n ts xs ≡ without_named n named xs
unfolding without without_named
without-named n ts named [] h = refl
without-named n ts named (x ∷ xs) h =
    ground (arith, h n (omega arith), without-named (suc n) ts named xs (λ t k. h t (omega arith)))

-- One call after the other erases one entry after the other.
remove_tracks-data_of :
    (mem : ℕ → PlayerCache) (chat j : ℤ) (ts : List ℕ) (c : ChatCacher)
    → data_of j (remove_tracks chat ts c) ≡ (
        if chat == j
        then record (data_of j c) { queue = erase_all ts (data_of j c).queue }
        else data_of j c)
unfolding remove_tracks apply spec queue_spec history_spec autoplay_spec erase_all
remove_tracks-data_of mem chat j [] c = ground arith
remove_tracks-data_of mem chat j (t ∷ ts) c =
    let rest = remove_tracks-data_of mem chat j ts (remove_track chat (pos t) c).0 in
    ground (arith, rest, apply-Means mem chat (removes (pos t)) c j)

sorted_tracks-named :
    (size : ℕ) (args : Text) (t : ℕ)
    → t < size
    → contains (sorted_tracks size args) t
      ≡ (ltb 0 t && contains (tracks_to_remove size (split b',' args)) (pos t))
unfolding sorted_tracks
sorted_tracks-named size args t h =
    let named = tracks_to_remove size (split b',' args) in
    ground (
      arith,
      contains-sort_descending (unique_tracks size [] named) t,
      contains-unique_tracks size [] named t,
    )

erase_all-sorted_tracks :
    {A : Type 0} (args : Text) (queue : List A)
    → erase_all (sorted_tracks (length queue) args) queue
      ≡ without_named 0 (tracks_to_remove (length queue) (split b',' args)) queue
erase_all-sorted_tracks args queue =
    let size = length queue in
    let named = tracks_to_remove size (split b',' args) in
    let distinct = unique_tracks-Distinct size [] named in
    let descending : IsDescending (sorted_tracks size args) =
      unfold sorted_tracks in sort_descending-IsDescending (unique_tracks size [] named) distinct in
    erase_all-without (sorted_tracks size args) queue descending
    ∙ without-named 0 (sorted_tracks size args) named queue
        (λ t h. sorted_tracks-named size args t (omega arith))

without_named-nothing : {A : Type 0} (n : ℕ) (xs : List A) → without_named n [] xs ≡ xs
unfolding without_named
without_named-nothing n [] = refl
without_named-nothing n (x ∷ xs) = ground (arith, without_named-nothing (suc n) xs)

-- The handler once its guards let it through, which the others come to as well.
goes_through_lem :
    (chat j : ℤ) (args : Text) (c : ChatCacher)
    → let queue = (data_of chat c).queue in
      let named = tracks_to_remove (length queue) (split b',' args) in
      data_of j (remove_tracks chat (sorted_tracks (length queue) args) c) ≡ (
        if chat == j
        then record (data_of j c) { queue = without_named 0 named queue }
        else data_of j c)
goes_through_lem chat j args c =
    let queue = (data_of chat c).queue in
    let tracks = sorted_tracks (length queue) args in
    ground (
      arith,
      remove_tracks-data_of (λ a. no_track) chat j tracks c,
      erase_all-sorted_tracks args queue,
      int_beq_iff chat j,
    )

get_queue-data_of : (chat : ℤ) (c : ChatCacher) → get_queue chat c ≡ (data_of chat c).queue
unfolding get_queue
get_queue-data_of chat c = ground arith

is_active-data_of :
    (chat : ℤ) (c : ChatCacher) → is_active chat c ≡ not (is_empty (data_of chat c).queue)
unfolding is_active
is_active-data_of chat c = ground arith

-- Where the handler stops early, nothing was to be removed.
without_named-is_empty :
    {A : Type 0} (named : List ℤ) (xs : List A) → is_empty xs ≡ true → without_named 0 named xs ≡ xs
unfolding without_named
without_named-is_empty named [] h = refl
without_named-is_empty named (x ∷ xs) h = absurd cc

tracks_to_remove-is_blank :
    (size : ℕ) (args : Text) → is_blank args ≡ true → tracks_to_remove size (split b',' args) ≡ []
unfolding tracks_to_remove tracks_of_part split trim_space trim_left atoi
tracks_to_remove-is_blank size [] h = refl
tracks_to_remove-is_blank size (a ∷ args) h = absurd cc

without_named-no_number :
    {A : Type 0} (named : List ℤ) (xs : List A)
    → is_empty named ≡ true
    → without_named 0 named xs ≡ xs
without_named-no_number [] xs h = without_named-nothing 0 xs
without_named-no_number (t ∷ named) xs h = absurd cc

unchanged_lem :
    (chat j : ℤ) (queue : List Pointer) (c : ChatCacher)
    → queue ≡ (data_of chat c).queue
    → data_of j c ≡ (if chat == j then record (data_of j c) { queue = queue } else data_of j c)
unchanged_lem chat j queue c h = ground (arith, int_beq_iff chat j)

-- Once adminMode lets /remove through, the queue of this chat is without the songs behind the first
-- whose number is among those that the handler has collected; nothing else changes.
pub remove_handler-without_named :
    (chat j : ℤ) (args : Text) (c : ChatCacher)
    → let queue = (data_of chat c).queue in
      let named = tracks_to_remove (length queue) (split b',' args) in
      data_of j (remove_handler true chat args c).0 ≡ (
        if chat == j
        then record (data_of j c) { queue = without_named 0 named queue }
        else data_of j c)
unfolding remove_handler
remove_handler-without_named chat j args c =
    let queue : List Pointer = (data_of chat c).queue in
    let named : List ℤ = tracks_to_remove (length queue) (split b',' args) in
    let stays = unchanged_lem chat j (without_named 0 named queue) c in
    rw (get_queue-data_of chat c, is_active-data_of chat c, remove_handler)
      (elim (Bool-cases (is_empty queue)) [
        | inl e ↦ rw (e) (stays (without_named-is_empty named queue e))
        | inr e ↦ elim (Bool-cases (is_blank args)) [
          | inl b ↦
              let none_named = tracks_to_remove-is_blank (length queue) args b in
              rw (e, b)
                (stays
                  (ap (λ ts. without_named 0 ts queue) none_named ∙ without_named-nothing 0 queue))
          | inr b ↦ elim (Bool-cases (is_empty named)) [
            | inl n ↦ rw (e, b, n) (stays (without_named-no_number named queue n))
            | inr n ↦ rw (e, b, n) (goes_through_lem chat j args c)
          ]
        ]
      ])
