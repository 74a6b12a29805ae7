-- ===== src/Playback/Rotation.antt =====
-- internal/calls/playback.go: the rotation ends, and how many attempts it makes.
use tg.Base.{
  ℕ, zero, suc, ◌+◌, ◌*◌, ◌≤◌, ◌<◌, ◌≡◌, refl, inl, inr, List, ◌∷◌, Option, none, some, false, Text,
  arith, if◌then◌else◌, contains, ℤ, nat_eq, int_eq, nat_beq, nat_beq_iff, Option-cases, Bool-cases,
}
use tg.Db.Collection.{Collection}
use tg.Playback.Defs.{
  Env, World, attempts, play_media_with_assistant, save_assistant, evict_assistant, untried_from,
  next_untried, settle, rotate_and_play,
}

-- How many of the indices below `total` have not been seen.
unfoldable pub unseen : ℕ → List ℕ → ℕ
unseen zero seen = 0
unseen (suc n) seen = (if contains seen n then 0 else 1) + unseen n seen

pub unseen-le : (n : ℕ) (seen : List ℕ) → unseen n seen ≤ n
unfolding unseen
unseen-le zero seen = omega arith
unseen-le (suc n) seen = ground (arith, unseen-le n seen)

unseen-beyond : (n i : ℕ) (seen : List ℕ) → n ≤ i → unseen n (i ∷ seen) ≡ unseen n seen
unfolding unseen
unseen-beyond zero i seen h = refl
unseen-beyond (suc n) i seen h = ground (arith, unseen-beyond n i seen)

-- Seeing one more makes one less.
pub unseen-cons :
    (n i : ℕ) (seen : List ℕ)
    → i < n
    → contains seen i ≡ false
    → unseen n (i ∷ seen) + 1 ≡ unseen n seen
unfolding unseen
unseen-cons zero i seen h f = absurd (omega arith)
unseen-cons (suc n) i seen h f = elim (Bool-cases (nat_beq i n)) [
  | inl e ↦ let same : i ≡ n = (nat_beq_iff i n).0 e in ground (arith, unseen-beyond n i seen)
  | inr e ↦ ground (arith, unseen-cons n i seen, nat_beq_iff i n)
]

untried_from-some :
    (i left : ℕ) (seen : List ℕ) (j : ℕ)
    → untried_from i left seen ≡ some j
    → (j < i + left) × (contains seen j ≡ false)
unfolding untried_from
untried_from-some i zero seen j h = cc
untried_from-some i (suc left) seen j h = ground (arith, untried_from-some (suc i) left seen j)

-- nextUntried picks an account that is there and was not tried.
pub next_untried-some :
    (total : ℕ) (seen : List ℕ) (j : ℕ)
    → next_untried total seen ≡ some j
    → (j < total) × (contains seen j ≡ false)
unfolding next_untried
next_untried-some total seen j h = ground (arith, untried_from-some 0 total seen j h)

module _ {C : Collection ℤ ℤ} where
  pub attempts-play :
      (env : Env) (chat : ℤ) (ff : Text) (index : ℕ) (w : World C)
      → attempts (play_media_with_assistant env chat ff index w).0 ≤ attempts w + 1
  unfolding play_media_with_assistant
  attempts-play env chat ff index w = ground arith

  pub attempts-evict :
      (env : Env) (chat : ℤ) (w : World C) → attempts (evict_assistant env chat w) ≡ attempts w
  unfolding evict_assistant
  attempts-evict env chat w = refl

  pub attempts-save :
      (env : Env) (chat : ℤ) (index : ℕ) (w : World C)
      → attempts (save_assistant env chat index w) ≡ attempts w
  unfolding save_assistant
  attempts-save env chat index w = refl

  -- A result, with so many attempts at most.
  abbrev pub EndsWithin : ℕ → Option (World C × Option Text) → Type 0
  EndsWithin n none = ⊥
  EndsWithin n (some (w, failed)) = attempts w ≤ n

  pub EndsWithin-mono :
      (m n : ℕ) (r : Option (World C × Option Text)) → m ≤ n → EndsWithin m r → EndsWithin n r
  EndsWithin-mono m n none h k = k
  EndsWithin-mono m n (some (w, failed)) h k = omega arith

  settle-EndsWithin :
      (env : Env) (chat : ℤ) (ff : Text) (index bound : ℕ)
      (go_on : World C → Text → Option (World C × Option Text)) (r : World C × Option Text)
      → attempts r.0 + 1 ≤ bound
      → ((w : World C) (e : Text) → attempts w ≤ attempts r.0 + 1 → EndsWithin bound (go_on w e))
      → EndsWithin bound (settle env chat ff index go_on r)
  unfolding settle
  settle-EndsWithin env chat ff index bound go_on (w, none) h k =
      ground (arith, attempts-save env chat index w)
  settle-EndsWithin env chat ff index bound go_on (w, some e) h k =
      let w' = (play_media_with_assistant env chat ff index w).0 in
      elim (Option-cases (play_media_with_assistant env chat ff index w).1) [
        | inl f ↦ ground (
          arith,
          k (evict_assistant env chat w) e,
          attempts-evict env chat w,
          attempts-play env chat ff index w,
          attempts-save env chat index w',
        )
        | inr (e', f) ↦ ground (
          arith,
          k (evict_assistant env chat w) e,
          k (evict_assistant env chat w') e',
          attempts-evict env chat w,
          attempts-evict env chat w',
          attempts-play env chat ff index w,
        )
      ]

  -- With fuel above the number of untried accounts the rotation ends, after at most twice as many
  -- attempts as there are untried accounts.
  pub rotate_and_play-EndsWithin :
      (fuel : ℕ) (env : Env) (total : ℕ) (chat : ℤ) (ff : Text) (seen : List ℕ) (last : Text)
      (w : World C)
      → unseen total seen < fuel
      → EndsWithin
          (attempts w + 2 * unseen total seen)
          (rotate_and_play fuel env total chat ff seen last w)
  unfolding rotate_and_play
  rotate_and_play-EndsWithin zero env total chat ff seen last w h = absurd (omega arith)
  rotate_and_play-EndsWithin (suc fuel) env total chat ff seen last w h =
      elim (Option-cases (next_untried total seen)) [
        | inl e ↦ rw (e, rotate_and_play) (omega arith)
        | inr (index, e) ↦
            let (lt, new) = next_untried-some total seen index e in
            let fewer = unseen-cons total index seen lt new in
            rw (e, rotate_and_play)
              (settle-EndsWithin env chat ff index (attempts w + 2 * unseen total seen) _
                (play_media_with_assistant env chat ff index w)
                (omega (arith, attempts-play env chat ff index w))
                (λ w' e' le.
                  EndsWithin-mono _ _ (rotate_and_play fuel env total chat ff (index ∷ seen) e' w')
                    (omega (arith, attempts-play env chat ff index w))
                    (rotate_and_play-EndsWithin fuel env total chat ff (index ∷ seen) e' w'
                      (omega arith))))
      ]
