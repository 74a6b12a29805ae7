-- ===== src/Playback/Account.antt =====
-- internal/calls/assistant.go and playback.go: the choice of an account, and the end of PlayMedia.
use tg.Base.{
  ℕ, suc, ◌+◌, ◌*◌, ◌≤◌, ◌<◌, ◌≡◌, refl, ap, inl, inr, [], ◌∷◌, Option, none, some, true, Text,
  arith, length, ℤ, pos, negsuc, nat_eq, int_eq, Option-cases,
}
use tg.Db.Collection.{Collection}
use tg.Playback.Defs.{
  Env, World, attempts, play_media_with_assistant, evict_assistant, rotate_and_play, get_account,
  play_media, settle_first, play_with, in_range, index_of,
}
use tg.Playback.Rotation.{
  unseen-le, unseen-cons, EndsWithin, EndsWithin-mono, attempts-play, attempts-evict, attempts-save,
  rotate_and_play-EndsWithin,
}

-- rand.Int draws a number below its bound.
abbrev pub DrawsBelow : ℕ → Option ℕ → Type 0
DrawsBelow total none = Unit
DrawsBelow total (some n) = 0 < total → n < total

-- The account is one of those there are, and there is none only if there are none.
abbrev pub IsAccount : ℕ → Option ℕ → Type 0
IsAccount total none = total ≡ 0
IsAccount total (some i) = i < total

in_range-index_of : (total : ℕ) (n : ℤ) → in_range total n ≡ true → index_of n < total
in_range-index_of total (pos i) h = ground arith
in_range-index_of total (negsuc i) h = cc

drawn : (total n : ℕ) (d : Option ℕ) → DrawsBelow total d → d ≡ some n → 0 < total → n < total
drawn total n none h e = cc
drawn total n (some k) h e = ground (arith, h)

module _ {C : Collection ℤ ℤ} where
  -- Where the random number is below the number of the accounts, GetAccount picks one of the
  -- accounts, if there is one; it makes no attempt to play and changes no queue.
  pub get_account-IsAccount :
      (env : Env) (total : ℕ) (chat : ℤ) (w : World C)
      → DrawsBelow total env.draw
      → IsAccount total (get_account env total chat w).1
        × ((get_account env total chat w).0.tried ≡ w.tried)
        × ((get_account env total chat w).0.chats ≡ w.chats)
  unfolding get_account
  get_account-IsAccount env total chat w h = elim (Option-cases env.draw) [
    | inl e ↦ (grind (arith, in_range-index_of), ground arith, ground arith)
    | inr (n, e) ↦
        (grind (arith, in_range-index_of, drawn total n env.draw h e), ground arith, ground arith)
  ]

  settle_first-EndsWithin :
      (env : Env) (chat : ℤ) (ff : Text) (index bound : ℕ)
      (go_on : World C → Text → Option (World C × Option Text)) (r : World C × Option Text)
      → attempts r.0 + 1 ≤ bound
      → ((w : World C) (e : Text) → attempts w ≤ attempts r.0 + 1 → EndsWithin bound (go_on w e))
      → EndsWithin bound (settle_first env chat ff index go_on r)
  unfolding settle_first
  settle_first-EndsWithin env chat ff index bound go_on (w, none) h k =
      ground (arith, attempts-save env chat index w)
  settle_first-EndsWithin env chat ff index bound go_on (w, some e) h k =
      let w' = (play_media_with_assistant env chat ff index w).0 in
      elim (Option-cases (play_media_with_assistant env chat ff index w).1) [
        | inl f ↦ ground (
          arith,
          k (evict_assistant env chat w) e,
          attempts-evict env chat w,
          attempts-play env chat ff index w,
          attempts-save env chat index w',
        )
        | inr (e', f) ↦ ground (
          arith,
          k (evict_assistant env chat w) e,
          k (evict_assistant env chat w') e',
          attempts-evict env chat w,
          attempts-evict env chat w',
          attempts-play env chat ff index w,
        )
      ]

  play_with-EndsWithin :
      (env : Env) (total : ℕ) (chat : ℤ) (ff : Text) (w : World C) (account : Option ℕ)
      → IsAccount total account
      → EndsWithin (attempts w + 2 * total) (play_with env total chat ff w account)
  unfolding play_with
  play_with-EndsWithin env total chat ff w none h = omega arith
  play_with-EndsWithin env total chat ff w (some index) h =
      let left = unseen-cons total index [] h refl in
      settle_first-EndsWithin env chat ff index (attempts w + 2 * total) _
        (play_media_with_assistant env chat ff index w)
        (omega (arith, attempts-play env chat ff index w))
        (λ w' e le.
          EndsWithin-mono _ _ (rotate_and_play (suc total) env total chat ff (index ∷ []) e w')
            (omega (arith, attempts-play env chat ff index w, unseen-le total []))
            (rotate_and_play-EndsWithin (suc total) env total chat ff (index ∷ []) e w'
              (omega (arith, unseen-le total (index ∷ [])))))

  -- PlayMedia always ends, after at most twice as many attempts as there are accounts, where the
  -- random number is below their number.
  pub play_media-EndsWithin :
      (env : Env) (total : ℕ) (chat : ℤ) (ff : Text) (w : World C)
      → DrawsBelow total env.draw
      → EndsWithin (attempts w + 2 * total) (play_media env total chat ff w)
  unfolding play_media
  play_media-EndsWithin env total chat ff w h =
      let (account, logged, kept) = get_account-IsAccount env total chat w h in
      let w' = (get_account env total chat w).0 in
      let found = (get_account env total chat w).1 in
      EndsWithin-mono (attempts w' + 2 * total) (attempts w + 2 * total)
        (play_with env total chat ff w' found) (omega (arith, ap length logged))
        (play_with-EndsWithin env total chat ff w' found account)
