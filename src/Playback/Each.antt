-- ===== src/Playback/Each.antt =====
-- internal/calls/playback.go: PlayMedia ends, and it tries no account more than twice.
use tg.Base.{
  ℕ, zero, suc, ◌+◌, ◌*◌, ◌≤◌, ◌≡◌, refl, ap, List, [], ◌∷◌, Option, none, some, Bool, false, Text,
  arith, if◌then◌else◌, contains, ℤ, nat_eq, int_eq, nat_beq, nat_beq_iff, Option-cases, inl, inr,
}
use tg.Db.Collection.{Collection}
use tg.Playback.Defs.{
  Env, World, attempts, play_media_with_assistant, save_assistant, evict_assistant, next_untried,
  settle, settle_first, rotate_and_play, get_account, play_with, play_media,
}
use tg.Playback.Rotation.{next_untried-some, EndsWithin}
use tg.Playback.Account.{DrawsBelow, get_account-IsAccount, play_media-EndsWithin}

-- How often an account stands in a list.
unfoldable pub occurs : ℕ → List ℕ → ℕ
occurs i [] = 0
occurs i (x ∷ xs) = let rest = occurs i xs in if nat_beq x i then suc rest else rest

abbrev bit : Bool → ℕ
bit b = if b then 1 else 0

-- What the rotation may add for an account.
abbrev room : ℕ → List ℕ → ℕ
room i seen = if contains seen i then 0 else 2

room-cons :
    (i index : ℕ) (seen : List ℕ)
    → contains seen index ≡ false
    → room i (index ∷ seen) + (bit (nat_beq index i) + bit (nat_beq index i)) ≤ room i seen
room-cons i index seen h = ground (arith, nat_beq_iff index i)

module _ {C : Collection ℤ ℤ} (i : ℕ) where
  abbrev pub tries : World C → ℕ
  tries w = occurs i w.tried

  -- A result, with so many attempts with the account at most, where there is a result.
  abbrev pub TriesAtMost : ℕ → Option (World C × Option Text) → Type 0
  TriesAtMost n none = Unit
  TriesAtMost n (some (w, failed)) = tries w ≤ n

  TriesAtMost-mono :
      (m n : ℕ) (r : Option (World C × Option Text)) → m ≤ n → TriesAtMost m r → TriesAtMost n r
  TriesAtMost-mono m n none h k = k
  TriesAtMost-mono m n (some (w, failed)) h k = omega arith

  tries-play :
      (env : Env) (chat : ℤ) (ff : Text) (index : ℕ) (w : World C)
      → tries (play_media_with_assistant env chat ff index w).0 ≤ tries w + bit (nat_beq index i)
  unfolding play_media_with_assistant occurs
  tries-play env chat ff index w = ground arith

  tries-evict : (env : Env) (chat : ℤ) (w : World C) → tries (evict_assistant env chat w) ≡ tries w
  unfolding evict_assistant
  tries-evict env chat w = refl

  tries-save :
      (env : Env) (chat : ℤ) (index : ℕ) (w : World C)
      → tries (save_assistant env chat index w) ≡ tries w
  unfolding save_assistant
  tries-save env chat index w = refl

  settle-TriesAtMost :
      (env : Env) (chat : ℤ) (ff : Text) (index bound : ℕ)
      (go_on : World C → Text → Option (World C × Option Text)) (r : World C × Option Text)
      → tries r.0 + bit (nat_beq index i) ≤ bound
      → ((w : World C) (e : Text)
          → tries w ≤ tries r.0 + bit (nat_beq index i)
          → TriesAtMost bound (go_on w e))
      → TriesAtMost bound (settle env chat ff index go_on r)
        × TriesAtMost bound (settle_first env chat ff index go_on r)
  unfolding settle settle_first
  settle-TriesAtMost env chat ff index bound go_on (w, none) h k =
      (ground (arith, tries-save env chat index w), ground (arith, tries-save env chat index w))
  settle-TriesAtMost env chat ff index bound go_on (w, some e) h k =
      let w' = (play_media_with_assistant env chat ff index w).0 in
      elim (Option-cases (play_media_with_assistant env chat ff index w).1) [
        | inl f ↦
            let saved = tries-save env chat index w' in
            (
              ground (
                arith,
                k (evict_assistant env chat w) e,
                tries-evict env chat w,
                tries-play env chat ff index w,
                saved,
              ),
              ground (
                arith,
                k (evict_assistant env chat w) e,
                tries-evict env chat w,
                tries-play env chat ff index w,
                saved,
              ),
            )
        | inr (e', f) ↦
            let first = k (evict_assistant env chat w) e in
            let second = k (evict_assistant env chat w') e' in
            let played = tries-play env chat ff index w in
            (
              ground
                  (arith, first, second, tries-evict env chat w, tries-evict env chat w', played),
              ground
                  (arith, first, second, tries-evict env chat w, tries-evict env chat w', played),
            )
      ]

  rotate_and_play-TriesAtMost :
      (fuel : ℕ) (env : Env) (total : ℕ) (chat : ℤ) (ff : Text) (seen : List ℕ) (last : Text)
      (w : World C)
      → TriesAtMost (tries w + room i seen) (rotate_and_play fuel env total chat ff seen last w)
  unfolding rotate_and_play
  rotate_and_play-TriesAtMost zero env total chat ff seen last w = tt
  rotate_and_play-TriesAtMost (suc fuel) env total chat ff seen last w =
      elim (Option-cases (next_untried total seen)) [
        | inl e ↦ rw (e, rotate_and_play) (omega arith)
        | inr (index, e) ↦
            let (lt, new) = next_untried-some total seen index e in
            let fits = room-cons i index seen new in
            let played = tries-play env chat ff index w in
            rw (e, rotate_and_play)
              (settle-TriesAtMost env chat ff index (tries w + room i seen) _
                (play_media_with_assistant env chat ff index w) (omega arith)
                (λ w' e' le.
                  TriesAtMost-mono _ _ (rotate_and_play fuel env total chat ff (index ∷ seen) e' w')
                    (omega arith)
                    (rotate_and_play-TriesAtMost fuel env total chat ff (index ∷ seen) e' w'))).0
      ]

  play_with-TriesAtMost :
      (env : Env) (total : ℕ) (chat : ℤ) (ff : Text) (w : World C) (account : Option ℕ)
      → TriesAtMost (tries w + 2) (play_with env total chat ff w account)
  unfolding play_with
  play_with-TriesAtMost env total chat ff w none = omega arith
  play_with-TriesAtMost env total chat ff w (some index) =
      let fits = room-cons i index [] refl in
      let played = tries-play env chat ff index w in
      (settle-TriesAtMost env chat ff index (tries w + 2) _
        (play_media_with_assistant env chat ff index w) (omega arith)
        (λ w' e le.
          TriesAtMost-mono _ _ (rotate_and_play (suc total) env total chat ff (index ∷ []) e w')
            (omega arith)
            (rotate_and_play-TriesAtMost (suc total) env total chat ff (index ∷ []) e w'))).1

module _ {C : Collection ℤ ℤ} where
  -- PlayMedia always ends with success or an error, whatever Telegram and the database do, where
  -- the random number is below the number of the accounts: it makes at most twice as many
  -- attempts as there are accounts, and no more than two with any one of them.
  pub play_media-TriesTwice :
      (env : Env) (total : ℕ) (chat : ℤ) (ff : Text) (w : World C)
      → DrawsBelow total env.draw
      → let result = play_media env total chat ff w in
        EndsWithin (attempts w + 2 * total) result
        × ((i : ℕ) → TriesAtMost i (tries i w + 2) result)
  unfolding play_media
  play_media-TriesTwice env total chat ff w h =
      let (account, logged, kept) = get_account-IsAccount env total chat w h in
      let w' = (get_account env total chat w).0 in
      let found = (get_account env total chat w).1 in
      (
        play_media-EndsWithin env total chat ff w h,
        λ i.
            TriesAtMost-mono i (tries i w' + 2) (tries i w + 2)
              (play_with env total chat ff w' found) (omega (arith, ap (occurs i) logged))
              (play_with-TriesAtMost i env total chat ff w' found),
      )
