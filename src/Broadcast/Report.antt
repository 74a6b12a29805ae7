-- ===== src/Broadcast/Report.antt =====
-- internal/bot/broadcast.go: what the numbers of the report are.
use tg.Base.{
  ℕ, suc, ◌+◌, ◌≡◌, refl, ap, ◌∙◌, ◌⊎◌, inl, inr, List, [], ◌∷◌, ◌++◌, Option, none, some, Bool,
  true, false, not, ◌&&◌, ℤ, int_eq, ltb, contains, if◌then◌else◌, length, arith, Bool-cases,
}
use tg.Db.Collection.{Collection}
use tg.Db.Chats.{Chat}
use tg.Db.Users.{User}
use tg.Broadcast.Defs.{
  Sends, SendError, Tally, Progress, give_up, deliver, send_all, is_chat_gone_error,
  is_user_gone_error,
}

abbrev pub is_none {ℓ} : {A : Type ℓ} → Option A → Bool
is_none none = true
is_none (some a) = false

abbrev waits_after : Option SendError → Bool
waits_after none = false
waits_after (some e) = ltb 0 e.flood_wait

abbrev gone_after : Bool → Option SendError → Bool
gone_after is_group none = false
gone_after true (some e) = not (ltb 0 e.flood_wait) && is_chat_gone_error e.text
gone_after false (some e) = not (ltb 0 e.flood_wait) && not (is_none (is_user_gone_error e.text))

abbrev pub in_group : Sends → List ℤ → ℕ → ℤ → Bool
in_group o groups i t = is_none (o.send i t) && contains groups t

abbrev pub in_private : Sends → List ℤ → ℕ → ℤ → Bool
in_private o groups i t = is_none (o.send i t) && not (contains groups t)

abbrev pub gone : Sends → List ℤ → ℕ → ℤ → Bool
gone o groups i t = gone_after (contains groups t) (o.send i t)

abbrev pub waits : Sends → List ℤ → ℕ → ℤ → Bool
waits o groups i t = waits_after (o.send i t)

-- In how many of the rounds from i on, one for each target, something holds.
unfoldable pub rounds : (ℕ → ℤ → Bool) → ℕ → List ℤ → ℕ
rounds p i [] = 0
rounds p i (t ∷ ts) = let rest = rounds p (suc i) ts in if p i t then suc rest else rest

abbrev pub total : Tally → ℕ
total t = t.count + t.ucount + t.skipped + length t.failed

-- How a tally grows in rounds of which so many were of each kind.
abbrev pub Grows : Tally → Tally → ℕ → ℕ → ℕ → ℕ → ℕ → Type 0
Grows t t' groups users gone waits all =
    (t'.count ≡ t.count + groups)
    × (t'.ucount ≡ t.ucount + users)
    × (t'.skipped ≡ t.skipped + gone)
    × (total t' + waits ≡ total t + all)

abbrev bit : Bool → ℕ
bit b = if b then 1 else 0

module _ (C : Collection ℤ Chat) (U : Collection ℤ User) (o : Sends) (groups : List ℤ) where
  deliver-Grows :
      (i : ℕ) (t : ℤ) (w : Progress C U)
      → Grows w.tally
          (deliver C U o groups i t w).tally
          (bit (in_group o groups i t))
          (bit (in_private o groups i t))
          (bit (gone o groups i t))
          (bit (waits o groups i t))
          1
  unfolding deliver give_up
  deliver-Grows i t w = (ground arith, ground arith, ground arith, ground arith)

  -- These targets were met in the rounds from i on, and counted.
  abbrev Counted : ℕ → List ℤ → Tally → Tally → Type 0
  Counted i done t t' =
      Grows t t' (rounds (in_group o groups) i done) (rounds (in_private o groups) i done)
        (rounds (gone o groups) i done) (rounds (waits o groups) i done) (length done)

  rounds-Counted :
      (i : ℕ) (t : ℤ) (done : List ℤ) (a b c : Tally)
      → Grows a b
          (bit (in_group o groups i t))
          (bit (in_private o groups i t))
          (bit (gone o groups i t))
          (bit (waits o groups i t))
          1
      → Counted (suc i) done b c
      → Counted i (t ∷ done) a c
  unfolding rounds
  rounds-Counted i t done a b c g h = (ground arith, ground arith, ground arith, ground arith)

  -- A prefix of the targets was met, all of them if the loop came to its end.
  abbrev pub Reports : ℕ → List ℤ → Tally → Tally → Bool → Type 0
  Reports i targets t t' ended =
      (done : List ℤ) × (rest : List ℤ) × (targets ≡ done ++ rest)
      × (((ended ≡ true) × (rest ≡ []))
          ⊎ ((ended ≡ false) × (o.cancelled (i + length done) ≡ true)))
      × Counted i done t t'

  add_zero : (i : ℕ) → i + 0 ≡ i
  add_zero i = omega arith

  add_suc : (i n : ℕ) → i + suc n ≡ suc i + n
  add_suc i n = omega arith

  later_end :
      (i n : ℕ) {rest : List ℤ} {ended : Bool}
      → ((ended ≡ true) × (rest ≡ [])) ⊎ ((ended ≡ false) × (o.cancelled (suc i + n) ≡ true))
      → ((ended ≡ true) × (rest ≡ [])) ⊎ ((ended ≡ false) × (o.cancelled (i + suc n) ≡ true))
  later_end i n (inl e) = inl e
  later_end i n (inr (e, c)) = inr (e, ap o.cancelled (add_suc i n) ∙ c)

  later-Reports :
      (i : ℕ) (target : ℤ) (targets : List ℤ) (a b c : Tally) (ended : Bool)
      → Grows a b
          (bit (in_group o groups i target))
          (bit (in_private o groups i target))
          (bit (gone o groups i target))
          (bit (waits o groups i target))
          1
      → Reports (suc i) targets b c ended
      → Reports i (target ∷ targets) a c ended
  later-Reports i target targets a b c ended g (done, rest, q, n, h) = (
    target ∷ done,
    rest,
    ap (◌∷◌ target) q,
    later_end i (length done) n,
    rounds-Counted i target done a b c g h,
  )

  -- However the messages of a broadcast go, and whenever it is stopped: a prefix of the targets
  -- has been met, all of them where the loop came to its end, and the flag was up in the next
  -- round where it did not. The report then grows by as many groups as were sent to among these,
  -- as many users, and as many skips as there were targets that are gone; and the four numbers of
  -- the report, with the failed ones, account for every target that was met but those for which
  -- Telegram asked to wait, which are passed over.
  pub send_all-Reports :
      (i : ℕ) (targets : List ℤ) (w : Progress C U)
      → let r = send_all C U o groups i targets w in Reports i targets w.tally r.0.tally r.1
  unfolding send_all rounds
  send_all-Reports i [] w =
      ([], [], refl, inl (refl, refl), (omega arith, omega arith, omega arith, omega arith))
  send_all-Reports i (target ∷ targets) w = elim (Bool-cases (o.cancelled i)) [
    | inl e ↦
        rw (e, send_all)
          (
            [],
            target ∷ targets,
            refl,
            inr (refl, ap o.cancelled (add_zero i) ∙ e),
            (omega arith, omega arith, omega arith, omega arith),
          )
    | inr e ↦
        rw (e, send_all)
          (later-Reports i target targets w.tally _ _ _ (deliver-Grows i target w)
            (send_all-Reports (suc i) targets (deliver C U o groups i target w)))
  ]
