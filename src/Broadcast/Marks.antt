-- ===== src/Broadcast/Marks.antt =====
-- internal/bot/broadcast.go: which chats and users a broadcast flags.
use tg.Base.{
  ℕ, suc, ◌+◌, ◌≡◌, refl, sym, ap, ◌∙◌, ◌⊎◌, inl, inr, List, [], ◌∷◌, Option, none, some, true,
  false, ◌&&◌, Text, ℤ, int_eq, int_beq_iff, ◌==◌, ltb, contains, get_elem?, arith, Option-cases,
  Bool-cases,
}
use tg.Db.Collection.{Collection}
use tg.Db.Cached.{Table}
use tg.Db.Chats.{Chat}
use tg.Db.Users.{User, Flag, with_flag}
use tg.Broadcast.Bulk.{
  Failure, bulk_from, bulk_set_flag, update_many, mark_chats_invalid, mark_users,
}
use tg.Broadcast.Defs.{
  Sends, SendError, Progress, give_up, deliver, send_all, is_chat_gone_error, is_user_gone_error,
}

abbrev set_invalid : Chat → Chat
set_invalid d = record d { invalid = true }

module _ (C : Collection ℤ Chat) (U : Collection ℤ User) (o : Sends) (groups : List ℤ) where
  -- Telegram refused the message of some round from i on, for this reason, and asked for no wait.
  abbrev pub Refused : ℕ → List ℤ → ℤ → (Text → Type 0) → Type 0
  Refused i targets j Reason =
      (n : ℕ) × (e : SendError) × (get_elem? targets n ≡ some j)
      × (o.send (i + n) j ≡ some e)
      × (e.flood_wait ≡ 0)
      × Reason e.text

  -- What is stored of a chat is as before, or the chat was sent to and is gone; and of a user.
  abbrev pub ChatFlagged : ℕ → List ℤ → ℤ → Table C → Table C → Type 0
  ChatFlagged i targets j s s' =
      (C.find_one j s'.store ≡ C.find_one j s.store)
      ⊎ ((contains groups j ≡ true) × Refused i targets j (λ text. is_chat_gone_error text ≡ true))

  abbrev pub UserFlagged : ℕ → List ℤ → ℤ → Table U → Table U → Type 0
  UserFlagged i targets j s s' =
      (U.find_one j s'.store ≡ U.find_one j s.store)
      ⊎ ((contains groups j ≡ false)
          × Refused i targets j (λ text. (flag : Flag) × (is_user_gone_error text ≡ some flag)))

  mark_chats_invalid-other :
      (fault : Option (Failure ℤ)) (chat j : ℤ) (s : Table C)
      → (chat == j) ≡ false
      → C.find_one j (mark_chats_invalid C (λ _. fault) (chat ∷ []) s).0.store
        ≡ C.find_one j s.store
  unfolding mark_chats_invalid bulk_set_flag bulk_from update_many
  mark_chats_invalid-other (some x) chat j s h =
      ground (arith, C.find_one-update chat j (λ d. record d { invalid = true }) s.store)
  mark_chats_invalid-other none chat j s h =
      ground (arith, C.find_one-update chat j (λ d. record d { invalid = true }) s.store)

  mark_users-other :
      (flag : Flag) (fault : Option (Failure ℤ)) (uid j : ℤ) (s : Table U)
      → (uid == j) ≡ false
      → U.find_one j (mark_users U flag (λ _. fault) (uid ∷ []) s).0.store ≡ U.find_one j s.store
  unfolding mark_users bulk_set_flag bulk_from update_many
  mark_users-other flag (some x) uid j s h =
      ground (arith, U.find_one-update uid j (with_flag flag true) s.store)
  mark_users-other flag none uid j s h =
      ground (arith, U.find_one-update uid j (with_flag flag true) s.store)

  -- A target that is given up is the only one that may be flagged, and only where it is gone.
  give_up-chats :
      (fault : Option (Failure ℤ)) (t j : ℤ) (text : Text) (found : Option Flag) (w : Progress C U)
      → (C.find_one j (give_up C U fault (contains groups t) t text found w).chats.store
          ≡ C.find_one j w.chats.store)
        ⊎ ((t ≡ j) × (contains groups t ≡ true) × (is_chat_gone_error text ≡ true))
  unfolding give_up
  give_up-chats fault t j text found w = elim (Bool-cases (t == j)) [
    | inr h ↦ inl (ground (arith, mark_chats_invalid-other fault t j w.chats h))
    | inl h ↦ elim (Bool-cases (contains groups t && is_chat_gone_error text)) [
      | inl g ↦ inr ((int_beq_iff t j).0 h, ground arith, ground arith)
      | inr g ↦ inl (ground arith)
    ]
  ]

  give_up-users :
      (fault : Option (Failure ℤ)) (t j : ℤ) (text : Text) (found : Option Flag) (w : Progress C U)
      → (U.find_one j (give_up C U fault (contains groups t) t text found w).users.store
          ≡ U.find_one j w.users.store)
        ⊎ ((t ≡ j) × (contains groups t ≡ false) × ((flag : Flag) × (found ≡ some flag)))
  unfolding give_up
  give_up-users fault t j text none w = inl (ground arith)
  give_up-users fault t j text (some flag) w = elim (Bool-cases (t == j)) [
    | inr h ↦ inl (ground (arith, mark_users-other flag fault t j w.users h))
    | inl h ↦ elim (Bool-cases (contains groups t)) [
      | inl g ↦ inl (ground arith)
      | inr g ↦ inr ((int_beq_iff t j).0 h, g, (flag, refl))
    ]
  ]

  at_first :
      (i : ℕ) (t j : ℤ) (ts : List ℤ) (e : SendError) (Reason : Text → Type 0)
      → t ≡ j
      → o.send i t ≡ some e
      → ltb 0 e.flood_wait ≡ false
      → Reason e.text
      → Refused i (t ∷ ts) j Reason
  at_first i t j ts e Reason q n f r =
      let z : i + 0 ≡ i = omega arith in
      (0, e, ap some q, ap (λ k. o.send k j) z ∙ ap (o.send i) (sym q) ∙ n, ground arith, r)

  at_later :
      (i : ℕ) (t j : ℤ) (ts : List ℤ) (Reason : Text → Type 0)
      → Refused (suc i) ts j Reason
      → Refused i (t ∷ ts) j Reason
  at_later i t j ts Reason (n, e, g, s, f, r) =
      let z : i + suc n ≡ suc i + n = omega arith in (suc n, e, g, ap (λ k. o.send k j) z ∙ s, f, r)

  deliver-Flagged :
      (i : ℕ) (t j : ℤ) (ts : List ℤ) (w : Progress C U)
      → let w' = deliver C U o groups i t w in
        ChatFlagged i (t ∷ ts) j w.chats w'.chats × UserFlagged i (t ∷ ts) j w.users w'.users
  unfolding deliver
  deliver-Flagged i t j ts w = elim (Option-cases (o.send i t)) [
    | inl n ↦ (inl (ground arith), inl (ground arith))
    | inr (e, n) ↦ elim (Bool-cases (ltb 0 e.flood_wait)) [
      | inl f ↦ (inl (ground arith), inl (ground arith))
      | inr f ↦
          let found = is_user_gone_error e.text in
          let here = at_first i t j ts e in
          (
            elim (give_up-chats (o.fault i) t j e.text found w) [
              | inl h ↦ inl (ground arith)
              | inr (q, g, r) ↦ inr (
                ap (contains groups) (sym q) ∙ g,
                here (λ text. is_chat_gone_error text ≡ true) q n f r,
              )
            ],
            elim (give_up-users (o.fault i) t j e.text found w) [
              | inl h ↦ inl (ground arith)
              | inr (q, g, r) ↦ inr (
                ap (contains groups) (sym q) ∙ g,
                here (λ text. (flag : Flag) × (is_user_gone_error text ≡ some flag)) q n f r,
              )
            ],
          )
    ]
  ]

  -- What the collections hold of a chat or a user changes in a broadcast only where a message to
  -- it was refused, without asking for a wait, in some round: for a chat, one of the active chats
  -- whose error says that it is gone, and for a user, one who is not among those and whose error
  -- says blocked or deleted.
  pub send_all-Flagged :
      (i : ℕ) (targets : List ℤ) (j : ℤ) (w : Progress C U)
      → let w' = (send_all C U o groups i targets w).0 in
        ChatFlagged i targets j w.chats w'.chats × UserFlagged i targets j w.users w'.users
  unfolding send_all
  send_all-Flagged i [] j w = (inl refl, inl refl)
  send_all-Flagged i (t ∷ ts) j w = elim (Bool-cases (o.cancelled i)) [
    | inl e ↦ rw (e, send_all) (inl refl, inl refl)
    | inr e ↦
        let one = deliver-Flagged i t j ts w in
        let more = send_all-Flagged (suc i) ts j (deliver C U o groups i t w) in
        rw (e, send_all)
          (
            elim more.0 [
              | inr (g, r) ↦ inr (g, at_later i t j ts _ r)
              | inl h ↦ elim one.0 [ inr r ↦ inr r | inl k ↦ inl (h ∙ k) ]
            ],
            elim more.1 [
              | inr (g, r) ↦ inr (g, at_later i t j ts _ r)
              | inl h ↦ elim one.1 [ inr r ↦ inr r | inl k ↦ inl (h ∙ k) ]
            ],
          )
  ]
