-- ===== src/Db/Assistant.antt =====
-- internal/db/assistant.go: which assistant account serves a chat; -1 stands for none. A document
-- always has its `num`: no code writes one without. `fault` is the error of a call, if any.
use tg.Base.{
  ℕ, List, [], ◌∷◌, ◌≡◌, ◌∙◌, Option, none, some, Bool, true, Text, ℤ, negsuc, int_eq, int_beq_iff,
  if◌then◌else◌, ◌==◌, ◌&&◌, not, arith, Result, ok, err, format_int, format_int-injective, ==_refl,
}
use mathlib.Core.Option
use tg.Ttl
use tg.Db.Collection.{Collection}
use tg.Db.Cached.{
  Table, read, write_set, remove_drop, IsCoherent, read-find_one, write_set-IsCoherent,
}

abbrev pub unassigned : ℤ
unassigned = negsuc 0

module _ (C : Collection ℤ ℤ) where
  open C use {find_one, upsert, remove_all}

  abbrev pub or_unassigned : Result Text (Option ℤ) → Result Text ℤ
  or_unassigned (err e) = err e
  or_unassigned (ok none) = ok unassigned
  or_unassigned (ok (some n)) = ok n

  unfoldable pub get_assistant : ℕ → Option Text → ℤ → Table C → Table C × Result Text ℤ
  get_assistant now fault chat s =
      let (s', r) = read C format_int now fault chat s in (s', or_unassigned r)

  unfoldable pub set_assistant : ℕ → Option Text → ℤ → ℤ → Table C → Table C × Option Text
  set_assistant now fault chat num s = write_set C format_int now fault chat num s

  unfoldable pub remove_assistant : Option Text → ℤ → Table C → Table C × Option Text
  remove_assistant fault chat s = remove_drop C format_int fault chat s

  -- The filtered update with upsert: it makes a document where there is none, changes one whose
  -- `num` is -1, and meets a duplicate key where the chat is assigned.
  abbrev pub changes : ℤ → Option ℤ → Bool
  changes proposed none = true
  changes proposed (some n) = n == unassigned && not (proposed == unassigned)

  -- `fault'` is the error of the read that follows where nothing was changed.
  unfoldable pub assign_assistant :
      ℕ → Option Text → Option Text → ℤ → ℤ → Table C → Table C × Result Text ℤ
  unfolding get_assistant
  assign_assistant now (some e) fault' chat proposed s = (s, err e)
  assign_assistant now none fault' chat proposed s =
      if changes proposed (find_one chat s.store)
      then (
        record s {
          store = upsert chat (λ _. proposed) proposed s.store;
          cache = Ttl.set now (format_int chat) proposed s.cache;
        },
        ok proposed,
      )
      else get_assistant now fault' chat s

  unfoldable pub clear_all_assistants : Option Text → Table C → Table C × Option Text
  clear_all_assistants (some e) s = (s, some e)
  clear_all_assistants none s =
      (record s { store = remove_all s.store; cache = Ttl.clear s.cache }, none)

  -- The abstract view: the assistant of a chat, by the collection.
  abbrev pub assigned : ℤ → Table C → ℤ
  assigned chat s = Option.get_or (find_one chat s.store) unassigned

  get_assistant-assigned :
      (now : ℕ) (chat : ℤ) (s : Table C)
      → IsCoherent C format_int s
      → (get_assistant now none chat s).1 ≡ ok (assigned chat s)
  unfolding get_assistant
  get_assistant-assigned now chat s h = ground (arith, read-find_one C format_int now none chat s h)

  -- Where the cache agrees with the collection and neither call fails, the assistant of a chat is
  -- the one set last, and the other chats keep theirs.
  pub get_assistant-set_assistant :
      (now later : ℕ) (chat j num : ℤ) (s : Table C)
      → IsCoherent C format_int s
      → (get_assistant later none j (set_assistant now none chat num s).0).1
        ≡ ok (if chat == j then num else assigned j s)
  unfolding set_assistant
  get_assistant-set_assistant now later chat j num s h =
      let s' = (write_set C format_int now none chat num s).0 in
      get_assistant-assigned later j s'
        (write_set-IsCoherent C format_int now none chat num s format_int-injective h)
      ∙ (unfold write_set in ground (arith, C.find_one-upsert chat j (λ _. num) num s.store))

  -- Where the cache agrees with the collection and no call fails, the first assignment wins:
  -- AssignAssistant keeps the assistant of a chat that has one, gives the proposed one to a chat
  -- that has none, answers with the one that the chat has then, and touches no other chat.
  pub assign_assistant-assigned :
      (now : ℕ) (chat j proposed : ℤ) (s : Table C)
      → IsCoherent C format_int s
      → let (s', answer) = assign_assistant now none none chat proposed s in
        (assigned j s' ≡ (
          if chat == j
          then (if assigned j s == unassigned then proposed else assigned j s)
          else assigned j s))
        × (answer ≡ ok (assigned chat s'))
  unfolding assign_assistant get_assistant
  assign_assistant-assigned now chat j proposed s h = ground (
    arith,
    read-find_one C format_int now none chat s h,
    C.find_one-upsert chat j (λ _. proposed) proposed s.store,
    C.find_one-upsert chat chat (λ _. proposed) proposed s.store,
    int_beq_iff chat j,
    int_beq_iff proposed unassigned,
    int_beq_iff (assigned chat s) unassigned,
    ==_refl chat,
  )

-- A call of one of the methods, with the errors that its calls of the server meet.
pub data Call : Type 0 where
  gets removes : (now : ℕ) → Option Text → ℤ → Call
  sets : (now : ℕ) → Option Text → ℤ → ℤ → Call
  assigns : (now : ℕ) → Option Text → Option Text → ℤ → ℤ → Call
  clears : Option Text → Call

module _ (C : Collection ℤ ℤ) where
  unfoldable pub step : Call → Table C → Table C
  step (gets now fault chat) s = (get_assistant C now fault chat s).0
  step (sets now fault chat num) s = (set_assistant C now fault chat num s).0
  step (removes now fault chat) s = (remove_assistant C fault chat s).0
  step (assigns now fault fault' chat num) s = (assign_assistant C now fault fault' chat num s).0
  step (clears fault) s = (clear_all_assistants C fault s).0

  unfoldable pub run : List Call → Table C → Table C
  unfolding step
  run [] s = s
  run (k ∷ ks) s = run ks (step k s)
