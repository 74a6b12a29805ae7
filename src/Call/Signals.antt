-- ===== src/Call/Signals.antt =====
-- internal/calls/call.go: what somebody who waits for a connection receives.
use tg.Base.{
  ℕ, ◌<◌, ◌≡◌, ◌∙◌, List, [], ◌∷◌, Option, none, some, Text, ℤ, if◌then◌else◌, ◌==◌, int_eq, nat_eq,
  int_beq_iff, nat_beq_iff, lookup, lookup-insert, arith, Option-cases, inl, inr, ==_refl,
}
use tg.Call.State.{AssistantAccount, register_wait}
use tg.Call.Updates.{ConnectionState, signal_of, offer, on_connection_change}

-- A change of the connection of a chat.
pub record Change : Type 0 where
  pub chat : ℤ
  pub state : ConnectionState

unfoldable pub run_changes : List Change → AssistantAccount → AssistantAccount
run_changes [] s = s
run_changes (c ∷ cs) s = run_changes cs (on_connection_change c.chat c.state s)

abbrev or_else : Option (Option Text) → Option (Option Text) → Option (Option Text)
or_else none b = b
or_else (some a) b = some a

-- The first change of the chat that ends a wait.
unfoldable pub first_signal : ℤ → List Change → Option (Option Text)
unfolding signal_of
first_signal chat [] = none
first_signal chat (c ∷ cs) =
    let rest = first_signal chat cs in
    if c.chat == chat then or_else (signal_of c.state) rest else rest

-- Every channel that somebody waits for was made.
abbrev pub IsNumbered : AssistantAccount → Type 0
IsNumbered s = (j : ℤ) (n : ℕ) → lookup j s.wait_connect ≡ some n → n < s.made

-- The chat waits for the channel, and no other chat does.
abbrev Waits : ℤ → ℕ → AssistantAccount → Type 0
Waits chat n s =
    (lookup chat s.wait_connect ≡ some n) × ((j : ℤ) → lookup j s.wait_connect ≡ some n → j ≡ chat)

on_connection_change-Waits :
    (chat j : ℤ) (n : ℕ) (state : ConnectionState) (s : AssistantAccount)
    → Waits chat n s
    → Waits chat n (on_connection_change j state s)
unfolding on_connection_change offer
on_connection_change-Waits chat j n state s h = (ground arith, λ k e. h.1 k (ground arith))

on_connection_change-channel :
    (chat j : ℤ) (n : ℕ) (state : ConnectionState) (s : AssistantAccount)
    → Waits chat n s
    → (on_connection_change j state s).channels n
      ≡ or_else (s.channels n) (if j == chat then signal_of state else none)
unfolding on_connection_change offer
on_connection_change-channel chat j n state s h = elim (Option-cases (lookup j s.wait_connect)) [
  | inl e ↦ ground (arith, int_beq_iff j chat)
  | inr (m, e) ↦ ground (arith, int_beq_iff j chat, nat_beq_iff m n, h.1 j, ==_refl n)
]

run_changes-channel :
    (chat : ℤ) (n : ℕ) (cs : List Change) (s : AssistantAccount)
    → Waits chat n s
    → (run_changes cs s).channels n ≡ or_else (s.channels n) (first_signal chat cs)
unfolding run_changes first_signal
run_changes-channel chat n [] s h = ground arith
run_changes-channel chat n (c ∷ cs) s h =
    let s' = on_connection_change c.chat c.state s in
    ground (
      arith,
      run_changes-channel chat n cs s' (on_connection_change-Waits chat c.chat n c.state s h),
      on_connection_change-channel chat c.chat n c.state s h,
    )

register_wait-Waits :
    (chat : ℤ) (s : AssistantAccount) → IsNumbered s → Waits chat s.made (register_wait chat s)
unfolding register_wait
register_wait-Waits chat s h = (
  ground (arith, lookup-insert chat chat s.made s.wait_connect, ==_refl chat),
  λ j e. ground (arith, lookup-insert chat j s.made s.wait_connect, h j s.made, int_beq_iff chat j),
)

-- Where the channels that are waited for were made, somebody who starts to wait for the
-- connection of a chat finds in the channel what the first change of that chat says that ends a
-- wait, once there was one, whatever other changes come before and after it.
pub register_wait-first_signal :
    (chat : ℤ) (cs : List Change) (s : AssistantAccount)
    → IsNumbered s
    → (run_changes cs (register_wait chat s)).channels s.made ≡ first_signal chat cs
register_wait-first_signal chat cs s h =
    run_changes-channel chat s.made cs (register_wait chat s) (register_wait-Waits chat s h)
    ∙ (unfold register_wait in ground (arith, ==_refl s.made))
