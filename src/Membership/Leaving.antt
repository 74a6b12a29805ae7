-- ===== src/Membership/Leaving.antt =====
-- internal/calls/membership.go: leaving ends, and which chats it asks for.
use tg.Base.{
  ℕ, zero, suc, ◌+◌, ◌*◌, ◌≤◌, ◌<◌, ◌≡◌, refl, List, [], ◌∷◌, Option, none, some, true, false, ◌||◌,
  ℤ, pos, is_positive, ◌==◌, int_eq, nat_eq, ltb, length, arith, ok, Option-cases, Bool-cases, inl,
  inr, contains, ==_refl, int_beq_iff, All, subst,
}
use tg.Player.{is_active}
use tg.Membership.Leave.{
  Peer, Server, Tally, max_leave_retries, is_gone, leave_loop, dialog_id, leave_dialogs, nobody,
  leave_assistant_dialogs,
}

-- The tries for a chat end, after so many calls at most; the log only grows; and a chat that is not
-- seen playing is asked for.
abbrev Fits : Server → ℤ → Tally → ℕ → Option Tally → Type 0
Fits s id t k none = ⊥
Fits s id t k (some u) =
    (length u.asked ≤ length t.asked + k)
    × ((x : ℤ) → contains t.asked x ≡ true → contains u.asked x ≡ true)
    × (is_active id (s.chats (length t.asked)) ≡ false → contains u.asked id ≡ true)

Fits-again :
    (s : Server) (id : ℤ) (t : Tally) (k : ℕ) (r : Option Tally)
    → Fits s id (record t { asked = id ∷ t.asked }) k r
    → Fits s id t (suc k) r
Fits-again s id t k none h = h
Fits-again s id t k (some u) (few, grows, goes) =
    (omega arith, λ x e. grows x (ground arith), λ e. grows id (ground (arith, ==_refl id)))

leave_loop-Fits :
    (fuel : ℕ) (s : Server) (id : ℤ) (retries : ℕ) (t : Tally)
    → max_leave_retries < fuel + retries
    → retries ≤ max_leave_retries
    → Fits s id t fuel (leave_loop fuel s id retries t)
unfolding leave_loop
leave_loop-Fits zero s id retries t h r = absurd (omega arith)
leave_loop-Fits (suc fuel) s id retries t h r =
    let n = length t.asked in
    let t' : Tally = record t { asked = id ∷ t.asked } in
    let asked_now : contains t'.asked id ≡ true = ground (arith, ==_refl id) in
    elim (Bool-cases (is_active id (s.chats n))) [
      | inl a ↦ rw (leave_loop, a) (omega arith, λ x e. e, λ e. absurd (ground arith))
      | inr a ↦ elim (Option-cases (s.leave n)) [
        | inl e ↦ rw (leave_loop, a, e) (omega arith, λ x f. ground arith, λ f. asked_now)
        | inr (x, e) ↦ elim (Bool-cases (is_gone x)) [
          | inl g ↦ rw (leave_loop, a, e, g) (omega arith, λ x f. ground arith, λ f. asked_now)
          | inr g ↦ elim (Bool-cases (is_positive (s.flood_wait x))) [
            | inr w ↦ rw (leave_loop, a, e, g, w) (omega arith, λ x f. ground arith, λ f. asked_now)
            | inl w ↦ elim (Bool-cases (ltb max_leave_retries (suc retries))) [
              | inl l ↦
                  rw (leave_loop, a, e, g, w, l) (omega arith, λ x f. ground arith, λ f. asked_now)
              | inr l ↦
                  rw (leave_loop, a, e, g, w, l)
                    (Fits-again s id t fuel (leave_loop fuel s id (suc retries) t')
                      (leave_loop-Fits fuel s id (suc retries) t' (omega arith) (ground arith)))
            ]
          ]
        ]
      ]
    ]

-- Nothing plays under a positive id: a queue belongs to a group, whose id is negative.
abbrev pub PlaysInGroups : Server → Type 0
PlaysInGroups s = (n : ℕ) (id : ℤ) → is_positive id ≡ true → is_active id (s.chats n) ≡ false

-- The dialogs with a positive id are all asked for.
abbrev pub AsksFor : Tally → List Peer → Type 0
AsksFor u ps =
    All (λ p. is_positive (dialog_id p) ≡ true → contains u.asked (dialog_id p) ≡ true) ps

abbrev FitsAll : Server → List Peer → Tally → Option Tally → Type 0
FitsAll s ps t none = ⊥
FitsAll s ps t (some u) =
    (length u.asked ≤ length t.asked + 3 * length ps)
    × ((x : ℤ) → contains t.asked x ≡ true → contains u.asked x ≡ true)
    × (PlaysInGroups s → AsksFor u ps)

FitsAll-skip :
    (s : Server) (p : Peer) (ps : List Peer) (t : Tally) (r : Option Tally)
    → (dialog_id p == pos 0 || is_active (dialog_id p) (s.chats (length t.asked))) ≡ true
    → FitsAll s ps t r
    → FitsAll s (p ∷ ps) t r
FitsAll-skip s p ps t none h k = k
FitsAll-skip s p ps t (some u) h (few, grows, asks) = (
  omega arith,
  grows,
  λ g. (
    λ e.
        absurd
          (ground (arith, g (length t.asked) (dialog_id p) e, int_beq_iff (dialog_id p) (pos 0))),
    asks g,
  ),
)

FitsAll-next :
    (s : Server) (p : Peer) (ps : List Peer) (t t' : Tally) (r : Option Tally)
    → Fits s (dialog_id p) t 3 (some t')
    → FitsAll s ps t' r
    → FitsAll s (p ∷ ps) t r
FitsAll-next s p ps t t' none h k = k
FitsAll-next s p ps t t' (some u) (few, grows, goes) (few', grows', asks) = (
  omega arith,
  λ x e. grows' x (grows x e),
  λ g. (λ e. grows' (dialog_id p) (goes (g (length t.asked) (dialog_id p) e)), asks g),
)

leave_dialogs-FitsAll :
    (s : Server) (ps : List Peer) (t : Tally) → FitsAll s ps t (leave_dialogs s ps t)
unfolding leave_dialogs
leave_dialogs-FitsAll s [] t = (omega arith, λ x e. e, λ g. tt)
leave_dialogs-FitsAll s (p ∷ ps) t =
    let id = dialog_id p in
    let fits = leave_loop-Fits 3 s id 0 t (omega arith) (omega arith) in
    elim (Bool-cases (id == pos 0 || is_active id (s.chats (length t.asked)))) [
      | inl a ↦
          rw (leave_dialogs, a)
            (FitsAll-skip s p ps t (leave_dialogs s ps t) a (leave_dialogs-FitsAll s ps t))
      | inr a ↦ elim (Option-cases (leave_loop 3 s id 0 t)) [
        | inl e ↦ absurd (subst (Fits s id t 3) e fits)
        | inr (t', e) ↦
            rw (leave_dialogs, a, e)
              (FitsAll-next s p ps t t' (leave_dialogs s ps t') (subst (Fits s id t 3) e fits)
                (leave_dialogs-FitsAll s ps t'))
      ]
    ]

-- Leaving the dialogs ends, after three calls of LeaveChannel at most for each dialog. Where
-- music plays in groups only, whose chat ids are negative, it asks to leave every dialog with a
-- positive id, and so also each channel in which the assistant plays.
pub leave_assistant_dialogs_lem :
    (s : Server) (ps : List Peer)
    → (n : ℕ) × (u : Tally) × (leave_assistant_dialogs s (ok ps) ≡ some (ok n, u))
      × (length u.asked ≤ 3 * length ps)
      × (PlaysInGroups s → AsksFor u ps)
unfolding leave_assistant_dialogs
leave_assistant_dialogs_lem s ps =
    let fits = leave_dialogs-FitsAll s ps nobody in
    elim (Option-cases (leave_dialogs s ps nobody)) [
      | inl e ↦ absurd (subst (FitsAll s ps nobody) e fits)
      | inr (u, e) ↦
          let (few, grows, asks) = subst (FitsAll s ps nobody) e fits in
          (u.total_left, u, rw (leave_assistant_dialogs, e) refl, omega (arith, few), asks)
    ]
