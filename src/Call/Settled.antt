-- ===== src/Call/Settled.antt =====
-- internal/calls/call.go: what holds of an assistant's state between two events.
use tg.Base.{
  ◌≡◌, ◌∙◌, sym, List, [], ◌∷◌, Option, none, not, ◌&&◌, Text, ℤ, ◌==◌, int_eq, nat_eq, int_beq_iff,
  lookup, lookup-insert, lookup-delete, contains, Distinct, arith, Result, Result-cases, inl, inr,
  subst,
}
use tg.Call.State.{
  InputGroupCall, Media, AssistantAccount, std_remove, register_wait, forget_wait, InputPeer,
  get_input_group_call, call_native, sets_sources,
}
use tg.Call.Connect.{Replies, create_params, prepare_call, enter_call, connect_group, connect_call}

-- No chat stands twice among the presentations or the chats in which an administrator muted the
-- assistant, and nobody waits for a connection.
pub record IsSettled (s : AssistantAccount) : Type 0 where
  pub presented : Distinct s.presentations
  pub muted : Distinct s.muted_by_admin
  pub unwaited : (chat : ℤ) → lookup chat s.wait_connect ≡ none

contains-std_remove :
    (xs : List ℤ) (v a : ℤ) → contains (std_remove xs v) a ≡ (not (v == a) && contains xs a)
unfolding std_remove
contains-std_remove [] v a = ground arith
contains-std_remove (x ∷ xs) v a =
    ground (arith, contains-std_remove xs v a, int_beq_iff x v, int_beq_iff x a, int_beq_iff v a)

pub std_remove-Distinct : (xs : List ℤ) (v : ℤ) → Distinct xs → Distinct (std_remove xs v)
unfolding std_remove
std_remove-Distinct [] v d = tt
std_remove-Distinct (x ∷ xs) v d =
    ground (arith, std_remove-Distinct xs v d.1, contains-std_remove xs v x)

-- Two states that differ in nothing that settles them.
abbrev pub IsLike : AssistantAccount → AssistantAccount → Type 0
IsLike s t =
    (s.presentations ≡ t.presentations)
    × (s.muted_by_admin ≡ t.muted_by_admin)
    × (s.wait_connect ≡ t.wait_connect)

pub IsLike-trans : (s t u : AssistantAccount) → IsLike s t → IsLike t u → IsLike s u
IsLike-trans s t u h k = (h.0 ∙ k.0, h.1 ∙ k.1, h.2 ∙ k.2)

pub get_input_group_call-IsLike :
    (peer : Result Text InputPeer) (full : Result Text (Option InputGroupCall)) (chat : ℤ)
    (s : AssistantAccount)
    → IsLike (get_input_group_call peer full chat s).0 s
unfolding get_input_group_call
get_input_group_call-IsLike peer full chat s = (ground arith, ground arith, ground arith)

create_params-IsLike :
    (r : Replies) (chat : ℤ) (payload : Text) (s : AssistantAccount)
    → IsLike (create_params r chat payload s).0 s
unfolding create_params
create_params-IsLike r chat payload s = (ground arith, ground arith, ground arith)

prepare_call-IsLike :
    (r : Replies) (chat : ℤ) (payload : Text) (s : AssistantAccount)
    → IsLike (prepare_call r chat payload s).0 s
unfolding prepare_call
prepare_call-IsLike r chat payload s =
    let (a, b, c) = create_params-IsLike r chat payload s in
    let s1 = call_native (sets_sources chat) (create_params r chat payload s).0 in
    let (d, e, f) = get_input_group_call-IsLike r.resolve_peer r.full_chat chat s1 in
    (ground arith, ground arith, ground arith)

enter_call-IsLike :
    (r : Replies) (chat : ℤ) (media : Media) (params : Text) (s : AssistantAccount)
    → IsLike (enter_call r chat media params s).0 s
unfolding enter_call
enter_call-IsLike r chat media params s = (ground arith, ground arith, ground arith)

connect_group-IsLike :
    (r : Replies) (chat : ℤ) (media : Media) (payload : Text) (s : AssistantAccount)
    → IsLike (connect_group r chat media payload s).0 s
unfolding connect_group
connect_group-IsLike r chat media payload s =
    let p = prepare_call r chat payload s in
    let (a, b, c) = prepare_call-IsLike r chat payload s in
    elim (Result-cases p.1) [
      | inr (x, e) ↦ (ground arith, ground arith, ground arith)
      | inl (params, e) ↦
          let (d, f, g) = enter_call-IsLike r chat media params p.0 in
          (ground arith, ground arith, ground arith)
    ]

-- A wait that is registered and forgotten leaves none.
pub wait-IsSettled :
    (chat : ℤ) (s t : AssistantAccount)
    → IsSettled s
    → Distinct t.presentations
    → Distinct t.muted_by_admin
    → t.wait_connect ≡ (register_wait chat s).wait_connect
    → IsSettled (forget_wait chat t)
unfolding register_wait forget_wait
wait-IsSettled chat s t h p m w = record {
  presented = p;
  muted = m;
  unwaited = λ j. ground (
    arith,
    h.unwaited j,
    lookup-delete chat j t.wait_connect,
    lookup-insert chat j s.made s.wait_connect,
  );
}

pub connect_call-IsSettled :
    (r : Replies) (chat : ℤ) (media : Media) (payload : Text) (s : AssistantAccount)
    → IsSettled s
    → IsSettled (connect_call r chat media payload s).0
unfolding connect_call register_wait
connect_call-IsSettled r chat media payload s h =
    let t = (connect_group r chat media payload (register_wait chat s)).0 in
    let (a, b, c) = connect_group-IsLike r chat media payload (register_wait chat s) in
    wait-IsSettled chat s t h (subst Distinct (sym a) h.presented) (subst Distinct (sym b) h.muted)
      c
