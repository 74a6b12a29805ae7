-- ===== src/Membership/Joined.antt =====
-- internal/calls/membership.go: what a success means.
use tg.Base.{
  ℕ, ◌≡◌, refl, [], none, some, true, false, Text, ℤ, text_eq, arith, ok, Option-cases,
  Result-cases, inl, inr, ◌⊎◌, ==_refl,
}
use tg.Ttl
use tg.Ttl.{Cache, get_rest}
use tg.Ttl.Held.{held, held-set, get-held}
use tg.Admins.{
  MemberStatus, administrator, creator, plain_member, left, banned, restricted, unknown_status,
}
use tg.Membership.Defs.{
  Caches, Telegram, membership_key, update_membership, check_assistant_status, act_on_status,
  ensure_assistant_member, is_active_member,
}
use tg.Membership.Joining.{
  IsLetIn, IsRemembered, IsApproved, Succeeds, recover-Succeeds, join_chat_with_invite-Succeeds,
}

-- Telegram says that the assistant is a member.
abbrev pub IsMember : Telegram → Type 0
IsMember t = (status : MemberStatus) × (t.member ≡ ok status) × (is_active_member status ≡ true)

get-stays :
    (now : ℕ) (key : Text) (c : Cache MemberStatus) (status : MemberStatus)
    → (Ttl.get now now key c).1 ≡ some status
    → held key (Ttl.get now now key c).0 ≡ some status
unfolding Ttl.get Ttl.get_rest
get-stays now key c status h = ground arith

-- The status that was found stands in the cache.
check-held :
    (t : Telegram) (index : ℕ) (chat user : ℤ) (s : Caches) (status : MemberStatus)
    → (check_assistant_status t index chat user s).1 ≡ ok status
    → held (membership_key chat user) (check_assistant_status t index chat user s).0.status_cache
      ≡ some status
unfolding check_assistant_status update_membership
check-held t index chat user s status h =
    let now = t.clock 0 in
    let key = membership_key chat user in
    let c = (Ttl.get now now key s.status_cache).0 in
    elim (Option-cases (Ttl.get now now key s.status_cache).1) [
      | inr (v, e) ↦ ground (arith, get-stays now key s.status_cache v e)
      | inl e ↦ elim (Result-cases t.member) [
        | inl (v, f) ↦ ground (arith, held-set now key key v c, ==_refl key)
        | inr (x, f) ↦ ground (arith, held-set now key key left c, ==_refl key)
      ]
    ]

-- An active status was cached, or Telegram gave it.
check-known :
    (t : Telegram) (index : ℕ) (chat user : ℤ) (s : Caches) (status : MemberStatus)
    → (check_assistant_status t index chat user s).1 ≡ ok status
    → is_active_member status ≡ true
    → IsRemembered chat user s ⊎ IsMember t
unfolding check_assistant_status
check-known t index chat user s status h a =
    let now = t.clock 0 in
    let key = membership_key chat user in
    elim (Option-cases (Ttl.get now now key s.status_cache).1) [
      | inr (v, e) ↦
          let same : v ≡ status = ground arith in
          inl (v, get-held now key s.status_cache v e, ground arith)
      | inl e ↦ elim (Result-cases t.member) [
        | inl (v, f) ↦ inr (v, f, ground arith)
        | inr (x, f) ↦ absurd (ground arith)
      ]
    ]

act_on_status-Succeeds :
    (t : Telegram) (chat user : ℤ) (status : MemberStatus) (s : Caches)
    → (is_active_member status ≡ true) ⊎ Succeeds t chat user (act_on_status t chat user status s)
unfolding act_on_status
act_on_status-Succeeds t chat user (administrator r) s = inl refl
act_on_status-Succeeds t chat user creator s = inl refl
act_on_status-Succeeds t chat user plain_member s = inl refl
act_on_status-Succeeds t chat user left s = inr (join_chat_with_invite-Succeeds t chat user [] s)
act_on_status-Succeeds t chat user banned s = inr (recover-Succeeds t chat user true s)
act_on_status-Succeeds t chat user restricted s = inr (recover-Succeeds t chat user false s)
act_on_status-Succeeds t chat user unknown_status s =
    inr (join_chat_with_invite-Succeeds t chat user [] s)

act_on_status-active :
    (t : Telegram) (chat user : ℤ) (status : MemberStatus) (s : Caches)
    → is_active_member status ≡ true
    → act_on_status t chat user status s ≡ (s, none)
unfolding act_on_status
act_on_status-active t chat user status s h = ground arith

-- When ensureAssistantMember reports success, the assistant was cached as a member, or Telegram
-- says that it is one, or let it in through a link, where the request was approved if there was
-- one; and afterwards the cache has it as a member, unless a join request could be approved.
pub ensure_assistant_member_lem :
    (t : Telegram) (index : ℕ) (chat user : ℤ) (s : Caches)
    → (ensure_assistant_member t index chat user s).1 ≡ none
    → ((IsRemembered chat user s ⊎ IsMember t) ⊎ IsLetIn t)
      × (IsRemembered chat user (ensure_assistant_member t index chat user s).0 ⊎ IsApproved t)
unfolding ensure_assistant_member
ensure_assistant_member_lem t index chat user s h =
    let r = check_assistant_status t index chat user s in
    elim (Result-cases r.1) [
      | inr (x, e) ↦ absurd (unfold ensure_assistant_member in ground arith)
      | inl (status, e) ↦ elim (act_on_status-Succeeds t chat user status r.0) [
        | inl a ↦
            let done = act_on_status-active t chat user status r.0 a in
            let kept = check-held t index chat user s status e in
            (
              inl (check-known t index chat user s status e a),
              inl (rw (e, ensure_assistant_member, done) (status, kept, a)),
            )
        | inr k ↦
            let good = k (unfold ensure_assistant_member in ground arith) in
            (inr good.0, rw (e, ensure_assistant_member) good.1)
      ]
    ]
