-- ===== src/Membership/Links.antt =====
-- internal/calls/membership.go: the cached invite links.
use tg.Base.{
  ℕ, ◌≡◌, List, [], ◌∷◌, some, Bool, true, false, Text, ℤ, text_eq, is_blank, format_int, arith,
  Result, ok, err, Option-cases, inl, inr, Result-cases, sym, subst,
}
use tg.Ttl
use tg.Ttl.{Cache}
use tg.Ttl.Held.{held, held-delete, held-set, held-get}
use tg.Admins.{
  get_user_admin, MemberStatus, administrator, creator, plain_member, left, banned, restricted,
  unknown_status,
}
use tg.Membership.Defs.{
  Caches, Telegram, MembershipError, update_membership, update_invite_link, clear_chat_cache,
  create_invite_link, resolve_invite_link, forget_chat, handle_join_error, retry_join,
  join_with_link, join_chat_with_invite, check_assistant_status, recover_banned_assistant, rejoin,
  act_on_status, ensure_assistant_member,
}

-- No cached link, expired or not, is empty.
abbrev pub HasLinks : Caches → Type 0
HasLinks s = (key link : Text) → held key s.invite_cache ≡ some link → is_blank link ≡ false

pub update_invite_link-HasLinks :
    (now : ℕ) (chat : ℤ) (link : Text) (s : Caches)
    → HasLinks s
    → HasLinks (update_invite_link now chat link s)
unfolding update_invite_link
update_invite_link-HasLinks now chat link s h key l e = ground (
  arith,
  h key l,
  held-delete (format_int chat) key s.invite_cache,
  held-set now (format_int chat) key link s.invite_cache,
)

create_invite_link-HasLinks :
    (t : Telegram) (n : ℕ) (chat : ℤ) (s : Caches)
    → HasLinks s
    → HasLinks (create_invite_link t n chat s).0
unfolding create_invite_link
create_invite_link-HasLinks t n chat s h key l e = elim (Result-cases (t.invite n)) [
  | inr (x, f) ↦ ground (arith, h key l)
  | inl (link, f) ↦
      ground (arith, h key l, update_invite_link-HasLinks (t.clock n) chat link s h key l)
]

resolve_invite_link-HasLinks :
    (t : Telegram) (n : ℕ) (chat : ℤ) (s : Caches)
    → HasLinks s
    → HasLinks (resolve_invite_link t n chat s).0
unfolding resolve_invite_link
resolve_invite_link-HasLinks t n chat s h key l e =
    let c = (Ttl.get (t.clock n) (t.clock n) (format_int chat) s.invite_cache).0 in
    let s' : Caches = record s { invite_cache = c } in
    let h' : HasLinks s' =
      λ k m g. h k m (held-get (t.clock n) (format_int chat) k s.invite_cache m g) in
    ground (arith, h' key l, create_invite_link-HasLinks t n chat s' h' key l)

forget_chat-HasLinks :
    (t : Telegram) (chat user : ℤ) (s : Caches) → HasLinks s → HasLinks (forget_chat t chat user s)
unfolding forget_chat update_membership
forget_chat-HasLinks t chat user s h key l e =
    ground (arith, h key l, held-delete (format_int chat) key s.invite_cache)

handle_join_error-HasLinks :
    (t : Telegram) (chat user : ℤ) (e : Text) (s : Caches)
    → HasLinks s
    → HasLinks (handle_join_error t chat user e s).0
unfolding handle_join_error update_membership
handle_join_error-HasLinks t chat user e s h key l g =
    ground (arith, h key l, forget_chat-HasLinks t chat user s h key l)

retry_join-HasLinks :
    (t : Telegram) (chat user : ℤ) (e : Text) (r : Caches × Result MembershipError Text)
    → HasLinks r.0
    → HasLinks (retry_join t chat user e r).0
unfolding retry_join update_membership
retry_join-HasLinks t chat user e (s, err f) h key l g =
    handle_join_error-HasLinks t chat user e s h key l g
retry_join-HasLinks t chat user e (s, ok link) h key l g = elim (Option-cases (t.join 1 link)) [
  | inl f ↦ ground (arith, h key l)
  | inr (e', f) ↦ ground (arith, handle_join_error-HasLinks t chat user e' s h key l)
]

join_with_link-HasLinks :
    (t : Telegram) (chat user : ℤ) (custom link : Text) (s : Caches)
    → HasLinks s
    → HasLinks (join_with_link t chat user custom link s).0
unfolding join_with_link
join_with_link-HasLinks t chat user custom link s h key l g =
    let s' = update_membership (t.clock 2) chat user plain_member s in
    let h' : HasLinks s' = unfold update_membership in h in
    let s1 = update_invite_link (t.clock 1) chat [] s in
    let h1 : HasLinks s1 = update_invite_link-HasLinks (t.clock 1) chat [] s h in
    elim (Option-cases (t.join 0 link)) [
      | inl f ↦
          ground (arith, h' key l, update_invite_link-HasLinks (t.clock 2) chat custom s' h' key l)
      | inr (e, f) ↦ ground (
        arith,
        handle_join_error-HasLinks t chat user e s h key l,
        retry_join-HasLinks t chat user e (resolve_invite_link t 1 chat s1)
            (resolve_invite_link-HasLinks t 1 chat s1 h1) key l,
      )
    ]

pub join_chat_with_invite-HasLinks :
    (t : Telegram) (chat user : ℤ) (custom : Text) (s : Caches)
    → HasLinks s
    → HasLinks (join_chat_with_invite t chat user custom s).0
unfolding join_chat_with_invite
join_chat_with_invite-HasLinks t chat user custom s h key l g =
    let r = resolve_invite_link t 0 chat s in
    let h' = resolve_invite_link-HasLinks t 0 chat s h in
    elim (Result-cases r.1) [
      | inr (x, f) ↦
          ground (arith, h' key l, join_with_link-HasLinks t chat user custom custom s h key l)
      | inl (found, f) ↦ ground (
        arith,
        join_with_link-HasLinks t chat user custom custom s h key l,
        join_with_link-HasLinks t chat user custom found r.0 h' key l,
      )
    ]

check_assistant_status-invites :
    (t : Telegram) (index : ℕ) (chat user : ℤ) (s : Caches)
    → (check_assistant_status t index chat user s).0.invite_cache ≡ s.invite_cache
unfolding check_assistant_status update_membership
check_assistant_status-invites t index chat user s = ground arith

rejoin-HasLinks :
    (t : Telegram) (chat user : ℤ) (s : Caches) → HasLinks s → HasLinks (rejoin t chat user s).0
unfolding rejoin update_membership
rejoin-HasLinks t chat user s h key l g =
    ground (arith, join_chat_with_invite-HasLinks t chat user [] s h key l)

recover-HasLinks :
    (t : Telegram) (chat user : ℤ) (is_banned : Bool) (s : Caches)
    → HasLinks s
    → HasLinks (recover_banned_assistant t chat user is_banned s).0
unfolding recover_banned_assistant
recover-HasLinks t chat user is_banned s h key l g =
    let a = (get_user_admin (t.clock 1) t.search_admins chat t.bot_id false s.admin_cache).0 in
    let s' : Caches = record s { admin_cache = a } in
    ground (arith, h key l, rejoin-HasLinks t chat user s' h key l)

act_on_status-HasLinks :
    (t : Telegram) (chat user : ℤ) (status : MemberStatus) (s : Caches)
    → HasLinks s
    → HasLinks (act_on_status t chat user status s).0
unfolding act_on_status
act_on_status-HasLinks t chat user (administrator r) s h = h
act_on_status-HasLinks t chat user creator s h = h
act_on_status-HasLinks t chat user plain_member s h = h
act_on_status-HasLinks t chat user left s h = join_chat_with_invite-HasLinks t chat user [] s h
act_on_status-HasLinks t chat user banned s h = recover-HasLinks t chat user true s h
act_on_status-HasLinks t chat user restricted s h = recover-HasLinks t chat user false s h
act_on_status-HasLinks t chat user unknown_status s h =
    join_chat_with_invite-HasLinks t chat user [] s h

ensure-HasLinks :
    (t : Telegram) (index : ℕ) (chat user : ℤ) (s : Caches)
    → HasLinks s
    → HasLinks (ensure_assistant_member t index chat user s).0
unfolding ensure_assistant_member
ensure-HasLinks t index chat user s h key l g =
    let r = check_assistant_status t index chat user s in
    let h' : HasLinks r.0 =
      subst (λ (c : Cache Text). (k m : Text) → held k c ≡ some m → is_blank m ≡ false)
        (sym (check_assistant_status-invites t index chat user s)) h in
    elim (Result-cases r.1) [
      | inr (x, f) ↦ ground (arith, h' key l)
      | inl (status, f) ↦ ground (arith, act_on_status-HasLinks t chat user status r.0 h' key l)
    ]

-- A call that touches the caches, with what Telegram answers to it.
pub data Call : Type 0 where
  ensures : Telegram → ℕ → ℤ → ℤ → Call
  joins : Telegram → ℤ → ℤ → Text → Call
  updates_link : ℕ → ℤ → Text → Call
  updates_status : ℕ → ℤ → ℤ → MemberStatus → Call
  clears : ℤ → List ℤ → Call

unfoldable pub step : Call → Caches → Caches
step (ensures t index chat user) s = (ensure_assistant_member t index chat user s).0
step (joins t chat user custom) s = (join_chat_with_invite t chat user custom s).0
step (updates_link now chat link) s = update_invite_link now chat link s
step (updates_status now chat user status) s = update_membership now chat user status s
step (clears chat users) s = clear_chat_cache chat users s

unfoldable pub run : List Call → Caches → Caches
unfolding step
run [] s = s
run (c ∷ calls) s = run calls (step c s)

clear_chat_cache-HasLinks :
    (chat : ℤ) (users : List ℤ) (s : Caches) → HasLinks s → HasLinks (clear_chat_cache chat users s)
unfolding clear_chat_cache
clear_chat_cache-HasLinks chat users s h key l g =
    ground (arith, h key l, held-delete (format_int chat) key s.invite_cache)

step-HasLinks : (c : Call) (s : Caches) → HasLinks s → HasLinks (step c s)
unfolding step update_membership
step-HasLinks (ensures t index chat user) s h = ensure-HasLinks t index chat user s h
step-HasLinks (joins t chat user custom) s h = join_chat_with_invite-HasLinks t chat user custom s h
step-HasLinks (updates_link now chat link) s h = update_invite_link-HasLinks now chat link s h
step-HasLinks (updates_status now chat user status) s h = h
step-HasLinks (clears chat users) s h = clear_chat_cache-HasLinks chat users s h

-- From caches without an empty invite link, and whatever is called, with whatever answers of
-- Telegram, no invite link that is cached is ever empty.
pub run-HasLinks : (calls : List Call) (s : Caches) → HasLinks s → HasLinks (run calls s)
unfolding run
run-HasLinks [] s h = h
run-HasLinks (c ∷ calls) s h = run-HasLinks calls (step c s) (step-HasLinks c s h)
