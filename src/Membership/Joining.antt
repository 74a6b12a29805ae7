-- ===== src/Membership/Joining.antt =====
-- internal/calls/membership.go: what a success of a join means.
use tg.Base.{
  ℕ, ◌≡◌, refl, [], none, some, Bool, true, false, ◌&&◌, Text, bytes, ℤ, if◌then◌else◌, text_eq,
  is_blank, is_positive, arith, Result, ok, err, Option-cases, Bool-cases, Result-cases, inl, inr,
  has_part, ◌⊎◌, ==_refl,
}
use tg.Ttl.Held.{held, held-set}
use tg.Admins.{MemberStatus, plain_member, get_user_admin}
use tg.Membership.Defs.{
  Caches, Telegram, MembershipError, Outcome, membership_key, update_membership, update_invite_link,
  resolve_invite_link, handle_join_error, retry_join, join_with_link, join_chat_with_invite,
  recover_banned_assistant, rejoin, is_active_member, is_dead_link, may_restrict, recovery_error,
}

abbrev pub already_in : Text → Bool
already_in e = has_part e (bytes "USER_ALREADY_PARTICIPANT")

abbrev pub asked : Text → Bool
asked e = has_part e (bytes "INVITE_REQUEST_SENT")

-- Telegram let the assistant in: a JoinChannel went through, or it said that the assistant is in the
-- chat, or it took a request to join, which the bot then approved.
abbrev pub IsLetIn : Telegram → Type 0
IsLetIn t =
    (n : ℕ) × (link : Text) × ((t.join n link ≡ none)
      ⊎ ((e : Text) × (t.join n link ≡ some e)
          × ((already_in e ≡ true) ⊎ ((asked e ≡ true) × (t.approve ≡ none)))))

-- The cache has the assistant as a member.
abbrev pub IsRemembered : ℤ → ℤ → Caches → Type 0
IsRemembered chat user s =
    (status : MemberStatus) × (held (membership_key chat user) s.status_cache ≡ some status)
    × (is_active_member status ≡ true)

-- A join request was approved.
abbrev pub IsApproved : Telegram → Type 0
IsApproved t = t.approve ≡ none

-- A success of a join is one by Telegram, and the cache knows of it, unless a request was approved.
abbrev pub Succeeds : Telegram → ℤ → ℤ → Outcome → Type 0
Succeeds t chat user r = r.1 ≡ none → IsLetIn t × (IsRemembered chat user r.0 ⊎ IsApproved t)

pub update_membership-IsRemembered :
    (now : ℕ) (chat user : ℤ) (status : MemberStatus) (s : Caches)
    → is_active_member status ≡ true
    → IsRemembered chat user (update_membership now chat user status s)
unfolding update_membership
update_membership-IsRemembered now chat user status s h =
    let key = membership_key chat user in
    (status, ground (arith, held-set now key key status s.status_cache, ==_refl key), h)

handle_join_error-Succeeds :
    (t : Telegram) (chat user : ℤ) (n : ℕ) (link e : Text) (s : Caches)
    → t.join n link ≡ some e
    → Succeeds t chat user (handle_join_error t chat user e s)
unfolding handle_join_error
handle_join_error-Succeeds t chat user n link e s h f = elim (Bool-cases (asked e)) [
  | inl a ↦
      let approved : t.approve ≡ none = ground arith in
      ((n, link, inr (e, h, inr (a, approved))), inr approved)
  | inr a ↦ elim (Bool-cases (already_in e)) [
    | inl b ↦
        let limited : is_positive (t.flood_wait e) ≡ false = ground arith in
        (
          (n, link, inr (e, h, inl b)),
          inl (
              rw (limited, handle_join_error, a, b)
                (update_membership-IsRemembered (t.clock 3) chat user plain_member s refl)),
        )
    | inr b ↦ absurd (ground arith)
  ]
]

retry_join-Succeeds :
    (t : Telegram) (chat user : ℤ) (link e : Text) (r : Caches × Result MembershipError Text)
    → t.join 0 link ≡ some e
    → Succeeds t chat user (retry_join t chat user e r)
unfolding retry_join
retry_join-Succeeds t chat user link e (s, err x) h f =
    handle_join_error-Succeeds t chat user 0 link e s h f
retry_join-Succeeds t chat user link e (s, ok fresh) h f = elim (Option-cases (t.join 1 fresh)) [
  | inl g ↦ (
    (1, fresh, inl g),
    inl (
        rw (g, retry_join)
          (update_membership-IsRemembered (t.clock 2) chat user plain_member s refl)),
  )
  | inr (e', g) ↦
      rw (g, retry_join)
        (handle_join_error-Succeeds t chat user 1 fresh e' s g (unfold retry_join in ground arith))
]

update_invite_link-IsRemembered :
    (now : ℕ) (chat user : ℤ) (link : Text) (b : Bool) (s : Caches)
    → IsRemembered chat user s
    → IsRemembered chat user (if b then s else update_invite_link now chat link s)
unfolding update_invite_link
update_invite_link-IsRemembered now chat user link true s h = h
update_invite_link-IsRemembered now chat user link false s (status, h, a) =
    (status, ground arith, a)

join_with_link-Succeeds :
    (t : Telegram) (chat user : ℤ) (custom link : Text) (s : Caches)
    → Succeeds t chat user (join_with_link t chat user custom link s)
unfolding join_with_link
join_with_link-Succeeds t chat user custom link s f = elim (Option-cases (t.join 0 link)) [
  | inl g ↦ (
    (0, link, inl g),
    inl (
        rw (g, join_with_link)
          (update_invite_link-IsRemembered (t.clock 2) chat user custom (is_blank custom) _
            (update_membership-IsRemembered (t.clock 2) chat user plain_member s refl))),
  )
  | inr (e, g) ↦ elim (Bool-cases (is_blank custom && is_dead_link e)) [
    | inl d ↦
        rw (g, join_with_link, d)
          (retry_join-Succeeds t chat user link e
            (resolve_invite_link t 1 chat (update_invite_link (t.clock 1) chat [] s)) g
            (unfold join_with_link in ground arith))
    | inr d ↦
        rw (g, join_with_link, d)
          (handle_join_error-Succeeds t chat user 0 link e s g
            (unfold join_with_link in ground arith))
  ]
]

pub join_chat_with_invite-Succeeds :
    (t : Telegram) (chat user : ℤ) (custom : Text) (s : Caches)
    → Succeeds t chat user (join_chat_with_invite t chat user custom s)
unfolding join_chat_with_invite
join_chat_with_invite-Succeeds t chat user custom s f = elim (Bool-cases (is_blank custom)) [
  | inr b ↦
      rw (b, join_chat_with_invite)
        (join_with_link-Succeeds t chat user custom custom s
          (unfold join_chat_with_invite in ground arith))
  | inl b ↦
      let r = resolve_invite_link t 0 chat s in
      elim (Result-cases r.1) [
        | inr (x, g) ↦ absurd (unfold join_chat_with_invite in ground arith)
        | inl (found, g) ↦
            rw (b, join_chat_with_invite, g)
              (join_with_link-Succeeds t chat user custom found r.0
                (unfold join_chat_with_invite in ground arith))
      ]
]

pub rejoin-Succeeds :
    (t : Telegram) (chat user : ℤ) (s : Caches) → Succeeds t chat user (rejoin t chat user s)
unfolding rejoin
rejoin-Succeeds t chat user s f =
    let r = join_chat_with_invite t chat user [] s in
    elim (Option-cases r.1) [
      | inr (x, g) ↦ absurd (unfold rejoin in ground arith)
      | inl g ↦ (
        (join_chat_with_invite-Succeeds t chat user [] s g).0,
        inl (
            rw (g, rejoin)
              (update_membership-IsRemembered (t.clock 4) chat user plain_member r.0 refl)),
      )
    ]

pub recover-Succeeds :
    (t : Telegram) (chat user : ℤ) (is_banned : Bool) (s : Caches)
    → Succeeds t chat user (recover_banned_assistant t chat user is_banned s)
unfolding recover_banned_assistant
recover-Succeeds t chat user is_banned s f =
    let a = get_user_admin (t.clock 1) t.search_admins chat t.bot_id false s.admin_cache in
    let s' : Caches = record s { admin_cache = a.0 } in
    elim (Result-cases a.1) [
      | inr (x, g) ↦ absurd (unfold recover_banned_assistant in ground arith)
      | inl (m, g) ↦ elim (Bool-cases (may_restrict m.status)) [
        | inr b ↦ absurd (unfold recover_banned_assistant in ground arith)
        | inl b ↦ elim (Option-cases (recovery_error is_banned t.unban)) [
          | inr (x, k) ↦ absurd (unfold recover_banned_assistant in ground arith)
          | inl k ↦
              rw (g, recover_banned_assistant, b, k)
                (rejoin-Succeeds t chat user s' (unfold recover_banned_assistant in ground arith))
        ]
      ]
    ]
