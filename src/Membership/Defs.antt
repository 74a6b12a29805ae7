-- ===== src/Membership/Defs.antt =====
-- internal/calls/membership.go: how an assistant becomes a member of a chat. What the Telegram
-- libraries answer is chosen by `Telegram`. An error of the code is a constructor that names its
-- message, with what the message mentions.
use tg.Base.{
  ℕ, List, [], ◌∷◌, ◌++◌, Option, none, some, Bool, true, false, not, ◌&&◌, ◌||◌, Text, bytes, ℤ,
  is_positive, if◌then◌else◌, text_eq, int_eq, nat_eq, is_blank, format_int, has_part, Result, ok,
  err,
}
use tg.Ttl
use tg.Ttl.{Cache}
use tg.Admins.{
  AdminCache, AdminError, ChatMember, MemberStatus, administrator, creator, plain_member, left,
  banned, restricted, unknown_status, not_administrator, get_user_admin,
}

-- The caches that the code goes by.
pub record Caches : Type 0 where
  pub status_cache : Cache MemberStatus
  pub invite_cache : Cache Text
  pub admin_cache : AdminCache

-- The answers of a call: the clock at each use of a cache, the member that GetChatMember finds, what
-- CreateChatInviteLink and JoinChannel answer, by the number of the attempt, the flood wait that an
-- error asks for, and the errors of SetChatMemberStatus and ProcessChatJoinRequest.
pub record Telegram : Type 0 where
  pub clock : ℕ → ℕ
  pub member : Result Text MemberStatus
  pub invite : ℕ → Result Text Text
  pub join : ℕ → Text → Option Text
  pub flood_wait : Text → ℤ
  pub search_admins : Result Text (List ChatMember)
  pub bot_id : ℤ
  pub unban : Option Text
  pub approve : Option Text

pub data MembershipError : Type 0 where
  status_unknown : ℕ → Text → MembershipError
  no_invite_link : ℤ → Text → MembershipError
  empty_invite_link : MembershipError
  join_limited : ℤ → MembershipError
  not_approved link_expired link_invalid : MembershipError
  no_access in_ban_list : ℤ → MembershipError
  not_joined : ℤ → Text → MembershipError
  bot_no_admin : ℤ → MembershipError
  permissions_unknown : AdminError → MembershipError
  no_ban_permission : ℤ → MembershipError
  not_unbanned not_lifted : Text → MembershipError

-- A call's new caches and its error, if any.
abbrev pub Outcome : Type 0
Outcome = Caches × Option MembershipError

unfoldable pub membership_key : ℤ → ℤ → Text
membership_key chat user = format_int chat ++ b':' ∷ format_int user

unfoldable pub update_membership : ℕ → ℤ → ℤ → MemberStatus → Caches → Caches
unfolding membership_key
update_membership now chat user status s = record s {
  status_cache = Ttl.set now (membership_key chat user) status s.status_cache;
}

unfoldable pub update_invite_link : ℕ → ℤ → Text → Caches → Caches
update_invite_link now chat link s =
    if is_blank link
    then record s { invite_cache = Ttl.delete (format_int chat) s.invite_cache }
    else record s { invite_cache = Ttl.set now (format_int chat) link s.invite_cache }

-- The loop of ClearChatCache, over the ids of the assistants that are logged in.
unfoldable pub clear_statuses : ℤ → List ℤ → Cache MemberStatus → Cache MemberStatus
unfolding membership_key
clear_statuses chat [] c = c
clear_statuses chat (user ∷ users) c =
    clear_statuses chat users (Ttl.delete (membership_key chat user) c)

unfoldable pub clear_chat_cache : ℤ → List ℤ → Caches → Caches
unfolding clear_statuses
clear_chat_cache chat users s = record s {
  invite_cache = Ttl.delete (format_int chat) s.invite_cache;
  status_cache = clear_statuses chat users s.status_cache;
}

abbrev pub is_active_member : MemberStatus → Bool
is_active_member (administrator r) = true
is_active_member creator = true
is_active_member plain_member = true
is_active_member _ = false

-- The new link, once the cache has missed.
unfoldable pub create_invite_link : Telegram → ℕ → ℤ → Caches → Caches × Result MembershipError Text
unfolding update_invite_link
create_invite_link t n chat s = elim (t.invite n) [
  | err e ↦ (s, err (no_invite_link chat e))
  | ok link ↦
      if is_blank link
      then (s, err empty_invite_link)
      else (update_invite_link (t.clock n) chat link s, ok link)
]

unfoldable pub resolve_invite_link :
    Telegram → ℕ → ℤ → Caches → Caches × Result MembershipError Text
unfolding create_invite_link
resolve_invite_link t n chat s =
    let (c, found) = Ttl.get (t.clock n) (t.clock n) (format_int chat) s.invite_cache in
    let s' = record s { invite_cache = c } in
    elim found [
      | none ↦ create_invite_link t n chat s'
      | some link ↦ if is_blank link then create_invite_link t n chat s' else (s', ok link)
    ]

-- The end of handleJoinError where the link is dead or the chat cannot be seen.
unfoldable pub forget_chat : Telegram → ℤ → ℤ → Caches → Caches
unfolding update_membership
forget_chat t chat user s =
    update_membership (t.clock 3) chat user left
      (record s { invite_cache = Ttl.delete (format_int chat) s.invite_cache })

unfoldable pub handle_join_error : Telegram → ℤ → ℤ → Text → Caches → Outcome
unfolding update_membership forget_chat
handle_join_error t chat user e s =
    if is_positive (t.flood_wait e)
    then (s, some (join_limited (t.flood_wait e)))
    else if has_part e (bytes "INVITE_REQUEST_SENT")
    then elim t.approve [ none ↦ (s, none) | some f ↦ (s, some not_approved) ]
    else if has_part e (bytes "USER_ALREADY_PARTICIPANT")
    then (update_membership (t.clock 3) chat user plain_member s, none)
    else if has_part e (bytes "INVITE_HASH_EXPIRED")
    then (forget_chat t chat user s, some link_expired)
    else if has_part e (bytes "CHANNEL_PRIVATE")
    then (forget_chat t chat user s, some (no_access user))
    else if has_part e (bytes "USER_BANNED_IN_CHANNEL")
    then (s, some (in_ban_list user))
    else if has_part e (bytes "INVITE_HASH_INVALID")
    then (s, some link_invalid)
    else (s, some (not_joined user e))

abbrev pub is_dead_link : Text → Bool
is_dead_link e =
    has_part e (bytes "INVITE_HASH_EXPIRED") || has_part e (bytes "INVITE_HASH_INVALID")

-- The second attempt, with a fresh link, where there is one.
unfoldable pub retry_join : Telegram → ℤ → ℤ → Text → Caches × Result MembershipError Text → Outcome
unfolding update_membership handle_join_error
retry_join t chat user e (s, err f) = handle_join_error t chat user e s
retry_join t chat user e (s, ok link) = elim (t.join 1 link) [
  | none ↦ (update_membership (t.clock 2) chat user plain_member s, none)
  | some e' ↦ handle_join_error t chat user e' s
]

-- joinChatWithInvite with the link it goes by.
unfoldable pub join_with_link : Telegram → ℤ → ℤ → Text → Text → Caches → Outcome
unfolding update_membership update_invite_link resolve_invite_link handle_join_error retry_join
join_with_link t chat user custom link s = elim (t.join 0 link) [
  | none ↦
      let s' = update_membership (t.clock 2) chat user plain_member s in
      (if is_blank custom then s' else update_invite_link (t.clock 2) chat custom s', none)
  | some e ↦
      if is_blank custom && is_dead_link e
      then retry_join t chat user e
          (resolve_invite_link t 1 chat (update_invite_link (t.clock 1) chat [] s))
      else handle_join_error t chat user e s
]

unfoldable pub join_chat_with_invite : Telegram → ℤ → ℤ → Text → Caches → Outcome
unfolding resolve_invite_link join_with_link
join_chat_with_invite t chat user custom s =
    if is_blank custom
    then (let (s', link) = resolve_invite_link t 0 chat s in
        elim link [ err e ↦ (s', some e) | ok found ↦ join_with_link t chat user custom found s' ])
    else join_with_link t chat user custom custom s

unfoldable pub check_assistant_status :
    Telegram → ℕ → ℤ → ℤ → Caches → Caches × Result MembershipError MemberStatus
unfolding membership_key update_membership
check_assistant_status t index chat user s =
    let (c, found) = Ttl.get (t.clock 0) (t.clock 0) (membership_key chat user) s.status_cache in
    let s' = record s { status_cache = c } in
    elim found [
      | some status ↦ (s', ok status)
      | none ↦ elim t.member [
        | ok status ↦ (update_membership (t.clock 0) chat user status s', ok status)
        | err e ↦
            if has_part e (bytes "USER_NOT_PARTICIPANT")
            then (update_membership (t.clock 0) chat user left s', ok left)
            else (s', err (status_unknown index e))
      ]
    ]

abbrev pub may_restrict : MemberStatus → Bool
may_restrict (administrator (some rights)) = rights.can_restrict_members
may_restrict _ = false

abbrev pub permission_error : ℤ → AdminError → MembershipError
permission_error user (not_administrator u c) = bot_no_admin user
permission_error user e = permissions_unknown e

-- The error of SetChatMemberStatus, unless it can be passed over.
abbrev pub recovery_error : Bool → Option Text → Option MembershipError
recovery_error is_banned none = none
recovery_error is_banned (some e) =
    if not is_banned || not (has_part e (bytes "Bots can't add new chat members"))
    then some (if is_banned then not_unbanned e else not_lifted e)
    else none

-- The end of recoverBannedAssistant: the join, and the status after it.
unfoldable pub rejoin : Telegram → ℤ → ℤ → Caches → Outcome
unfolding join_chat_with_invite update_membership
rejoin t chat user s =
    let (s', failed) = join_chat_with_invite t chat user [] s in
    elim failed [
      | some e ↦ (s', some e)
      | none ↦ (update_membership (t.clock 4) chat user plain_member s', none)
    ]

unfoldable pub recover_banned_assistant : Telegram → ℤ → ℤ → Bool → Caches → Outcome
unfolding rejoin
recover_banned_assistant t chat user is_banned s =
    let (a, found) = get_user_admin (t.clock 1) t.search_admins chat t.bot_id false s.admin_cache in
    let s' = record s { admin_cache = a } in
    elim found [
      | err e ↦ (s', some (permission_error user e))
      | ok m ↦
          if may_restrict m.status
          then elim (recovery_error is_banned t.unban) [
            | some e ↦ (s', some e)
            | none ↦ rejoin t chat user s'
          ]
          else (s', some (no_ban_permission user))
    ]

-- The switch of ensureAssistantMember.
unfoldable pub act_on_status : Telegram → ℤ → ℤ → MemberStatus → Caches → Outcome
unfolding join_chat_with_invite recover_banned_assistant
act_on_status t chat user (administrator r) s = (s, none)
act_on_status t chat user creator s = (s, none)
act_on_status t chat user plain_member s = (s, none)
act_on_status t chat user left s = join_chat_with_invite t chat user [] s
act_on_status t chat user banned s = recover_banned_assistant t chat user true s
act_on_status t chat user restricted s = recover_banned_assistant t chat user false s
act_on_status t chat user unknown_status s = join_chat_with_invite t chat user [] s

unfoldable pub ensure_assistant_member : Telegram → ℕ → ℤ → ℤ → Caches → Outcome
unfolding check_assistant_status act_on_status
ensure_assistant_member t index chat user s =
    let (s', found) = check_assistant_status t index chat user s in
    elim found [ err e ↦ (s', some e) | ok status ↦ act_on_status t chat user status s' ]
