-- ===== src/Admins/Defs.antt =====
-- internal/cache/admins.go. The types of the Telegram library appear with the cases that the code
-- switches over, and one more for all others. A *td.ChatMember is a value or nil: no member is
-- changed after it was made. Each handler reads the clock once, so that the two readings of a Get
-- within it are one. What the server would answer to SearchChatMembers is an argument.
use tg.Base.{
  ℕ, List, [], ◌∷◌, ◌++◌, Option, none, some, Bool, true, false, Text, bytes, ℤ, pos, if◌then◌else◌,
  ◌==◌, int_eq, format_int, Result, ok, err, map, take, drop, set, suc,
}
use tg.Ttl
use tg.Ttl.{Cache}

pub data MessageSender : Type 0 where
  user : ℤ → MessageSender
  chat : ℤ → MessageSender
  unknown_sender : MessageSender

pub record Rights : Type 0 where
  pub can_change_info : Bool
  pub can_delete_messages : Bool
  pub can_delete_stories : Bool
  pub can_edit_messages : Bool
  pub can_edit_stories : Bool
  pub can_invite_users : Bool
  pub can_manage_chat : Bool
  pub can_manage_direct_messages : Bool
  pub can_manage_tags : Bool
  pub can_manage_topics : Bool
  pub can_manage_video_chats : Bool
  pub can_pin_messages : Bool
  pub can_post_messages : Bool
  pub can_post_stories : Bool
  pub can_promote_members : Bool
  pub can_restrict_members : Bool
  pub is_anonymous : Bool

pub data MemberStatus : Type 0 where
  administrator : Option Rights → MemberStatus
  creator plain_member left banned restricted unknown_status : MemberStatus

pub record ChatMember : Type 0 where
  pub member_id : MessageSender
  pub status : MemberStatus

abbrev pub Members : Type 0
Members = List (Option ChatMember)

abbrev pub AdminCache : Type 0
AdminCache = Cache Members

pub data AdminError : Type 0 where
  not_cached : ℤ → AdminError
  fetch_failed : ℤ → Text → AdminError
  not_administrator unexpected_status : ℤ → ℤ → AdminError

abbrev pub all_creator_rights : Rights
all_creator_rights = record {
  can_change_info = true;
  can_delete_messages = true;
  can_delete_stories = true;
  can_edit_messages = true;
  can_edit_stories = true;
  can_invite_users = true;
  can_manage_chat = true;
  can_manage_direct_messages = true;
  can_manage_tags = true;
  can_manage_topics = true;
  can_manage_video_chats = true;
  can_pin_messages = true;
  can_post_messages = true;
  can_post_stories = true;
  can_promote_members = true;
  can_restrict_members = true;
  is_anonymous = false;
}

unfoldable pub admin_cache_key : ℤ → Text
admin_cache_key id = bytes "admins:" ++ format_int id

abbrev pub sender_id : MessageSender → Option ℤ
sender_id (user id) = some id
sender_id (chat id) = some id
sender_id unknown_sender = none

abbrev pub member_id_of : Option ChatMember → Option ℤ
member_id_of none = none
member_id_of (some m) = sender_id m.member_id

abbrev pub is_admin_status : MemberStatus → Bool
is_admin_status (administrator rights) = true
is_admin_status creator = true
is_admin_status _ = false

abbrev pub is_administrator : Option ChatMember → Bool
is_administrator none = false
is_administrator (some m) = is_admin_status m.status

-- `id, ok := memberID(member); ok && id == userID`
abbrev pub has_id : ℤ → Option ChatMember → Bool
has_id uid m = elim (member_id_of m) [ none ↦ false | some id ↦ id == uid ]

unfoldable pub ids_of : Members → List ℤ
ids_of [] = []
ids_of (m ∷ ms) =
    let rest = ids_of ms in elim (member_id_of m) [ none ↦ rest | some id ↦ id ∷ rest ]

unfoldable pub get_chat_admin_ids : ℕ → ℤ → AdminCache → AdminCache × Result AdminError (List ℤ)
unfolding ids_of
get_chat_admin_ids now id c =
    let (c', found) = Ttl.get now now (admin_cache_key id) c in
    (c', elim found [ none ↦ err (not_cached id) | some admins ↦ ok (ids_of admins) ])

-- GetAdmins once it has to ask the server.
unfoldable pub fetch_admins :
    ℕ → ℤ → Result Text (List ChatMember) → AdminCache → AdminCache × Result AdminError Members
fetch_admins now id (err e) c = (c, err (fetch_failed id e))
fetch_admins now id (ok members) c =
    let admins = map some members in (Ttl.set now (admin_cache_key id) admins c, ok admins)

unfoldable pub get_admins :
    ℕ
    → Result Text (List ChatMember)
    → ℤ
    → Bool
    → AdminCache
    → AdminCache × Result AdminError Members
unfolding fetch_admins
get_admins now answer id true c = fetch_admins now id answer c
get_admins now answer id false c =
    let (c', found) = Ttl.get now now (admin_cache_key id) c in
    elim found [ none ↦ fetch_admins now id answer c' | some admins ↦ (c', ok admins) ]

-- The loop of GetUserAdmin.
unfoldable pub find_admin : ℤ → Members → Option ChatMember
find_admin uid [] = none
find_admin uid (m ∷ ms) = if has_id uid m then m else find_admin uid ms

unfoldable pub get_user_admin :
    ℕ
    → Result Text (List ChatMember)
    → ℤ
    → ℤ
    → Bool
    → AdminCache
    → AdminCache × Result AdminError ChatMember
unfolding find_admin
get_user_admin now answer id uid force c =
    let (c', found) = get_admins now answer id force c in
    (
      c',
      elim found [
        | err e ↦ err e
        | ok admins ↦ elim (find_admin uid admins) [
          | none ↦ err (not_administrator uid id)
          | some m ↦ ok m
        ]
      ],
    )

-- The rights of a member; an administrator's may be nil.
abbrev pub rights_of : ℤ → ℤ → MemberStatus → Result AdminError (Option Rights)
rights_of id uid (administrator rights) = ok rights
rights_of id uid creator = ok (some all_creator_rights)
rights_of id uid _ = err (unexpected_status uid id)

unfoldable pub get_rights :
    ℕ
    → Result Text (List ChatMember)
    → ℤ
    → ℤ
    → Bool
    → AdminCache
    → AdminCache × Result AdminError (Option Rights)
get_rights now answer id uid force c =
    let (c', found) = get_user_admin now answer id uid force c in
    (c', elim found [ err e ↦ err e | ok m ↦ rights_of id uid m.status ])

unfoldable pub clear_admin_cache : ℤ → AdminCache → AdminCache
clear_admin_cache id c = if id == pos 0 then Ttl.clear c else Ttl.delete (admin_cache_key id) c

-- The index at which the loop of UpdateAdminCache stops.
unfoldable pub index_of : ℤ → Members → Option ℕ
index_of uid [] = none
index_of uid (m ∷ ms) =
    let rest = index_of uid ms in
    if has_id uid m then some 0 else elim rest [ none ↦ none | some i ↦ some (suc i) ]

-- The list that UpdateAdminCache stores, or `none` where it stores nothing.
unfoldable pub updated : ℤ → ChatMember → Members → Option Members
unfolding index_of
updated uid m admins = elim (index_of uid admins) [
  | some i ↦
      if is_administrator (some m)
      then some (set admins i (some m))
      else some (take i admins ++ drop (suc i) admins)
  | none ↦ if is_administrator (some m) then some (admins ++ some m ∷ []) else none
]

unfoldable pub update_admin_cache : ℕ → ℤ → Option ChatMember → AdminCache → AdminCache
unfolding updated
update_admin_cache now id none c = c
update_admin_cache now id (some m) c =
    let (c', found) = Ttl.get now now (admin_cache_key id) c in
    elim found [
      | none ↦ c'
      | some admins ↦ elim (sender_id m.member_id) [
        | none ↦ c'
        | some uid ↦ elim (updated uid m admins) [
          | none ↦ c'
          | some new ↦ Ttl.set now (admin_cache_key id) new c'
        ]
      ]
    ]
