-- ===== src/Commands/Passing.antt =====
-- internal/bot/filters.go: whom adminMode lets pass.
use tg.Base.{List, true, false, Text, ℤ, ◌≡◌, ◌⊎◌, ok, contains, some, text_eq, int_eq}
use tg.Ttl
use tg.Admins.{
  ChatMember, MemberStatus, Rights, administrator, creator, get_user_admin, get_chat_admin_ids,
}
use tg.Db.Collection.{Collection}
use tg.Db.Cached.{Table}
use tg.Db.Chats.{Chat, mode_of, or_blank}
use tg.Db.Lists.{authorized}
use tg.Commands.Guards.{Answers, Known, admin_mode}

-- The owner of a group, or an administrator with the right to invite users.
abbrev pub MayInvite : MemberStatus → Type 0
MayInvite status =
    (status ≡ creator)
    ⊎ ((rights : Rights) × (status ≡ administrator (some rights))
        × (rights.can_invite_users ≡ true))

module _ (C : Collection ℤ Chat) where
  -- The mode that the collection has, or that of a chat without one.
  abbrev pub stored_mode : ℤ → Table C → Text
  stored_mode chat t = mode_of (or_blank (ok (C.find_one chat t.store))).admin_mode

module _ {C : Collection ℤ Chat} {D : Collection ℤ (List ℤ)} where
  -- The bot owns the group, or is an administrator there who may invite users: so GetUserAdmin says.
  abbrev pub BotMayInvite : Answers → ℤ → Known C D → Type 0
  BotMayInvite r chat s =
      (bot : ChatMember) × ((get_user_admin r.now r.members chat r.me false s.admins).1 ≡ ok bot)
      × MayInvite bot.status

  -- The list of administrators, which is asked for behind that, has the user.
  abbrev pub IsAdministrator : Answers → ℤ → ℤ → Known C D → Type 0
  IsAdministrator r chat user s =
      (ids : List ℤ) × ((get_chat_admin_ids r.now chat
          (get_user_admin r.now r.members chat r.me false s.admins).0).1
        ≡ ok ids)
      × (contains ids user ≡ true)

  abbrev pub MayPass : Answers → ℤ → ℤ → Known C D → Type 0
  MayPass r chat user s =
      IsAdministrator r chat user s ⊎ (contains (authorized D chat s.auth) user ≡ true)
