-- ===== src/Commands/Guards.antt =====
-- internal/bot/filters.go: who may command the bot. What the server and the database answer is
-- `Answers`; the command that adminMode deletes is left out, and so are the replies.
use tg.Base.{
  ℕ, List, Option, some, Bool, true, false, Text, bytes, ℤ, if◌then◌else◌, ◌==◌, text_eq, int_eq,
  Result, ok, err,
}
use tg.Admins.{AdminCache, ChatMember, MemberStatus, administrator, creator, get_user_admin}
use tg.Db.Collection.{Collection}
use tg.Db.Cached.{Table}
use tg.Db.Chats.{Chat, Reply, admins_only, get_admin_mode, get_cmd_delete}
use tg.Db.Lists.{is_admin, is_auth_user}

pub record Answers : Type 0 where
  pub now : ℕ
  -- The id of the bot, and the administrators by the server.
  pub me : ℤ
  pub members : Result Text (List ChatMember)
  pub delete_reply : ℕ → Reply
  pub mode_reply : ℕ → Reply
  pub auth_fault : Option Text

abbrev pub everyone : Text
everyone = bytes "everyone"

abbrev pub may_invite : MemberStatus → Bool
may_invite creator = true
may_invite (administrator (some rights)) = rights.can_invite_users
may_invite _ = false

unfoldable pub check_bot_admin : Answers → ℤ → AdminCache → AdminCache × Bool
check_bot_admin r chat a =
    let (a', found) = get_user_admin r.now r.members chat r.me false a in
    (a', elim found [ err e ↦ false | ok member ↦ may_invite member.status ])

pub record Known (C : Collection ℤ Chat) (D : Collection ℤ (List ℤ)) : Type 0 where
  pub admins : AdminCache
  pub chats : Table C
  pub auth : Table D

module _ {C : Collection ℤ Chat} {D : Collection ℤ (List ℤ)} where
  -- The case of adminMode for administrators only.
  unfoldable pub admins_pass : Answers → ℤ → ℤ → Known C D → Known C D × Bool
  admins_pass r chat user s =
      let (a, admin) = is_admin D r.now chat user s.admins in
      let asked = is_auth_user D r.now r.auth_fault chat user a s.auth in
      if admin
      then (record s { admins = a }, true)
      else (record s { admins = asked.0; auth = asked.1 }, asked.2)

  -- adminMode, and adminModeCB without reading whether the command is deleted.
  unfoldable pub admin_mode : Answers → Bool → ℤ → ℤ → Known C D → Known C D × Bool
  unfolding check_bot_admin admins_pass
  admin_mode r true chat user s = (s, false)
  admin_mode r false chat user s =
      let (a, bot) = check_bot_admin r chat s.admins in
      if bot
      then (let (deleting, d) = get_cmd_delete C r.now r.delete_reply chat s.chats in
          let (t, mode) = get_admin_mode C r.now r.mode_reply chat deleting in
          let s' = record s { admins = a; chats = t } in
          if mode == everyone
          then (s', true)
          else if mode == admins_only
          then admins_pass r chat user s'
          else (s', false))
      else (record s { admins = a }, false)
