-- ===== src/Db/Chats.antt =====
-- internal/db/chats.go: the settings of a chat. `now` is the clock at a read, `reply` what the server
-- answers to each try of a read, `fault` the error of a write, if any. The lists and the counts of
-- all chats are left out.
use tg.Base.{
  ℕ, zero, suc, [], Option, none, some, Bool, true, false, Text, bytes, is_blank, ℤ, pos, int_eq,
  if◌then◌else◌, Result, ok, err, format_int,
}
use tg.Db.Collection.{Collection}
use tg.Db.Cached.{Table, read, write_drop, update_drop}

-- A document, without its _id. `joined_at` is `none` where the field is missing.
pub record Chat : Type 0 where
  pub play_type : ℤ
  pub admin_play : Bool
  pub admin_mode : Text
  pub cmd_delete : Bool
  pub joined_at : Option ℕ
  pub invalid : Bool

-- The zero value, which the fields that a document lacks decode to.
abbrev pub blank_chat : Chat
blank_chat = record {
  play_type = pos 0;
  admin_play = false;
  admin_mode = [];
  cmd_delete = false;
  joined_at = none;
  invalid = false;
}

-- One try of a read: the server answers, or fails while there is time left, or the time is up.
pub data Reply : Type 0 where
  answered : Reply
  failed timed_out : Text → Reply

abbrev pub admins_only : Text
admins_only = bytes "admins"

-- The tries of getChat, from the given one on, with so many left: the error that it reports, if any.
unfoldable pub tries : ℕ → ℕ → (ℕ → Reply) → Text → Option Text
tries n zero reply last = some last
tries n (suc left) reply last = elim (reply n) [
  | answered ↦ none
  | failed e ↦ tries (suc n) left reply e
  | timed_out e ↦ some e
]

unfoldable pub read_error : (ℕ → Reply) → Option Text
unfolding tries
read_error reply = tries 0 3 reply []

-- The chat, or the zero value where it is nil.
abbrev pub or_blank : Result Text (Option Chat) → Chat
or_blank (err e) = blank_chat
or_blank (ok none) = blank_chat
or_blank (ok (some d)) = d

abbrev pub mode_of : Text → Text
mode_of mode = if is_blank mode then admins_only else mode

module _ (C : Collection ℤ Chat) where
  open C use {find_one, upsert}

  unfoldable pub get_chat : ℕ → (ℕ → Reply) → ℤ → Table C → Table C × Result Text (Option Chat)
  get_chat now reply chat s = read C format_int now (read_error reply) chat s

  -- UpdateOne with $setOnInsert: an existing document stays as it is.
  unfoldable pub insert_chat : ℕ → Option Text → ℤ → Table C → Table C × Option Text
  insert_chat joined (some e) chat s = (s, some e)
  insert_chat joined none chat s = (
    record s {
      store = upsert chat (λ d. d) (record blank_chat { joined_at = some joined }) s.store;
    },
    none,
  )

  -- AddChat once getChat has answered.
  unfoldable pub add_found :
      ℕ → Option Text → ℤ → Result Text (Option Chat) → Table C → Table C × Option Text
  unfolding insert_chat
  add_found joined fault chat (ok (some d)) s =
      if d.invalid
      then update_drop C format_int fault chat (λ d'. record d' { invalid = false }) s
      else (s, none)
  add_found joined fault chat (ok none) s = insert_chat joined fault chat s
  add_found joined fault chat (err e) s = insert_chat joined fault chat s

  -- `joined` is the time that a new chat gets.
  unfoldable pub add_chat : ℕ → (ℕ → Reply) → ℕ → Option Text → ℤ → Table C → Table C × Option Text
  unfolding get_chat add_found
  add_chat now reply joined fault chat s =
      let (s', found) = get_chat now reply chat s in add_found joined fault chat found s'

  unfoldable pub mark_chat_invalid : Option Text → ℤ → Table C → Table C × Option Text
  mark_chat_invalid fault chat s =
      write_drop C format_int fault chat (λ d. record d { invalid = true }) blank_chat s

  unfoldable pub get_play_type : ℕ → (ℕ → Reply) → ℤ → Table C → Table C × ℤ
  unfolding get_chat
  get_play_type now reply chat s =
      let (s', found) = get_chat now reply chat s in (s', (or_blank found).play_type)

  unfoldable pub set_play_type : Option Text → ℤ → ℤ → Table C → Table C × Option Text
  set_play_type fault chat t s =
      write_drop C format_int fault chat (λ d. record d { play_type = t }) blank_chat s

  unfoldable pub get_play_mode : ℕ → (ℕ → Reply) → ℤ → Table C → Table C × Bool
  unfolding get_chat
  get_play_mode now reply chat s =
      let (s', found) = get_chat now reply chat s in (s', (or_blank found).admin_play)

  unfoldable pub set_play_mode : Option Text → ℤ → Bool → Table C → Table C × Option Text
  set_play_mode fault chat b s =
      write_drop C format_int fault chat (λ d. record d { admin_play = b }) blank_chat s

  unfoldable pub get_admin_mode : ℕ → (ℕ → Reply) → ℤ → Table C → Table C × Text
  unfolding get_chat
  get_admin_mode now reply chat s =
      let (s', found) = get_chat now reply chat s in (s', mode_of (or_blank found).admin_mode)

  unfoldable pub set_admin_mode : Option Text → ℤ → Text → Table C → Table C × Option Text
  set_admin_mode fault chat m s =
      write_drop C format_int fault chat (λ d. record d { admin_mode = m }) blank_chat s

  unfoldable pub get_cmd_delete : ℕ → (ℕ → Reply) → ℤ → Table C → Table C × Bool
  unfolding get_chat
  get_cmd_delete now reply chat s =
      let (s', found) = get_chat now reply chat s in (s', (or_blank found).cmd_delete)

  unfoldable pub set_cmd_delete : Option Text → ℤ → Bool → Table C → Table C × Option Text
  set_cmd_delete fault chat b s =
      write_drop C format_int fault chat (λ d. record d { cmd_delete = b }) blank_chat s
