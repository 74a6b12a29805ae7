-- ===== src/Db/Settings.antt =====
-- internal/db/chats.go: histories of calls on the settings of chats, which keep the cache right.
use tg.Base.{
  ℕ, List, [], ◌∷◌, Option, none, some, Bool, true, false, Text, ℤ, int_eq, if◌then◌else◌, ◌==◌,
  arith, Result, ok, err, format_int, format_int-injective, Bool-cases, inl, inr,
}
use tg.Db.Collection.{Collection}
use tg.Db.Cached.{Table, IsCoherent, read-IsCoherent, write_drop-IsCoherent, update_drop-IsCoherent}
use tg.Db.Chats.{
  Chat, blank_chat, Reply, read_error, mode_of, get_chat, insert_chat, add_found, add_chat,
  mark_chat_invalid, set_play_type, set_play_mode, set_admin_mode, set_cmd_delete,
}

-- What the four getters answer.
pub record Settings : Type 0 where
  pub play_type : ℤ
  pub admin_play : Bool
  pub admin_mode : Text
  pub cmd_delete : Bool

-- A call, with the clock and the errors that it meets.
pub data Call : Type 0 where
  adds : ℕ → (ℕ → Reply) → ℕ → Option Text → ℤ → Call
  looks : ℕ → (ℕ → Reply) → ℤ → Call
  marks_invalid : Option Text → ℤ → Call
  sets_type : Option Text → ℤ → ℤ → Call
  sets_play_mode sets_cmd_delete : Option Text → ℤ → Bool → Call
  sets_admin_mode : Option Text → ℤ → Text → Call

-- A write that succeeds changes the settings of its chat.
abbrev pub written : Option Text → ℤ → (Settings → Settings) → ℤ → Settings → Settings
written none chat f j x = if chat == j then f x else x
written (some e) chat f j x = x

-- The reference: what a call makes of the settings of chat `j`. Only the setters change any.
abbrev pub step_spec : Call → ℤ → Settings → Settings
step_spec (sets_type fault chat t) j x = written fault chat (λ y. record y { play_type = t }) j x
step_spec (sets_play_mode fault chat b) j x =
    written fault chat (λ y. record y { admin_play = b }) j x
step_spec (sets_admin_mode fault chat m) j x =
    written fault chat (λ y. record y { admin_mode = mode_of m }) j x
step_spec (sets_cmd_delete fault chat b) j x =
    written fault chat (λ y. record y { cmd_delete = b }) j x
step_spec _ j x = x

abbrev pub run_spec : List Call → ℤ → Settings → Settings
run_spec [] j x = x
run_spec (c ∷ calls) j x = run_spec calls j (step_spec c j x)

module _ (C : Collection ℤ Chat) where
  open C use {find_one}

  unfoldable pub step : Call → Table C → Table C
  unfolding get_chat
  step (adds now reply joined fault chat) s = (add_chat C now reply joined fault chat s).0
  step (looks now reply chat) s = (get_chat C now reply chat s).0
  step (marks_invalid fault chat) s = (mark_chat_invalid C fault chat s).0
  step (sets_type fault chat t) s = (set_play_type C fault chat t s).0
  step (sets_play_mode fault chat b) s = (set_play_mode C fault chat b s).0
  step (sets_cmd_delete fault chat b) s = (set_cmd_delete C fault chat b s).0
  step (sets_admin_mode fault chat m) s = (set_admin_mode C fault chat m s).0

  unfoldable pub run : List Call → Table C → Table C
  run [] s = s
  run (c ∷ calls) s = run calls (step c s)

  pub get_chat-IsCoherent :
      (now : ℕ) (reply : ℕ → Reply) (chat : ℤ) (s : Table C)
      → IsCoherent C format_int s
      → IsCoherent C format_int (get_chat C now reply chat s).0
  unfolding get_chat
  get_chat-IsCoherent now reply chat s h =
      read-IsCoherent C format_int now (read_error reply) chat s format_int-injective h

  insert_chat-IsCoherent :
      (joined : ℕ) (fault : Option Text) (chat : ℤ) (s : Table C)
      → IsCoherent C format_int s
      → IsCoherent C format_int (insert_chat C joined fault chat s).0
  unfolding insert_chat
  insert_chat-IsCoherent joined (some e) chat s h k v g = h k v g
  insert_chat-IsCoherent joined none chat s h k v g =
      let new : Chat = record blank_chat { joined_at = some joined } in
      ground (arith, h k v, C.find_one-upsert chat k (λ d. d) new s.store)

  add_found-IsCoherent :
      (joined : ℕ) (fault : Option Text) (chat : ℤ) (found : Result Text (Option Chat))
      (s : Table C)
      → IsCoherent C format_int s
      → IsCoherent C format_int (add_found C joined fault chat found s).0
  unfolding add_found
  add_found-IsCoherent joined fault chat (err e) s h = insert_chat-IsCoherent joined fault chat s h
  add_found-IsCoherent joined fault chat (ok none) s h =
      insert_chat-IsCoherent joined fault chat s h
  add_found-IsCoherent joined fault chat (ok (some d)) s h = elim (Bool-cases d.invalid) [
    | inl g ↦ rw g (
        update_drop-IsCoherent C format_int fault chat (λ d'. record d' { invalid = false }) s
          format_int-injective h)
    | inr g ↦ rw g h
  ]

  pub step-IsCoherent :
      (c : Call) (s : Table C) → IsCoherent C format_int s → IsCoherent C format_int (step c s)
  unfolding step add_chat mark_chat_invalid set_play_type set_play_mode set_cmd_delete
      set_admin_mode
  step-IsCoherent (adds now reply joined fault chat) s h =
      add_found-IsCoherent joined fault chat (get_chat C now reply chat s).1
        (get_chat C now reply chat s).0 (get_chat-IsCoherent now reply chat s h)
  step-IsCoherent (looks now reply chat) s h = get_chat-IsCoherent now reply chat s h
  step-IsCoherent (marks_invalid fault chat) s h =
      write_drop-IsCoherent C format_int fault chat (λ d. record d { invalid = true }) blank_chat s
        format_int-injective h
  step-IsCoherent (sets_type fault chat t) s h =
      write_drop-IsCoherent C format_int fault chat (λ d. record d { play_type = t }) blank_chat s
        format_int-injective h
  step-IsCoherent (sets_play_mode fault chat b) s h =
      write_drop-IsCoherent C format_int fault chat (λ d. record d { admin_play = b }) blank_chat s
        format_int-injective h
  step-IsCoherent (sets_cmd_delete fault chat b) s h =
      write_drop-IsCoherent C format_int fault chat (λ d. record d { cmd_delete = b }) blank_chat s
        format_int-injective h
  step-IsCoherent (sets_admin_mode fault chat m) s h =
      write_drop-IsCoherent C format_int fault chat (λ d. record d { admin_mode = m }) blank_chat s
        format_int-injective h
