-- ===== src/Db/Getters.antt =====
-- internal/db/chats.go: what the getters answer after any history of calls, and what AddChat does.
use tg.Base.{
  ℕ, ◌≡◌, refl, ◌∙◌, sym, ap, List, [], ◌∷◌, Option, none, some, true, false, Text, ℤ, int_eq,
  int_beq_iff, if◌then◌else◌, ◌==◌, arith, Result, ok, err, format_int, Option-cases, inl, inr,
}
use mathlib.Core.Option
use tg.Db.Collection.{Collection}
use tg.Db.Cached.{Table, read, write_drop, update_drop, IsCoherent, read-find_one}
use tg.Db.Chats.{
  Chat, blank_chat, Reply, read_error, or_blank, mode_of, get_chat, insert_chat, add_found,
  add_chat, mark_chat_invalid, get_play_type, set_play_type, get_play_mode, set_play_mode,
  get_admin_mode, set_admin_mode, get_cmd_delete, set_cmd_delete,
}
use tg.Db.Settings.{
  Settings, Call, adds, looks, marks_invalid, sets_type, sets_play_mode, sets_cmd_delete,
  sets_admin_mode, written, step_spec, run_spec, step, run, step-IsCoherent,
}

-- What AddChat makes of a stored chat.
abbrev pub added : ℕ → Option Chat → Chat
added joined none = record blank_chat { joined_at = some joined }
added joined (some d) = record d { invalid = false }

valid-id : (d : Chat) → d.invalid ≡ false → record d { invalid = false } ≡ d
valid-id d h = ap (λ b. record d { invalid = b }) (sym h)

module _ (C : Collection ℤ Chat) where
  open C use {find_one}

  -- What the four getters answer for a chat.
  abbrev pub observe : ℕ → (ℕ → Reply) → ℤ → Table C → Settings
  observe now reply chat s = record {
    play_type = (get_play_type C now reply chat s).1;
    admin_play = (get_play_mode C now reply chat s).1;
    admin_mode = (get_admin_mode C now reply chat s).1;
    cmd_delete = (get_cmd_delete C now reply chat s).1;
  }

  abbrev stored : ℤ → Table C → Chat
  stored chat s = Option.get_or (find_one chat s.store) blank_chat

  abbrev settings_of : Chat → Settings
  settings_of d = record {
    play_type = d.play_type;
    admin_play = d.admin_play;
    admin_mode = mode_of d.admin_mode;
    cmd_delete = d.cmd_delete;
  }

  or_blank-get_chat :
      (now : ℕ) (reply : ℕ → Reply) (chat : ℤ) (s : Table C)
      → IsCoherent C format_int s
      → read_error reply ≡ none
      → or_blank (get_chat C now reply chat s).1 ≡ stored chat s
  unfolding get_chat
  or_blank-get_chat now reply chat s h ok_reply =
      ground (arith, read-find_one C format_int now (read_error reply) chat s h)

  observe-stored :
      (now : ℕ) (reply : ℕ → Reply) (chat : ℤ) (s : Table C)
      → IsCoherent C format_int s
      → read_error reply ≡ none
      → observe now reply chat s ≡ settings_of (stored chat s)
  unfolding get_play_type get_play_mode get_admin_mode get_cmd_delete
  observe-stored now reply chat s h ok_reply =
      ap settings_of (or_blank-get_chat now reply chat s h ok_reply)

  -- The update by a setter.
  write_drop-stored :
      (fault : Option Text) (chat j : ℤ) (f : Chat → Chat) (g : Settings → Settings) (s : Table C)
      → ((d : Chat) → settings_of (f d) ≡ g (settings_of d))
      → settings_of (stored j (write_drop C format_int fault chat f blank_chat s).0)
        ≡ written fault chat g j (settings_of (stored j s))
  unfolding write_drop
  write_drop-stored none chat j f g s h =
      ground (arith, C.find_one-upsert chat j f blank_chat s.store, h (stored j s))
  write_drop-stored (some e) chat j f g s h = refl

  get_chat-store :
      (now : ℕ) (reply : ℕ → Reply) (chat : ℤ) (s : Table C)
      → IsCoherent C format_int s
      → (get_chat C now reply chat s).0.store ≡ s.store
  unfolding get_chat
  get_chat-store now reply chat s h = (read-find_one C format_int now (read_error reply) chat s h).1

  -- AddChat changes no setting.
  add_found-stored :
      (joined : ℕ) (fault : Option Text) (chat j : ℤ) (found : Result Text (Option Chat))
      (s : Table C)
      → settings_of (stored j (add_found C joined fault chat found s).0) ≡ settings_of (stored j s)
  unfolding add_found insert_chat update_drop
  add_found-stored joined (some e) chat j (err x) s = refl
  add_found-stored joined (some e) chat j (ok none) s = refl
  add_found-stored joined (some e) chat j (ok (some d)) s = ground arith
  add_found-stored joined none chat j (err x) s =
      let new : Chat = record blank_chat { joined_at = some joined } in
      ground (arith, C.find_one-upsert chat j (λ d. d) new s.store)
  add_found-stored joined none chat j (ok none) s =
      let new : Chat = record blank_chat { joined_at = some joined } in
      ground (arith, C.find_one-upsert chat j (λ d. d) new s.store)
  add_found-stored joined none chat j (ok (some d)) s =
      ground (arith, C.find_one-update chat j (λ d'. record d' { invalid = false }) s.store)

  written-same :
      (fault : Option Text) (chat j : ℤ) (x : Settings) → written fault chat (λ y. y) j x ≡ x
  written-same none chat j x = ground arith
  written-same (some e) chat j x = refl

  step-stored :
      (c : Call) (j : ℤ) (s : Table C)
      → IsCoherent C format_int s
      → settings_of (stored j (step C c s)) ≡ step_spec c j (settings_of (stored j s))
  unfolding step add_chat mark_chat_invalid set_play_type set_play_mode set_cmd_delete
      set_admin_mode
  step-stored (adds now reply joined fault chat) j s h =
      add_found-stored joined fault chat j (get_chat C now reply chat s).1
        (get_chat C now reply chat s).0
      ∙ ap (λ (t : C.Store). settings_of (Option.get_or (find_one j t) blank_chat))
          (get_chat-store now reply chat s h)
  step-stored (looks now reply chat) j s h =
      ap (λ (t : C.Store). settings_of (Option.get_or (find_one j t) blank_chat))
        (get_chat-store now reply chat s h)
  step-stored (marks_invalid fault chat) j s h =
      write_drop-stored fault chat j (λ d. record d { invalid = true }) (λ y. y) s (λ d. refl)
      ∙ written-same fault chat j (settings_of (stored j s))
  step-stored (sets_type fault chat t) j s h = write_drop-stored fault chat j _ _ s (λ d. refl)
  step-stored (sets_play_mode fault chat b) j s h = write_drop-stored fault chat j _ _ s (λ d. refl)
  step-stored (sets_cmd_delete fault chat b) j s h =
      write_drop-stored fault chat j _ _ s (λ d. refl)
  step-stored (sets_admin_mode fault chat m) j s h =
      write_drop-stored fault chat j _ _ s (λ d. refl)

  run-stored :
      (calls : List Call) (j : ℤ) (s : Table C)
      → IsCoherent C format_int s
      → (settings_of (stored j (run C calls s)) ≡ run_spec calls j (settings_of (stored j s)))
        × IsCoherent C format_int (run C calls s)
  unfolding run
  run-stored [] j s h = (refl, h)
  run-stored (c ∷ calls) j s h =
      let (e, h') = run-stored calls j (step C c s) (step-IsCoherent C c s h) in
      (e ∙ ap (run_spec calls j) (step-stored c j s h), h')

  -- From a cache that agrees with the collection, and after any calls, with whatever errors, the
  -- four getters of a chat answer, in a read that the server answers within its three tries, what
  -- they answered before, with the settings that were written to this chat since: a write that
  -- failed changes nothing, and AddChat, MarkChatInvalid, reads and writes to other chats change
  -- no setting.
  pub run-observe :
      (calls : List Call) (now later : ℕ) (reply : ℕ → Reply) (j : ℤ) (s : Table C)
      → IsCoherent C format_int s
      → read_error reply ≡ none
      → observe later reply j (run C calls s) ≡ run_spec calls j (observe now reply j s)
  run-observe calls now later reply j s h ok_reply =
      let (e, h') = run-stored calls j s h in
      observe-stored later reply j (run C calls s) h' ok_reply
      ∙ e
      ∙ ap (run_spec calls j) (sym (observe-stored now reply j s h ok_reply))

  add_found-find_one :
      (joined : ℕ) (chat j : ℤ) (s : Table C)
      → find_one j (add_found C joined none chat (ok (find_one chat s.store)) s).0.store
        ≡ (if chat == j then some (added joined (find_one j s.store)) else find_one j s.store)
  unfolding add_found insert_chat update_drop
  add_found-find_one joined chat j s = elim (Option-cases (find_one chat s.store)) [
    | inl g ↦
        let new : Chat = record blank_chat { joined_at = some joined } in
        ground (arith, int_beq_iff chat j, C.find_one-upsert chat j (λ d. d) new s.store)
    | inr (d, g) ↦ ground (
      arith,
      int_beq_iff chat j,
      valid-id d,
      C.find_one-update chat j (λ d'. record d' { invalid = false }) s.store,
    )
  ]

  -- Where its reads and its write succeed and the cache agrees with the collection, AddChat
  -- leaves the chat in the collection and not flagged invalid, with everything else that was
  -- stored of it, and it touches no other chat.
  pub add_chat-find_one :
      (now joined : ℕ) (reply : ℕ → Reply) (chat j : ℤ) (s : Table C)
      → IsCoherent C format_int s
      → read_error reply ≡ none
      → find_one j (add_chat C now reply joined none chat s).0.store
        ≡ (if chat == j then some (added joined (find_one j s.store)) else find_one j s.store)
  unfolding add_chat get_chat
  add_chat-find_one now joined reply chat j s h ok_reply = ground (
    arith,
    read-find_one C format_int now (read_error reply) chat s h,
    add_found-find_one joined chat j (read C format_int now (read_error reply) chat s).0,
  )
