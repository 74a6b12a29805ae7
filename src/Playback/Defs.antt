-- ===== src/Playback/Defs.antt =====
-- internal/calls/playback.go and assistant.go: playing media through one of the assistants. What
-- Telegram does is chosen by the environment: for each attempt, its number and the assistant's
-- index, whether ensureAssistantMember or startCallStream fails and with which error. Assistants
-- are their indices below `total`. The loggers and the messages that go to them are left out.
use tg.Base.{
  ℕ, zero, suc, List, [], ◌∷◌, ◌++◌, Option, none, some, Bool, false, not, ◌&&◌, Text, bytes, ltb,
  if◌then◌else◌, ◌==◌, length, delete, text_eq, int_eq, nat_eq, ℤ, pos, negsuc, is_positive,
  is_blank, contains, Result, ok, err,
}
use tg.Player.{ChatCacher, clear_chat}
use tg.Db.Collection.{Collection}
use tg.Db.Cached.{Table}
use tg.Db.Assistant.{get_assistant, set_assistant, remove_assistant, assign_assistant, unassigned}
use tg.Playback.Errors.{
  err_fatal, err_retry_once, err_rotate, err_unknown, classify_error, fatal_message,
}

-- What comes of an attempt: the assistant is no member and cannot join, or the stream cannot be
-- started, each with the error, or it plays.
pub data Attempt : Type 0 where
  member_fails stream_fails : Text → Attempt
  plays : Attempt

-- The environment: the outcome of each attempt, the clock at it, the error of each write to the
-- database, of each read of it, and the random number that is drawn (`none` where drawing fails).
pub record Env : Type 0 where
  pub attempt : ℕ → ℕ → Attempt
  pub clock : ℕ → ℕ
  pub write_fault : ℕ → Option Text
  pub read_fault : Option Text
  pub assign_fault : Option Text
  pub draw : Option ℕ

-- The shared state. `tried` logs the assistants of the attempts, the latest first.
pub record World (C : Collection ℤ ℤ) : Type 0 where
  pub chats : ChatCacher
  pub time_offsets : List (ℤ × ℕ)
  pub assistants : Table C
  pub tried : List ℕ

abbrev pub private_calls : Text
private_calls = bytes "private calls are not supported for media playback"

-- The loop of nextUntried, from an index on, with so many accounts left.
unfoldable pub untried_from : ℕ → ℕ → List ℕ → Option ℕ
untried_from i zero seen = none
untried_from i (suc left) seen =
    let rest = untried_from (suc i) left seen in if contains seen i then rest else some i

unfoldable pub next_untried : ℕ → List ℕ → Option ℕ
unfolding untried_from
next_untried total seen = untried_from 0 total seen

abbrev pub playback_failed : Text → Text
playback_failed e = bytes "playback failed: " ++ e

abbrev pub all_failed : Text → Text
all_failed e = bytes "playback failed after trying all assistants: " ++ e

abbrev pub in_range : ℕ → ℤ → Bool
in_range total (pos i) = ltb i total
in_range total (negsuc n) = false

abbrev pub index_of : ℤ → ℕ
index_of (pos i) = i
index_of (negsuc n) = 0

abbrev pub or_unassigned : Result Text ℤ → ℤ
or_unassigned (ok n) = n
or_unassigned (err e) = unassigned

abbrev pub no_accounts : Text
no_accounts = bytes "no accounts are available"

module _ {C : Collection ℤ ℤ} where
  abbrev pub attempts : World C → ℕ
  attempts w = length w.tried

  -- ClearChat on the failure of an attempt.
  abbrev pub give_up : ℤ → World C → World C
  give_up chat w = record w { chats = clear_chat chat w.chats }

  abbrev pub clear_offset : ℤ → World C → World C
  clear_offset chat w = record w { time_offsets = delete chat w.time_offsets }

  -- `ff` is the ffmpeg parameters; the result is the error, if any.
  unfoldable pub play_media_with_assistant : Env → ℤ → Text → ℕ → World C → World C × Option Text
  play_media_with_assistant env chat ff index w =
      if is_positive chat
      then (w, some private_calls)
      else let w' = record w { tried = index ∷ w.tried } in
        elim (env.attempt (attempts w) index) [
          | member_fails e ↦ (give_up chat w', some e)
          | stream_fails e ↦
              (give_up chat (if is_blank ff then clear_offset chat w' else w'), some e)
          | plays ↦ (if is_blank ff then clear_offset chat w' else w', none)
        ]

  -- `_ = db.Instance.SetAssistant(chatID, index)`
  unfoldable pub save_assistant : Env → ℤ → ℕ → World C → World C
  save_assistant env chat index w =
      let n = attempts w in
      let (t, failed) =
        set_assistant C (env.clock n) (env.write_fault n) chat (pos index) w.assistants in
      record w { assistants = t }

  -- The dialogs that a crowded assistant leaves are left out: they go on in a goroutine.
  unfoldable pub evict_assistant : Env → ℤ → World C → World C
  evict_assistant env chat w =
      let (t, failed) = remove_assistant C (env.write_fault (attempts w)) chat w.assistants in
      record w { assistants = t }

  -- What follows an attempt with an assistant in rotateAndPlay, where it does not go on to the next
  -- one; `go_on` is the rest of the loop, with the world and the last error.
  unfoldable pub settle :
      Env
      → ℤ
      → Text
      → ℕ
      → (World C → Text → Option (World C × Option Text))
      → World C × Option Text
      → Option (World C × Option Text)
  settle env chat ff index go_on (w, none) = some (save_assistant env chat index w, none)
  settle env chat ff index go_on (w, some e) = elim (classify_error e) [
    | err_retry_once ↦
        let (w', again) = play_media_with_assistant env chat ff index w in
        elim again [
          | none ↦ some (save_assistant env chat index w', none)
          | some e' ↦ elim (classify_error e') [
            | err_rotate ↦ go_on (evict_assistant env chat w') e'
            | _ ↦ some (w', some (playback_failed e'))
          ]
        ]
    | err_rotate ↦ go_on (evict_assistant env chat w) e
    | _ ↦ some (w, some (playback_failed e))
  ]

  -- `none` means that the fuel ran out.
  unfoldable pub rotate_and_play :
      ℕ → Env → ℕ → ℤ → Text → List ℕ → Text → World C → Option (World C × Option Text)
  rotate_and_play zero env total chat ff seen last w = none
  rotate_and_play (suc fuel) env total chat ff seen last w = elim (next_untried total seen) [
    | none ↦ some (w, some (all_failed last))
    | some index ↦
        settle env chat ff index
          (λ w' e. rotate_and_play fuel env total chat ff (index ∷ seen) e w')
          (play_media_with_assistant env chat ff index w)
  ]

  -- getAccountIndex and GetAccount; `none` is the error that there is no account.
  unfoldable pub get_account : Env → ℕ → ℤ → World C → World C × Option ℕ
  get_account env total chat w =
      if total == 0
      then (w, none)
      else let now = env.clock (attempts w) in
        let (t, answer) = get_assistant C now env.read_fault chat w.assistants in
        let num = or_unassigned answer in
        if in_range total num
        then (record w { assistants = t }, some (index_of num))
        else elim env.draw [
          | some n ↦ (
            if chat == pos 0 then record w { assistants = t } else record w {
              assistants =
                  (assign_assistant C now env.assign_fault env.read_fault chat (pos n) t).0;
            },
            some n,
          )
          | none ↦ (
            if num == unassigned && not (chat == pos 0)
                then record w {
                  assistants =
                      (assign_assistant C now env.assign_fault env.read_fault chat (pos 0) t).0;
                }
                else record w { assistants = t },
            some 0,
          )
        ]

  -- PlayMedia once the first attempt has been made; `go_on` is the rotation, with the world and the
  -- error.
  unfoldable pub settle_first :
      Env
      → ℤ
      → Text
      → ℕ
      → (World C → Text → Option (World C × Option Text))
      → World C × Option Text
      → Option (World C × Option Text)
  settle_first env chat ff index go_on (w, none) = some (save_assistant env chat index w, none)
  settle_first env chat ff index go_on (w, some e) = elim (classify_error e) [
    | err_fatal ↦ some (w, some (fatal_message e))
    | err_unknown ↦ some (w, some (playback_failed e))
    | err_retry_once ↦
        let (w', again) = play_media_with_assistant env chat ff index w in
        elim again [
          | none ↦ some (save_assistant env chat index w', none)
          | some e' ↦ elim (classify_error e') [
            | err_rotate ↦ go_on (evict_assistant env chat w') e'
            | _ ↦ some (w', some (playback_failed e'))
          ]
        ]
    | err_rotate ↦ go_on (evict_assistant env chat w) e
  ]

  -- PlayMedia with the account that GetAccount chose; the fuel is one more than there are accounts.
  unfoldable pub play_with :
      Env → ℕ → ℤ → Text → World C → Option ℕ → Option (World C × Option Text)
  play_with env total chat ff w none = some (w, some no_accounts)
  play_with env total chat ff w (some index) =
      settle_first env chat ff index
        (λ w' e. rotate_and_play (suc total) env total chat ff (index ∷ []) e w')
        (play_media_with_assistant env chat ff index w)

  unfoldable pub play_media : Env → ℕ → ℤ → Text → World C → Option (World C × Option Text)
  play_media env total chat ff w =
      let (w', account) = get_account env total chat w in play_with env total chat ff w' account
