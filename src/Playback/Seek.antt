-- ===== src/Playback/Seek.antt =====
-- internal/calls/time.go, SeekStream of internal/calls/call.go and internal/bot/seek.go: moving to
-- another position of the current song.
use tg.Base.{
  ℕ, ◌+◌, ◌-◌, ◌%◌, Option, none, some, Bool, true, false, ◌++◌, Text, bytes, ℤ, pos, negsuc, ◌+ℤ◌,
  is_negative, is_positive, if◌then◌else◌, ltb, int_eq, lookup, insert, Result, ok, err, format_int,
  is_blank,
}
use tg.Player.{Memory, is_active, get_playing_track}
use tg.Db.Collection.{Collection}
use tg.Commands.Numbers.{atoi}
use tg.Commands.Remove.{int_lt}
use tg.Playback.Defs.{Env, World, get_account, play_media_with_assistant, no_accounts}

-- Integers of 32 and of 64 bits: what is left of a residue below 2 ^ w, and the residue of a sum.
abbrev pub two_32 : ℕ
two_32 = 4294967296

abbrev pub two_64 : ℕ
two_64 = 18446744073709551616

abbrev pub residue : ℕ → ℤ → ℕ
residue bound (pos n) = n % bound
residue bound (negsuc n) = bound - 1 - n % bound

abbrev pub signed : ℕ → ℕ → ℤ
signed bound n = if ltb (n + n) bound then pos n else negsuc (bound - 1 - n)

unfoldable pub wrap : ℕ → ℤ → ℤ
wrap bound a = signed bound (residue bound a)

abbrev pub or_zero : Option ℕ → ℕ
or_zero none = 0
or_zero (some n) = n

-- What a look at the played time meets: the environment of GetAccount, and the library's answer.
pub record Look : Type 0 where
  pub env : Env
  pub time : Result Text ℕ

abbrev pub invalid_seek : Text
invalid_seek =
    bytes
      "invalid seek position or duration. The position must be positive and the duration must be greater than 0"

-- The ffmpeg parameters.
abbrev pub seek_params : ℤ → ℤ → Text
seek_params to_seek duration =
    bytes "-ss " ++ format_int to_seek ++ bytes " -to " ++ format_int duration

-- What the handler of /seek replies.
pub data SeekReply : Type 0 where
  refused not_streaming usage invalid_time below_minimum no_played_time : SeekReply
  beyond_duration : ℤ → SeekReply
  seek_failed : Text → SeekReply
  -- The seconds that were skipped, and the new position.
  skipped : ℤ → ℤ → SeekReply

module _ {C : Collection ℤ ℤ} where
  unfoldable pub set_played_time_offset : ℤ → ℕ → World C → World C
  set_played_time_offset chat offset w = record w {
    time_offsets = insert chat offset w.time_offsets;
  }

  unfoldable pub get_played_time_offset : ℤ → World C → ℕ
  get_played_time_offset chat w = or_zero (lookup chat w.time_offsets)

  unfoldable pub played_time : Look → ℕ → ℤ → World C → World C × Result Text ℕ
  unfolding get_played_time_offset
  played_time look total chat w =
      let (w', account) = get_account look.env total chat w in
      elim account [
        | none ↦ (w', err no_accounts)
        | some index ↦ elim look.time [
          | err e ↦ (w', err (bytes "failed to get played time: " ++ e))
          | ok t ↦ (w', ok ((t + get_played_time_offset chat w') % two_64))
        ]
      ]

  -- SeekStream once the position is known: `to_seek` seconds of a song of `duration`.
  unfoldable pub seek_to : Env → ℕ → ℤ → ℤ → ℤ → World C → World C × Option Text
  unfolding set_played_time_offset
  seek_to env total chat (negsuc n) duration w = (w, some invalid_seek)
  seek_to env total chat (pos n) duration w =
      if is_positive duration
      then (let (w', account) = get_account env total chat (set_played_time_offset chat n w) in
          elim account [
            | none ↦ (w', some no_accounts)
            | some index ↦
                play_media_with_assistant env chat (seek_params (pos n) duration) index w'
          ])
      else (w, some invalid_seek)

  unfoldable pub seek_stream : Look → Env → Memory → ℕ → ℤ → ℤ → World C → World C × Option Text
  unfolding seek_to played_time
  seek_stream look env mem total chat seek_sec w =
      if is_negative seek_sec
      then (w, some (bytes "seek position must be >= 0"))
      else elim (get_playing_track chat w.chats) [
        | none ↦ (w, some (bytes "no playing track found in chat"))
        | some a ↦
            let (w', time) = played_time look total chat w in
            elim time [
              | err e ↦ (w', some (bytes "failed to get played time: " ++ e))
              | ok t ↦
                  seek_to env total chat (wrap two_64 (wrap two_64 (pos t) +ℤ seek_sec))
                    (mem a).duration w'
            ]
      ]

  -- The handler once it has read the number of seconds and the played time.
  unfoldable pub seek_by : Look → Env → Memory → ℕ → ℤ → ℤ → ℕ → ℤ → World C → World C × SeekReply
  unfolding seek_stream wrap
  seek_by look env mem total chat seek_time curr_dur duration w =
      let to_seek = wrap two_32 (wrap two_32 (pos curr_dur) +ℤ wrap two_32 seek_time) in
      if int_lt to_seek duration
      then (let (w', failed) = seek_stream look env mem total chat seek_time w in
          elim failed [
            | some e ↦ (w', seek_failed e)
            | none ↦ (w', skipped (wrap two_32 seek_time) to_seek)
          ])
      else (w, beyond_duration duration)

  -- The first argument is what adminMode answers; the handler looks at the played time, and then
  -- SeekStream does.
  unfoldable pub seek_handler :
      Bool → Look → Look → Env → Memory → ℕ → ℤ → Text → World C → World C × SeekReply
  unfolding seek_by
  seek_handler false first second env mem total chat args w = (w, refused)
  seek_handler true first second env mem total chat args w =
      if is_active chat w.chats
      then elim (get_playing_track chat w.chats) [
        | none ↦ (w, not_streaming)
        | some a ↦ if is_blank args then (w, usage) else elim (atoi args) [
          | none ↦ (w, invalid_time)
          | some seek_time ↦
              if int_lt seek_time (pos 10)
              then (w, below_minimum)
              else let (w', time) = played_time first total chat w in
                elim time [
                  | err e ↦ (w', no_played_time)
                  | ok t ↦ seek_by second env mem total chat seek_time t (mem a).duration w'
                ]
        ]
      ]
      else (w, not_streaming)
