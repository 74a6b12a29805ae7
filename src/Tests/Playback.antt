-- ===== src/Tests/Playback.antt =====
-- Playback through the assistants.
use tg.Base.{
  ℕ, zero, suc, ◌+◌, ◌*◌, ◌≡◌, refl, List, [], ◌∷◌, Option, none, some, Bool, true, false, Text,
  bytes, ℤ, pos, negsuc, arith, if◌then◌else◌, lookup, insert, ◌==◌, nat_eq, int_eq, ◌⊎◌, inl, inr,
  Result, ok, err, has_part, format_int,
}
use tg.Base
use tg.Db.Cached.{Table}
use tg.Ttl
use tg.Db.Assistant
use tg.Db.Cached
use tg.Playback.Errors.{classify_error, err_fatal}
use tg.Playback.Defs.{
  Env, World, Attempt, plays, stream_fails, attempts, get_account, play_media_with_assistant,
  play_media,
}
use tg.Playback.Rotation.{EndsWithin}
use tg.Playback.Account.{DrawsBelow}
use tg.Playback.Each.{tries, TriesAtMost, play_media-TriesTwice}
use tg.Playback.Outcome.{PlaysAtOnce, EndsCleared, play_media-outcome}
use tg.Tests.Memory.{in_memory}

-- Assistant 0 is in too many channels, assistant 1 plays.
abbrev crowded : ℕ → ℕ → Attempt
crowded n zero = stream_fails (bytes "CHANNELS_TOO_MUCH")
crowded n (suc i) = plays

abbrev env : Env
env = record {
  attempt = crowded;
  clock = λ n. n;
  write_fault = λ n. none;
  read_fault = none;
  assign_fault = none;
  draw = some 0;
}

abbrev world : World in_memory
world = record {
  chats = record {
    chat_cache =
        (negsuc 6, record { queue = some 1 ∷ []; autoplay = false; autoplay_history = [] }) ∷ [];
  };
  time_offsets = [];
  assistants = record { store = []; cache = record { entries = []; ttl = 60 } };
  tried = [];
}

program : Unit {0}
unfolding lookup insert Base.delete has_part format_int get_account Assistant.get_assistant
    Assistant.assign_assistant Cached.read Ttl.get Ttl.set
program = tt

closed_call : classify_error (bytes "group call for chatId 1 is closed") ≡ err_fatal
unfolding classify_error has_part
closed_call = refl

below : DrawsBelow 2 env.draw
below h = omega arith

play_media-TriesTwice_example :
    let result = play_media env 2 (negsuc 6) [] world in
    EndsWithin 4 result × ((i : ℕ) → TriesAtMost i (tries i world + 2) result)
play_media-TriesTwice_example = play_media-TriesTwice env 2 (negsuc 6) [] world below

first_account : (get_account env 2 (negsuc 6) world).1 ≡ some 0
unfolding program
first_account = refl

play_media-outcome_example :
    let first =
      play_media_with_assistant env (negsuc 6) [] 0 (get_account env 2 (negsuc 6) world).0 in
    let result = play_media env 2 (negsuc 6) [] world in
    ((first.1 ≡ none) × PlaysAtOnce env (negsuc 6) [] refl (λ n. refl) world result)
    ⊎ ((e : Text) × (first.1 ≡ some e)
        × EndsCleared (negsuc 6) result
        × EndsWithin (attempts world + 2 * 2) result
        × ((i : ℕ) → TriesAtMost i (tries i world + 2) result))
play_media-outcome_example =
    play_media-outcome env (negsuc 6) [] refl (λ n. refl) 2 0 world below first_account
