-- ===== src/Tests/Next.antt =====
-- What follows the end of a song.
use tg.Base.{
  ℕ, zero, suc, ◌+◌, ◌≡◌, refl, [], ◌∷◌, Option, none, some, true, false, Text, bytes, pos, negsuc,
  arith, lookup, int_eq, ok,
}
use tg.Player.{PlayerCache, youtube}
use tg.Playback.Defs.{Env, plays}
use tg.Playback.Next.{GetUrlTrack, Outside, Session, play_next}
use tg.Playback.Remaining.{left}
use tg.Playback.Ends.{IsSound, EndsBy, remaining, play_next-EndsBy}
use tg.Tests.Memory.{in_memory}

abbrev all_play : Env
all_play = record {
  attempt = λ n i. plays;
  clock = λ n. n;
  write_fault = λ n. none;
  read_fault = none;
  assign_fault = none;
  draw = some 0;
}

abbrev proposal : GetUrlTrack
proposal = record {
  id = bytes "b";
  url = bytes "u";
  title = bytes "t";
  thumbnail = [];
  duration = pos 60;
  channel = [];
  views = [];
  platform = youtube;
}

-- The first two downloads fail.
abbrev failing : ℕ → PlayerCache → Text × Option Text
failing zero song = ([], some (bytes "timeout"))
failing (suc zero) song = ([], some (bytes "timeout"))
failing (suc (suc n)) song = (bytes "f", none)

abbrev outside : Outside
outside = record {
  play = λ n. all_play;
  message = λ n. none;
  download = failing;
  media_duration = λ path. pos 60;
  mix = λ n last. ok (proposal ∷ []);
  pick = λ n k. 0;
  leave = λ n. none;
}

abbrev track : PlayerCache
track = record {
  url = [];
  name = [];
  loop = pos 2;
  user = bytes "someone";
  file_path = [];
  thumbnail = [];
  track_id = bytes "a";
  duration = pos 60;
  channel = [];
  views = [];
  is_video = false;
  platform = youtube;
}

-- One song, with two loops left, and autoplay.
abbrev session : Session in_memory
session = record {
  world = record {
    chats = record {
      chat_cache =
          (negsuc 6, record { queue = some 1 ∷ []; autoplay = true; autoplay_history = [] }) ∷ [];
    };
    time_offsets = [];
    assistants = record { store = []; cache = record { entries = []; ttl = 60 } };
    tried = [];
  };
  mem = λ a. track;
  fresh = 2;
  round = 0;
}

outside-IsSound : IsSound outside 2
outside-IsSound = (λ n h. omega arith, λ n last. (refl, tt))

session-remaining : remaining 5 (negsuc 6) session ≡ 13
unfolding left lookup
session-remaining = refl

play_next-EndsBy_example :
    EndsBy
      (session.round + remaining 5 (negsuc 6) session + 1)
      (play_next 14 outside 2 5 (negsuc 6) session)
play_next-EndsBy_example =
    play_next-EndsBy 14 outside 2 5 (negsuc 6) session outside-IsSound
      (omega (arith, session-remaining))
