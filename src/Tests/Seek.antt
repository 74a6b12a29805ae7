-- ===== src/Tests/Seek.antt =====
-- Seeking in the current song.
use tg.Base.{
  ℕ, ◌+◌, ◌<◌, ◌≡◌, ◌≤◌, refl, List, [], ◌∷◌, Option, none, some, true, false, Text, bytes, ℤ, pos,
  negsuc, arith, if◌then◌else◌, lookup, insert, ok, int_eq, text_eq, nat_eq, format_int,
}
use tg.Base
use tg.Ttl
use tg.Db.Assistant
use tg.Db.Cached
use tg.Player.{PlayerCache, Memory, get_playing_track, is_active}
use tg.Commands.Numbers.{atoi, read_below, read_digits}
use tg.Playback.Defs.{Env, World, Attempt, plays, get_account, play_media_with_assistant}
use tg.Playback.Seek.{
  Look, skipped, wrap, played_time, get_played_time_offset, set_played_time_offset, seek_to,
  seek_stream, seek_by, seek_handler,
}
use tg.Playback.Position.{IsSought, seek_handler_lem}
use tg.Tests.Memory.{in_memory}

abbrev always_plays : ℕ → ℕ → Attempt
always_plays n i = plays

abbrev env : Env
env = record {
  attempt = always_plays;
  clock = λ n. n;
  write_fault = λ n. none;
  read_fault = none;
  assign_fault = none;
  draw = some 0;
}

abbrev song : PlayerCache
song = record {
  url = [];
  name = bytes "a song";
  loop = pos 0;
  user = [];
  file_path = bytes "a.mp3";
  thumbnail = [];
  track_id = bytes "a";
  duration = pos 200;
  channel = [];
  views = [];
  is_video = false;
  platform = [];
}

abbrev memory : Memory
memory a = song

abbrev world : World in_memory
world = record {
  chats = record {
    chat_cache =
        (negsuc 6, record { queue = some 1 ∷ []; autoplay = false; autoplay_history = [] }) ∷ [];
  };
  time_offsets = [];
  assistants = record { store = []; cache = record { entries = []; ttl = 60 } };
  tried = [];
}

abbrev at_20 : Look
at_20 = record { env = env; time = ok 20 }

abbrev at_21 : Look
at_21 = record { env = env; time = ok 21 }

playing : get_playing_track (negsuc 6) world.chats ≡ some 1
unfolding get_playing_track lookup
playing = refl

thirty : atoi (bytes "30") ≡ some (pos 30)
unfolding atoi read_below read_digits
thirty = refl

first_look : (played_time at_20 1 (negsuc 6) world).1 ≡ ok 20
unfolding played_time get_account get_played_time_offset lookup Assistant.get_assistant
    Assistant.assign_assistant Cached.read Ttl.get Ttl.set Ttl.set_with_ttl format_int
first_look = refl

second_look : (played_time at_21 1 (negsuc 6) (played_time at_20 1 (negsuc 6) world).0).1 ≡ ok 21
unfolding played_time get_account get_played_time_offset lookup insert Assistant.get_assistant
    Assistant.assign_assistant Cached.read Ttl.get Ttl.set Ttl.set_with_ttl format_int
second_look = refl

reply :
    (seek_handler true at_20 at_21 env memory 1 (negsuc 6) (bytes "30") world).1
    ≡ skipped (pos 30) (pos 50)
unfolding seek_handler seek_by seek_stream seek_to wrap is_active get_playing_track atoi read_below
    read_digits played_time get_account get_played_time_offset set_played_time_offset lookup insert
    Base.delete play_media_with_assistant Assistant.get_assistant Assistant.assign_assistant
    Cached.read Ttl.get Ttl.set Ttl.set_with_ttl format_int
reply = refl

seek_handler_example :
    let w' = (seek_handler true at_20 at_21 env memory 1 (negsuc 6) (bytes "30") world).0 in
    (10 ≤ 30) × IsSought 30 20 21 (pos 200) (pos 30) (pos 50) (negsuc 6) world w'
seek_handler_example =
    seek_handler_lem at_20 at_21 env memory 1 (negsuc 6) (bytes "30") world 1 30 20 21 (pos 30)
      (pos 50) playing thirty first_look second_look (omega arith) (omega arith) reply

-- A number of seconds that does not fit in 32 bits passes the test, and goes far beyond the song.
abbrev many : Text
many = bytes "4294967306"

beyond :
    (seek_handler true at_20 at_21 env memory 1 (negsuc 6) many world).1 ≡ skipped (pos 10) (pos 30)
unfolding seek_handler seek_by seek_stream seek_to wrap is_active get_playing_track atoi read_below
    read_digits played_time get_account get_played_time_offset set_played_time_offset lookup insert
    Base.delete play_media_with_assistant Assistant.get_assistant Assistant.assign_assistant
    Cached.read Ttl.get Ttl.set Ttl.set_with_ttl format_int
beyond = refl
