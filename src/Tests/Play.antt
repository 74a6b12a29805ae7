-- ===== src/Tests/Play.antt =====
-- The commands that add songs.
use tg.Base.{
  ◌≡◌, refl, List, [], ◌∷◌, none, some, true, false, Text, bytes, pos, negsuc, lookup, int_eq, ok,
  err, length,
}
use tg.Player.{no_track, data_of, youtube}
use tg.Playback.Defs.{Env, plays}
use tg.Playback.Next.{GetUrlTrack, Outside, Session}
use tg.Play.Defs.{Attempt, Config, within_limit}
use tg.Play.Allocated.{short_tracks, addresses}
use tg.Play.Forced.{PlaysFirst, handle_multiple_tracks-PlaysFirst, handle_multiple_tracks-forced}
use tg.Play.Defs
use tg.Tests.Memory.{in_memory}

abbrev all_play : Env
all_play = record {
  attempt = λ n i. plays;
  clock = λ n. n;
  write_fault = λ n. none;
  read_fault = none;
  assign_fault = none;
  draw = some 0;
}

abbrev outside : Outside
outside = record {
  play = λ n. all_play;
  message = λ n. none;
  download = λ n song. (bytes "f", none);
  media_duration = λ path. pos 60;
  mix = λ n last. ok [];
  pick = λ n k. 0;
  leave = λ n. none;
}

abbrev attempt : Attempt
attempt = record {
  next = outside;
  fuel = 1;
  download = λ song. err (bytes "timeout");
  play = all_play;
}

abbrev config : Config
config = record { total = 2; auto_play_limit = 5; song_duration_limit = pos 600 }

abbrev found : Text → GetUrlTrack
found id = record {
  id = id;
  url = bytes "u";
  title = bytes "t";
  thumbnail = [];
  duration = pos 60;
  channel = [];
  views = [];
  platform = youtube;
}

abbrev three_tracks : List GetUrlTrack
three_tracks = found (bytes "a") ∷ found (bytes "b") ∷ found (bytes "c") ∷ []

abbrev idle : Session in_memory
idle = record {
  world = record {
    chats = record { chat_cache = [] };
    time_offsets = [];
    assistants = record { store = []; cache = record { entries = []; ttl = 60 } };
    tried = [];
  };
  mem = λ a. no_track;
  fresh = 0;
  round = 0;
}

idle-queue : (data_of (negsuc 6) idle.world.chats).queue ≡ []
unfolding lookup
idle-queue = refl

all_within : length (short_tracks config.song_duration_limit three_tracks) ≡ 3
all_within = refl

handle_multiple_tracks-PlaysFirst_example :
    PlaysFirst attempt config
      (negsuc 6)
      (bytes "someone")
      false
      false
      three_tracks
      idle
      0
      3
      (addresses 0 3)
      three_tracks
      (pos 0)
handle_multiple_tracks-PlaysFirst_example =
    handle_multiple_tracks-PlaysFirst attempt config (negsuc 6) (bytes "someone") false three_tracks
      idle 0 2 idle-queue all_within refl

handle_multiple_tracks-forced_example :
    PlaysFirst attempt config
      (negsuc 6)
      (bytes "someone")
      false
      true
      three_tracks
      idle
      0
      3
      (addresses 0 2)
      three_tracks
      (pos 1)
handle_multiple_tracks-forced_example =
    handle_multiple_tracks-forced attempt config (negsuc 6) (bytes "someone") false three_tracks
      idle 0 1 idle-queue all_within refl
