-- ===== src/Tests/Player.antt =====
-- The queues of the chats.
use tg.Base.{
  ℕ, zero, suc, ◌+◌, ◌≡◌, refl, List, [], ◌∷◌, ◌++◌, Option, none, some, Bool, true, false, not,
  Text, bytes, ℤ, pos, negsuc, arith, if◌then◌else◌, lookup, insert, ◌==◌, text_eq, nat_eq, int_eq,
  contains, is_empty, length, drop, ltb,
}
use tg.Base
use tg.Player
use tg.Player.{
  PlayerCache, Memory, Pointer, VcData, ChatCacher, new_chat_cacher, data_of, pointer_at, is_some,
}
use tg.Player.Calls.{
  Call, run, spec, adds, adds_all, adds_to_front, moves_to_front, removes_current, removes,
  adds_history,
}
use tg.Player.Queue.{run_spec, run-run_spec}
use tg.Player.Answers.{run-get_active_chats}
use tg.Player.History.{IsClean, run-IsClean}

program : Unit {0}
unfolding lookup insert Base.delete Player.put Player.get_or_create run spec Player.get_active_chats
    Player.is_active new_chat_cacher Player.add_autoplay_history Player.remove_current_song
    Player.remove_track Player.move_track_to_front Player.add_song_to_front Player.add_songs
    Player.add_song
program = tt

abbrev blank_track : PlayerCache
blank_track = record {
  url = [];
  name = [];
  loop = pos 0;
  user = bytes "Ada";
  file_path = [];
  thumbnail = [];
  track_id = [];
  duration = pos 0;
  channel = [];
  views = [];
  is_video = false;
  platform = bytes "youtube";
}

-- The track at an address has the address as its id.
abbrev tracks : Memory
tracks a = record blank_track { track_id = a ∷ [] }

abbrev calls : List Call
calls =
    record { mem = tracks; chat = negsuc 9; op = adds (some 1) }
    ∷ record { mem = tracks; chat = negsuc 9; op = adds_all (some 2 ∷ some 3 ∷ []) }
    ∷ record { mem = tracks; chat = negsuc 9; op = adds_to_front (some 4) }
    ∷ record { mem = tracks; chat = negsuc 9; op = moves_to_front (3 ∷ []) }
    ∷ record { mem = tracks; chat = negsuc 9; op = removes (pos 2) }
    ∷ record { mem = tracks; chat = negsuc 9; op = removes_current }
    ∷ record { mem = tracks; chat = pos 9; op = adds_history ((5 ∷ []) ∷ [] ∷ (5 ∷ []) ∷ []) }
    ∷ []

-- 1; 1 2 3; 1 4 2 3; 1 3 4 2; 1 3 2; 3 2.
queue_after : (data_of (negsuc 9) (run calls new_chat_cacher)).queue ≡ some 3 ∷ some 2 ∷ []
unfolding program
queue_after = refl

history_after : (data_of (pos 9) (run calls new_chat_cacher)).autoplay_history ≡ (5 ∷ []) ∷ []
unfolding program
history_after = refl

abbrev chats : ChatCacher
chats = record {
  chat_cache =
      (
        negsuc 9,
        record {
          queue = some 1 ∷ none ∷ some 2 ∷ [];
          autoplay = true;
          autoplay_history = (7 ∷ []) ∷ [];
        },
      )
      ∷ [];
}

run-run_spec_example :
    data_of (negsuc 9) (run calls chats) ≡ run_spec (negsuc 9) calls (data_of (negsuc 9) chats)
run-run_spec_example = run-run_spec (negsuc 9) calls chats

new_chat_cacher-IsClean : IsClean (data_of (negsuc 9) new_chat_cacher).autoplay_history
unfolding new_chat_cacher lookup
new_chat_cacher-IsClean = (tt, tt)

run-IsClean_example : IsClean (data_of (negsuc 9) (run calls new_chat_cacher)).autoplay_history
run-IsClean_example = run-IsClean calls (negsuc 9) new_chat_cacher new_chat_cacher-IsClean

run-get_active_chats_example :
    let c = run calls new_chat_cacher in
    (contains (Player.get_active_chats c) (negsuc 9) ≡ Player.is_active (negsuc 9) c)
    × (Player.is_active (negsuc 9) c ≡ not (is_empty (data_of (negsuc 9) c).queue))
run-get_active_chats_example = run-get_active_chats (negsuc 9) calls
