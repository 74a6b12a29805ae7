-- ===== src/Tests/Call.antt =====
-- Group calls.
use tg.Base.{
  ◌≡◌, refl, List, [], ◌∷◌, none, some, true, false, bytes, pos, negsuc, lookup, int_eq, ok,
}
use tg.Call.State.{call_obj, Media, AssistantAccount, register_wait, peer_user, input_channel}
use tg.Call.Connect.{Replies, rtc_connection, received}
use tg.Call.Updates.{Status, connecting, connected, failed, closed}
use tg.Call.Settled.{IsSettled}
use tg.Call.Events.{Event, streams, stops_call, changes, updates_participants, run, run-IsSettled}
use tg.Call.Signals.{Change, IsNumbered, first_signal, run_changes, register_wait-first_signal}

abbrev start : AssistantAccount
start = record {
  self_id = some (pos 9);
  muted_by_admin = [];
  presentations = [];
  input_group_calls = (negsuc 6, some (call_obj (pos 3) (pos 4))) ∷ [];
  pending_connections = [];
  wait_connect = [];
  channels = λ n. none;
  made = 0;
  native = [];
}

abbrev replies : Replies
replies = record {
  calls = ok [];
  create_call = ok (bytes "json");
  set_stream_sources = none;
  resolve_peer = ok (input_channel (pos 6));
  full_chat = ok none;
  join_group_call = none;
  connect = none;
  connection_mode = ok rtc_connection;
  wait = received none;
  init_presentation = ok (bytes "json");
  join_presentation_call = none;
  connect_presentation = none;
  wait_presentation = received none;
  stop_presentation = none;
  leave_presentation = none;
  stop = none;
  leave_group_call = none;
}

abbrev media : Media
media = record { has_camera = false; has_screen = true }

abbrev status : Status
status = record { mode = ok rtc_connection; get_state = none; set_status = none }

start-IsSettled : IsSettled start
unfolding lookup
start-IsSettled = record { presented = tt; muted = tt; unwaited = λ chat. refl }

abbrev events : List Event
events =
    streams replies (negsuc 6) media
    ∷ streams replies (negsuc 6) media
    ∷ updates_participants replies status (some (pos 3))
        (record { peer = peer_user (pos 9); can_self_unmute = false } ∷ [])
    ∷ changes (negsuc 6) failed
    ∷ stops_call replies (negsuc 6) false
    ∷ []

run-IsSettled_example : IsSettled (run events start)
run-IsSettled_example = run-IsSettled events start start-IsSettled

start-IsNumbered : IsNumbered start
unfolding lookup
start-IsNumbered j n h = cc

abbrev change_log : List Change
change_log =
    record { chat = negsuc 6; state = connecting }
    ∷ record { chat = negsuc 7; state = failed }
    ∷ record { chat = negsuc 6; state = connected }
    ∷ record { chat = negsuc 6; state = closed }
    ∷ []

register_wait-first_signal_example :
    (run_changes change_log (register_wait (negsuc 6) start)).channels 0 ≡ some none
unfolding first_signal
register_wait-first_signal_example =
    register_wait-first_signal (negsuc 6) change_log start start-IsNumbered

abbrev refusing : Replies
refusing = record replies { join_group_call = some (bytes "GROUPCALL_ADD_PARTICIPANTS_FAILED") }

abbrev listing : Replies
listing = record replies { calls = ok (negsuc 6 ∷ []) }
