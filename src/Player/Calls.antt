-- ===== src/Player/Calls.antt =====
-- internal/cache/player_cache.go: histories of calls of the writing methods, and what a call on one
-- chat leaves alone.
use tg.Base.{
  drop, erase_at, ◌++◌, List, [], ◌∷◌, none, some, Bool, false, Text, ℤ, pos, negsuc, if◌then◌else◌,
  int_eq,
}
use tg.Player.State.{Memory, Pointer, VcData, ChatCacher, pointer_at, is_requested}
use tg.Player.Slices.{position}
use tg.Player.Updates.{
  add_song, add_songs, add_song_to_front, move_track_to_front, remove_current_song, remove_track,
  add_ids, note_played, set_autoplay, add_autoplay_history, clear_autoplay_history, clear_chat,
}

-- A writing method and its arguments, but for the chat.
pub data Op : Type 0 where
  adds : Pointer → Op
  adds_all : List Pointer → Op
  adds_to_front : Pointer → Op
  moves_to_front : Text → Op
  removes_current : Op
  removes : ℤ → Op
  sets_autoplay : Bool → Op
  adds_history : List Text → Op
  clears_history : Op
  clears : Op

-- A call: the tracks in memory at its time, the chat and the method.
pub record Call : Type 0 where
  pub mem : Memory
  pub chat : ℤ
  pub op : Op

unfoldable pub apply : Memory → ℤ → Op → ChatCacher → ChatCacher
apply mem chat (adds song) c = (add_song mem chat song c).0
apply mem chat (adds_all songs) c = (add_songs chat songs c).0
apply mem chat (adds_to_front song) c = (add_song_to_front chat song c).0
apply mem chat (moves_to_front id) c = (move_track_to_front mem chat id c).0
apply mem chat removes_current c = (remove_current_song mem chat c).0
apply mem chat (removes index) c = (remove_track chat index c).0
apply mem chat (sets_autoplay state) c = set_autoplay chat state c
apply mem chat (adds_history ids) c = add_autoplay_history chat ids c
apply mem chat clears_history c = clear_autoplay_history chat c
apply mem chat clears c = clear_chat chat c

unfoldable pub step : Call → ChatCacher → ChatCacher
unfolding apply
step k c = apply k.mem k.chat k.op c

unfoldable pub run : List Call → ChatCacher → ChatCacher
unfolding step
run [] c = c
run (k ∷ ks) c = run ks (step k c)

-- The reference: what a method means to the state of its chat, on plain lists.
unfoldable pub move_spec : Memory → Text → List Pointer → List Pointer
move_spec mem id [] = []
move_spec mem id (x ∷ xs) = elim (position mem id xs) [
  | none ↦ x ∷ xs
  | some i ↦ x ∷ pointer_at xs i ∷ erase_at i xs
]

unfoldable pub queue_spec : Memory → Op → List Pointer → List Pointer
unfolding move_spec
queue_spec mem (adds song) queue = queue ++ song ∷ []
queue_spec mem (adds_all songs) queue = queue ++ songs
queue_spec mem (adds_to_front song) [] = song ∷ []
queue_spec mem (adds_to_front song) (x ∷ xs) = x ∷ song ∷ xs
queue_spec mem (moves_to_front id) queue = move_spec mem id queue
queue_spec mem removes_current queue = drop 1 queue
queue_spec mem (removes (pos i)) queue = erase_at i queue
queue_spec mem (removes (negsuc n)) queue = queue
queue_spec mem (sets_autoplay state) queue = queue
queue_spec mem (adds_history ids) queue = queue
queue_spec mem clears_history queue = queue
queue_spec mem clears queue = []

unfoldable pub history_spec : Memory → Op → List Pointer → List Text → List Text
history_spec mem (adds song) queue history = if is_requested mem song then [] else history
history_spec mem removes_current [] history = history
history_spec mem removes_current (x ∷ xs) history = note_played mem x history
history_spec mem (sets_autoplay state) queue history = if state then history else []
history_spec mem (adds_history ids) queue history = add_ids ids history
history_spec mem clears_history queue history = []
history_spec mem clears queue history = []
history_spec mem _ queue history = history

unfoldable pub autoplay_spec : Op → Bool → Bool
autoplay_spec (sets_autoplay state) autoplay = state
autoplay_spec clears autoplay = false
autoplay_spec _ autoplay = autoplay

unfoldable pub spec : Memory → Op → VcData → VcData
unfolding queue_spec history_spec autoplay_spec
spec mem op d = record {
  queue = queue_spec mem op d.queue;
  autoplay = autoplay_spec op d.autoplay;
  autoplay_history = history_spec mem op d.queue d.autoplay_history;
}
