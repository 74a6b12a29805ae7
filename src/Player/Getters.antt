-- ===== src/Player/Getters.antt =====
-- internal/cache/player_cache.go: the methods of ChatCacher that read.
use tg.Base.{
  List, [], ◌∷◌, none, some, Bool, false, not, Text, ltb, if◌then◌else◌, length, lookup, text_eq,
  int_eq, nat_eq, ℤ, pos, is_empty, last_or,
}
use tg.Player.State.{
  Memory, Pointer, VcData, ChatCacher, pointer_at, get_playing_track, has_track_id,
}

unfoldable pub get_upcoming_track : ℤ → ChatCacher → Pointer
get_upcoming_track chat c = elim (lookup chat c.chat_cache) [
  | none ↦ none
  | some d ↦ if ltb (length d.queue) 2 then none else pointer_at d.queue 1
]

unfoldable pub is_active : ℤ → ChatCacher → Bool
is_active chat c = elim (lookup chat c.chat_cache) [
  | none ↦ false
  | some d ↦ not (is_empty d.queue)
]

unfoldable pub get_autoplay : ℤ → ChatCacher → Bool
get_autoplay chat c = elim (lookup chat c.chat_cache) [ none ↦ false | some d ↦ d.autoplay ]

unfoldable pub get_autoplay_history : ℤ → ChatCacher → List Text
get_autoplay_history chat c = elim (lookup chat c.chat_cache) [
  | none ↦ []
  | some d ↦ d.autoplay_history
]

unfoldable pub get_last_autoplay_track_id : ℤ → ChatCacher → Text
get_last_autoplay_track_id chat c = elim (lookup chat c.chat_cache) [
  | none ↦ []
  | some d ↦ last_or [] d.autoplay_history
]

unfoldable pub get_loop_count : Memory → ℤ → ChatCacher → ℤ
unfolding get_playing_track
get_loop_count mem chat c = elim (get_playing_track chat c) [ none ↦ pos 0 | some a ↦ (mem a).loop ]

unfoldable pub get_queue : ℤ → ChatCacher → List Pointer
get_queue chat c = elim (lookup chat c.chat_cache) [ none ↦ [] | some d ↦ d.queue ]

-- The loop of GetActiveChats, over the map in some order.
unfoldable pub active_in : List (ℤ × VcData) → List ℤ
active_in [] = []
active_in ((chat, d) ∷ m) = if is_empty d.queue then active_in m else chat ∷ active_in m

unfoldable pub get_active_chats : ChatCacher → List ℤ
unfolding active_in
get_active_chats c = active_in c.chat_cache

-- The loop of GetTrackIfExists.
unfoldable pub find_track : Memory → Text → List Pointer → Pointer
find_track mem id [] = none
find_track mem id (p ∷ ps) = if has_track_id mem id p then p else find_track mem id ps

unfoldable pub get_track_if_exists : Memory → ℤ → Text → ChatCacher → Pointer
unfolding find_track
get_track_if_exists mem chat id c = elim (lookup chat c.chat_cache) [
  | none ↦ none
  | some d ↦ find_track mem id d.queue
]
