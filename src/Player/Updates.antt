-- ===== src/Player/Updates.antt =====
-- internal/cache/player_cache.go: the methods of ChatCacher that write. Each holds the lock
-- throughout, and returns the new state, with what the method returns if it returns anything.
use tg.Base.{
  ℕ, zero, suc, ◌+◌, ◌-◌, List, [], ◌∷◌, ◌++◌, Option, none, some, Bool, true, false, not, ◌&&◌,
  ◌||◌, Text, ltb, leb, if◌then◌else◌, ◌==◌, length, lookup, delete, text_eq, int_eq, nat_eq, ℤ,
  pos, negsuc, is_empty, is_blank, get_elem?, set, take, drop, contains,
}
use tg.Player.State.{
  youtube, Memory, Pointer, ChatCacher, put, get_or_create, is_requested, get_queue_length,
  pointer_at, get_playing_track, has_track_id, write,
}

unfoldable pub add_song : Memory → ℤ → Pointer → ChatCacher → ChatCacher × ℕ
add_song mem chat song c =
    let (c', d) = get_or_create chat c in
    let queue = d.queue ++ song ∷ [] in
    let history = if is_requested mem song then [] else d.autoplay_history in
    (put chat (record d { queue = queue; autoplay_history = history }) c', length queue)

unfoldable pub add_songs : ℤ → List Pointer → ChatCacher → ChatCacher × ℕ
unfolding get_queue_length
add_songs chat [] c = (c, get_queue_length chat c)
add_songs chat (song ∷ songs) c =
    let (c', d) = get_or_create chat c in
    let queue = d.queue ++ song ∷ songs in (put chat (record d { queue = queue }) c', length queue)

-- `copy(xs[at:], ys)`, where `ys` is what the source slice held before.
unfoldable pub copy_to {ℓ} : {A : Type ℓ} → List A → ℕ → List A → List A
copy_to [] i ys = []
copy_to (x ∷ xs) zero [] = x ∷ xs
copy_to (x ∷ xs) zero (y ∷ ys) = y ∷ copy_to xs zero ys
copy_to (x ∷ xs) (suc i) ys = x ∷ copy_to xs i ys

-- The queue after AddSongToFront.
unfoldable pub put_in_front : Pointer → List Pointer → List Pointer
unfolding copy_to
put_in_front song [] = song ∷ []
put_in_front song (x ∷ xs) =
    let queue = (x ∷ xs) ++ none ∷ [] in set (copy_to queue 2 (drop 1 queue)) 1 song

unfoldable pub add_song_to_front : ℤ → Pointer → ChatCacher → ChatCacher × ℕ
unfolding put_in_front
add_song_to_front chat song c =
    let (c', d) = get_or_create chat c in
    let queue = put_in_front song d.queue in
    (put chat (record d { queue = queue }) c', length queue)

-- The loop that looks for the track; `i` is the index of the list's first entry.
unfoldable pub index_from : Memory → Text → ℕ → List Pointer → Option ℕ
index_from mem id i [] = none
index_from mem id i (p ∷ ps) =
    let rest = index_from mem id (i + 1) ps in if has_track_id mem id p then some i else rest

-- The queue after the track at an index was moved behind the current one.
unfoldable pub shift_to_front : ℕ → List Pointer → List Pointer
unfolding copy_to
shift_to_front index queue = elim (get_elem? queue index) [
  | none ↦ queue
  | some track ↦ set (copy_to queue 2 (take (index - 1) (drop 1 queue))) 1 track
]

unfoldable pub move_track_to_front : Memory → ℤ → Text → ChatCacher → ChatCacher × Bool
unfolding index_from shift_to_front
move_track_to_front mem chat id c = elim (lookup chat c.chat_cache) [
  | none ↦ (c, false)
  | some d ↦
      if ltb (length d.queue) 2 then (c, false) else elim (index_from mem id 1 (drop 1 d.queue)) [
        | none ↦ (c, false)
        | some index ↦ (put chat (record d { queue = shift_to_front index d.queue }) c, true)
      ]
]

-- The history once a track has been played.
unfoldable pub note_played : Memory → Pointer → List Text → List Text
note_played mem none history = history
note_played mem (some a) history =
    let id = (mem a).track_id in
    if (mem a).platform == youtube && not (is_blank id)
    then (if contains history id then history else history ++ id ∷ [])
    else history

unfoldable pub remove_current_song : Memory → ℤ → ChatCacher → ChatCacher × Pointer
unfolding note_played
remove_current_song mem chat c = elim (lookup chat c.chat_cache) [
  | none ↦ (c, none)
  | some d ↦ if is_empty d.queue then (c, none) else (
    put chat
        (record d {
          queue = drop 1 d.queue;
          autoplay_history = note_played mem (pointer_at d.queue 0) d.autoplay_history;
        })
        c,
    pointer_at d.queue 0,
  )
]

-- The queue after RemoveTrack at an index within it.
unfoldable pub cut_out : ℕ → List Pointer → List Pointer
unfolding copy_to
cut_out index queue =
    let last = length queue - 1 in
    take last (set (copy_to queue index (drop (index + 1) queue)) last none)

unfoldable pub remove_track : ℤ → ℤ → ChatCacher → ChatCacher × Bool
unfolding cut_out
remove_track chat (negsuc n) c = (c, false)
remove_track chat (pos index) c = elim (lookup chat c.chat_cache) [
  | none ↦ (c, false)
  | some d ↦
      if leb (length d.queue) index
      then (c, false)
      else (put chat (record d { queue = cut_out index d.queue }) c, true)
]

unfoldable pub set_autoplay : ℤ → Bool → ChatCacher → ChatCacher
set_autoplay chat state c =
    let (c', d) = get_or_create chat c in
    let history = if state then d.autoplay_history else [] in
    put chat (record d { autoplay = state; autoplay_history = history }) c'

-- The loop of AddAutoplayHistory.
unfoldable pub add_ids : List Text → List Text → List Text
add_ids [] history = history
add_ids (id ∷ ids) history =
    add_ids ids (if is_blank id || contains history id then history else history ++ id ∷ [])

unfoldable pub add_autoplay_history : ℤ → List Text → ChatCacher → ChatCacher
unfolding add_ids
add_autoplay_history chat ids c =
    let (c', d) = get_or_create chat c in
    put chat (record d { autoplay_history = add_ids ids d.autoplay_history }) c'

unfoldable pub clear_autoplay_history : ℤ → ChatCacher → ChatCacher
clear_autoplay_history chat c = elim (lookup chat c.chat_cache) [
  | none ↦ c
  | some d ↦ put chat (record d { autoplay_history = [] }) c
]

unfoldable pub clear_chat : ℤ → ChatCacher → ChatCacher
clear_chat chat c = record c { chat_cache = delete chat c.chat_cache }

unfoldable pub set_loop_count : Memory → ℤ → ℤ → ChatCacher → Memory × Bool
unfolding get_playing_track
set_loop_count mem chat loop c = elim (get_playing_track chat c) [
  | none ↦ (mem, false)
  | some a ↦ (write a (record (mem a) { loop = loop }) mem, true)
]
