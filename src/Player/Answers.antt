-- ===== src/Player/Answers.antt =====
-- internal/cache/player_cache.go: what the methods return.
use tg.Base.{
  ℕ, inl, inr, ◌≡◌, refl, ap, sym, List, [], ◌∷◌, none, some, true, false, not, Text, ℤ, pos,
  negsuc, arith, if◌then◌else◌, ◌==◌, int_eq, int_beq_iff, text_eq, lookup, HasUniqueKeys,
  insert-HasUniqueKeys, delete-HasUniqueKeys, Option-cases, contains, is_empty, ltb, length, drop,
  ==_refl, nat_eq,
}
use tg.Player.State.{
  Memory, Pointer, VcData, ChatCacher, new_chat_cacher, empty_data, data_of, put, get_or_create,
  pointer_at, get_playing_track, get_queue_length, is_some,
}
use tg.Player.Updates.{
  add_song, add_songs, add_song_to_front, move_track_to_front, remove_current_song, remove_track,
  set_autoplay, add_autoplay_history, clear_autoplay_history, clear_chat, set_loop_count,
}
use tg.Player.Getters.{
  is_active, active_in, get_active_chats, find_track, get_loop_count, get_track_if_exists,
}
use tg.Player.Slices.{position, index_from-position}
use tg.Player.Calls.{
  Op, Call, apply, step, run, adds, adds_all, adds_to_front, moves_to_front, removes_current,
  removes, sets_autoplay, adds_history, clears_history, clears,
}
use tg.Player.Queue.{data_of-put}

data_of-put_self : (chat : ℤ) (d : VcData) (c : ChatCacher) → data_of chat (put chat d c) ≡ d
data_of-put_self chat d c = ground (arith, data_of-put chat chat d c, ==_refl chat)

add_songs-length :
    (chat : ℤ) (songs : List Pointer) (c : ChatCacher)
    → let b = add_songs chat songs c in b.1 ≡ length (data_of chat b.0).queue
unfolding add_songs get_queue_length
add_songs-length chat [] c = ground arith
add_songs-length chat (s ∷ ss) c =
    sym (ap (λ (d : VcData). length d.queue) (data_of-put_self chat _ _))

-- The numbers that the methods which add songs return are the lengths of the queue after them.
pub add-length :
    (mem : Memory) (chat : ℤ) (song : Pointer) (songs : List Pointer) (c : ChatCacher)
    → let a = add_song mem chat song c in
      let b = add_songs chat songs c in
      let f = add_song_to_front chat song c in
      (a.1 ≡ length (data_of chat a.0).queue)
      × (b.1 ≡ length (data_of chat b.0).queue)
      × (f.1 ≡ length (data_of chat f.0).queue)
unfolding add_song add_song_to_front
add-length mem chat song songs c = (
  sym (ap (λ (d : VcData). length d.queue) (data_of-put_self chat _ _)),
  add_songs-length chat songs c,
  sym (ap (λ (d : VcData). length d.queue) (data_of-put_self chat _ _)),
)

position-short :
    (mem : Memory) (id : Text) (queue : List Pointer)
    → ltb (length queue) 2 ≡ true
    → position mem id (drop 1 queue) ≡ none
position-short mem id [] h = refl
position-short mem id (x ∷ []) h = refl
position-short mem id (x ∷ y ∷ ys) h = absurd (ground arith)

move_track_to_front-answer :
    (mem : Memory) (chat : ℤ) (id : Text) (c : ChatCacher)
    → (move_track_to_front mem chat id c).1
      ≡ is_some (position mem id (drop 1 (data_of chat c).queue))
unfolding move_track_to_front
move_track_to_front-answer mem chat id c = elim (Option-cases (lookup chat c.chat_cache)) [
  | inl e ↦ ground arith
  | inr (d, e) ↦
      ground (arith, index_from-position mem id 1 (drop 1 d.queue), position-short mem id d.queue)
]

-- The methods that take songs out or move them answer with the song that was playing, with
-- whether the index is one of the queue, and with whether a track with the id stands behind the
-- current song.
pub remove-answer :
    (mem : Memory) (chat : ℤ) (i : ℕ) (id : Text) (c : ChatCacher)
    → let queue = (data_of chat c).queue in
      ((remove_current_song mem chat c).1 ≡ pointer_at queue 0)
      × ((remove_track chat (pos i) c).1 ≡ ltb i (length queue))
      × ((remove_track chat (negsuc i) c).1 ≡ false)
      × ((move_track_to_front mem chat id c).1 ≡ is_some (position mem id (drop 1 queue)))
unfolding remove_current_song remove_track
remove-answer mem chat i id c = ground (arith, move_track_to_front-answer mem chat id c)

-- SetLoopCount sets the loop count of the playing track, which GetLoopCount then returns, and
-- changes nothing else in memory; it reports false, and changes nothing, where nothing plays.
pub get_loop_count-set_loop_count :
    (mem : Memory) (chat loop : ℤ) (c : ChatCacher) (a : ℕ)
    → let (mem', done) = set_loop_count mem chat loop c in
      (get_loop_count mem' chat c ≡ (if done then loop else pos 0))
      × (done ≡ is_some (get_playing_track chat c))
      × (mem' a ≡ elim (get_playing_track chat c) [
        | none ↦ mem a
        | some b ↦ if b == a then record (mem a) { loop = loop } else mem a
      ])
unfolding set_loop_count get_loop_count
get_loop_count-set_loop_count mem chat loop c a = ground arith

find_track-position :
    (mem : Memory) (id : Text) (queue : List Pointer)
    → find_track mem id queue
      ≡ elim (position mem id queue) [ none ↦ none | some i ↦ pointer_at queue i ]
unfolding find_track
find_track-position mem id [] = refl
find_track-position mem id (p ∷ ps) = ground (arith, find_track-position mem id ps)

-- GetTrackIfExists returns the first track of the queue that has the id, and nil where none has
-- it.
pub get_track_if_exists-position :
    (mem : Memory) (chat : ℤ) (id : Text) (c : ChatCacher)
    → get_track_if_exists mem chat id c ≡ elim (position mem id (data_of chat c).queue) [
      | none ↦ none
      | some i ↦ pointer_at (data_of chat c).queue i
    ]
unfolding get_track_if_exists
get_track_if_exists-position mem chat id c =
    ground (arith, find_track-position mem id (data_of chat c).queue)

put-HasUniqueKeys :
    (chat : ℤ) (d : VcData) (c : ChatCacher)
    → HasUniqueKeys c.chat_cache
    → HasUniqueKeys (put chat d c).chat_cache
unfolding put
put-HasUniqueKeys chat d c u = insert-HasUniqueKeys chat d c.chat_cache u

get_or_create-HasUniqueKeys :
    (chat : ℤ) (c : ChatCacher)
    → HasUniqueKeys c.chat_cache
    → HasUniqueKeys (get_or_create chat c).0.chat_cache
unfolding get_or_create
get_or_create-HasUniqueKeys chat c u = ground (arith, put-HasUniqueKeys chat empty_data c u)

step-HasUniqueKeys :
    (mem : Memory) (chat : ℤ) (op : Op) (c : ChatCacher)
    → HasUniqueKeys c.chat_cache
    → HasUniqueKeys (apply mem chat op c).chat_cache
unfolding apply
step-HasUniqueKeys mem chat (adds song) c u =
    unfold add_song in put-HasUniqueKeys chat _ _ (get_or_create-HasUniqueKeys chat c u)
step-HasUniqueKeys mem chat (adds_all []) c u = unfold add_songs in u
step-HasUniqueKeys mem chat (adds_all (s ∷ ss)) c u =
    unfold add_songs in put-HasUniqueKeys chat _ _ (get_or_create-HasUniqueKeys chat c u)
step-HasUniqueKeys mem chat (adds_to_front song) c u =
    unfold add_song_to_front in put-HasUniqueKeys chat _ _ (get_or_create-HasUniqueKeys chat c u)
step-HasUniqueKeys mem chat (moves_to_front id) c u =
    unfold move_track_to_front in grind (arith, put-HasUniqueKeys)
step-HasUniqueKeys mem chat removes_current c u =
    unfold remove_current_song in grind (arith, put-HasUniqueKeys)
step-HasUniqueKeys mem chat (removes (pos i)) c u =
    unfold remove_track in grind (arith, put-HasUniqueKeys)
step-HasUniqueKeys mem chat (removes (negsuc i)) c u = unfold remove_track in u
step-HasUniqueKeys mem chat (sets_autoplay state) c u =
    unfold set_autoplay in put-HasUniqueKeys chat _ _ (get_or_create-HasUniqueKeys chat c u)
step-HasUniqueKeys mem chat (adds_history ids) c u =
    unfold add_autoplay_history in put-HasUniqueKeys chat _ _ (get_or_create-HasUniqueKeys chat c u)
step-HasUniqueKeys mem chat clears_history c u =
    unfold clear_autoplay_history in grind (arith, put-HasUniqueKeys)
step-HasUniqueKeys mem chat clears c u =
    unfold clear_chat in delete-HasUniqueKeys chat c.chat_cache u

run-HasUniqueKeys :
    (ks : List Call) (c : ChatCacher)
    → HasUniqueKeys c.chat_cache
    → HasUniqueKeys (run ks c).chat_cache
unfolding run step
run-HasUniqueKeys [] c u = u
run-HasUniqueKeys (k ∷ ks) c u =
    run-HasUniqueKeys ks (step k c) (step-HasUniqueKeys k.mem k.chat k.op c u)

active_in-absent :
    (j : ℤ) (m : List (ℤ × VcData)) → lookup j m ≡ none → contains (active_in m) j ≡ false
unfolding active_in lookup
active_in-absent j [] h = refl
active_in-absent j ((chat, d) ∷ m) h = ground (arith, active_in-absent j m)

active_in-lookup :
    (j : ℤ) (m : List (ℤ × VcData))
    → HasUniqueKeys m
    → contains (active_in m) j
      ≡ elim (lookup j m) [ none ↦ false | some d ↦ not (is_empty d.queue) ]
unfolding active_in lookup
active_in-lookup j [] u = refl
active_in-lookup j ((chat, d) ∷ m) u =
    ground (arith, active_in-lookup j m u.1, active_in-absent j m, int_beq_iff chat j)

get_active_chats-is_active :
    (j : ℤ) (c : ChatCacher)
    → HasUniqueKeys c.chat_cache
    → contains (get_active_chats c) j ≡ is_active j c
unfolding get_active_chats is_active
get_active_chats-is_active j c u = active_in-lookup j c.chat_cache u

-- After any history of calls from the start, GetActiveChats lists a chat exactly if IsActive
-- holds of it, that is, if its queue is not empty.
pub run-get_active_chats :
    (j : ℤ) (ks : List Call)
    → let c = run ks new_chat_cacher in
      (contains (get_active_chats c) j ≡ is_active j c)
      × (is_active j c ≡ not (is_empty (data_of j c).queue))
unfolding new_chat_cacher is_active
run-get_active_chats j ks =
    (get_active_chats-is_active j _ (run-HasUniqueKeys ks new_chat_cacher tt), ground arith)
