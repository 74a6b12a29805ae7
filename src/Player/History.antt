-- ===== src/Player/History.antt =====
-- internal/cache/player_cache.go: the autoplay history of a chat, and what the getters say.
use tg.Base.{
  ◌≡◌, List, [], ◌∷◌, ◌++◌, none, some, false, ◌||◌, Text, ℤ, arith, if◌then◌else◌, int_eq, text_eq,
  contains, Distinct, Distinct-snoc, is_blank,
}
use tg.Player.State.{Memory, Pointer, ChatCacher, data_of}
use tg.Player.Updates.{note_played, add_ids}
use tg.Player.Calls.{
  Op, Call, step, run, spec, history_spec, adds, removes_current, sets_autoplay, adds_history,
  clears_history, clears,
}
use tg.Player.Queue.{apply-Means}

abbrev pub HasNoBlank : List Text → Type 0
HasNoBlank [] = Unit
HasNoBlank (id ∷ ids) = (is_blank id ≡ false) × HasNoBlank ids

-- No id is empty and none stands twice.
abbrev pub IsClean : List Text → Type 0
IsClean history = Distinct history × HasNoBlank history

HasNoBlank-snoc :
    (ids : List Text) (id : Text)
    → HasNoBlank ids
    → is_blank id ≡ false
    → HasNoBlank (ids ++ id ∷ [])
HasNoBlank-snoc [] id h e = (e, tt)
HasNoBlank-snoc (x ∷ xs) id h e = (h.0, HasNoBlank-snoc xs id h.1 e)

IsClean-snoc :
    (ids : List Text) (id : Text)
    → IsClean ids
    → is_blank id ≡ false
    → contains ids id ≡ false
    → IsClean (ids ++ id ∷ [])
IsClean-snoc ids id h e f = (Distinct-snoc ids id h.0 f, HasNoBlank-snoc ids id h.1 e)

note_played-IsClean :
    (mem : Memory) (p : Pointer) (history : List Text)
    → IsClean history
    → IsClean (note_played mem p history)
unfolding note_played
note_played-IsClean mem none history h = h
note_played-IsClean mem (some a) history h = ground (arith, IsClean-snoc history (mem a).track_id h)

add_ids-IsClean : (ids history : List Text) → IsClean history → IsClean (add_ids ids history)
unfolding add_ids
add_ids-IsClean [] history h = h
add_ids-IsClean (id ∷ ids) history h =
    add_ids-IsClean ids (if is_blank id || contains history id then history else history ++ id ∷ [])
      (ground (arith, IsClean-snoc history id h))

history_spec-IsClean :
    (mem : Memory) (op : Op) (queue : List Pointer) (history : List Text)
    → IsClean history
    → IsClean (history_spec mem op queue history)
unfolding history_spec
history_spec-IsClean mem (adds song) queue history h = ground arith
history_spec-IsClean mem removes_current [] history h = h
history_spec-IsClean mem removes_current (x ∷ xs) history h = note_played-IsClean mem x history h
history_spec-IsClean mem (sets_autoplay state) queue history h = ground arith
history_spec-IsClean mem (adds_history ids) queue history h = add_ids-IsClean ids history h
history_spec-IsClean mem clears_history queue history h = (tt, tt)
history_spec-IsClean mem clears queue history h = (tt, tt)
history_spec-IsClean mem _ queue history h = h

step-IsClean :
    (k : Call) (j : ℤ) (c : ChatCacher)
    → IsClean (data_of j c).autoplay_history
    → IsClean (data_of j (step k c)).autoplay_history
unfolding step spec
step-IsClean k j c h = rw (apply-Means k.mem k.chat k.op c j) (
    ground
      (arith, history_spec-IsClean k.mem k.op (data_of j c).queue (data_of j c).autoplay_history h))

-- Whatever is called on whatever chats, the autoplay history of a chat that holds no empty id and
-- no id twice never comes to hold one.
pub run-IsClean :
    (ks : List Call) (j : ℤ) (c : ChatCacher)
    → IsClean (data_of j c).autoplay_history
    → IsClean (data_of j (run ks c)).autoplay_history
unfolding run
run-IsClean [] j c h = h
run-IsClean (k ∷ ks) j c h = run-IsClean ks j (step k c) (step-IsClean k j c h)
