-- ===== src/Playback/Position.antt =====
-- internal/calls/call.go and internal/bot/seek.go: where a song goes on after a seek.
use tg.Base.{
  [], ◌∷◌, Result-cases, Bool-cases, Option-cases, inl, inr, is_positive, is_blank, false, ℕ, ◌+◌,
  ◌<◌, ◌≤◌, ◌≡◌, refl, none, some, true, ok, pos, ℤ, Text, lookup, lookup-insert_self, arith,
  int_eq,
}
use tg.Player.{ChatCacher, Memory, get_playing_track, is_active}
use tg.Commands.Numbers.{atoi}
use tg.Commands.Remove.{int_lt}
use tg.Db.Collection.{Collection}
use tg.Playback.Defs.{Env, World, get_account, play_media_with_assistant}
use tg.Playback.Seek.{
  Look, set_played_time_offset, seek_params, played_time, seek_to, seek_stream, seek_by,
  seek_handler, skipped, wrap, two_32, two_64,
}

-- Small numbers fit.
wrap_small : (n : ℕ) → n < 9223372036854775808 → wrap two_64 (pos n) ≡ pos n
unfolding wrap
wrap_small n h = ground arith

wrap_small_32 : (n : ℕ) → n < 2147483648 → wrap two_32 (pos n) ≡ pos n
unfolding wrap
wrap_small_32 n h = ground arith

get_playing_track-is_active :
    (chat : ℤ) (c : ChatCacher) (a : ℕ)
    → get_playing_track chat c ≡ some a
    → is_active chat c ≡ true
unfolding get_playing_track is_active
get_playing_track-is_active chat c a = elim (Option-cases (lookup chat c.chat_cache)) [
  | inl e ↦ rw (e, get_playing_track) (λ h. absurd cc)
  | inr (d, e) ↦ rw (e, get_playing_track, is_active) (λ h. ground arith)
]

atoi-is_blank : (args : Text) (n : ℤ) → atoi args ≡ some n → is_blank args ≡ false
unfolding atoi
atoi-is_blank [] n h = absurd cc
atoi-is_blank (c ∷ s) n h = refl

module _ {C : Collection ℤ ℤ} where
  get_account-time_offsets :
      (env : Env) (total : ℕ) (chat : ℤ) (w : World C)
      → let w' = (get_account env total chat w).0 in
        (w'.time_offsets ≡ w.time_offsets) × (w'.chats ≡ w.chats)
  unfolding get_account
  get_account-time_offsets env total chat w = ground arith

  play-time_offsets :
      (env : Env) (chat : ℤ) (ff : Text) (index : ℕ) (w : World C)
      → is_blank ff ≡ false
      → (play_media_with_assistant env chat ff index w).1 ≡ none
      → let w' = (play_media_with_assistant env chat ff index w).0 in
        (w'.time_offsets ≡ w.time_offsets) × (w'.chats ≡ w.chats)
  unfolding play_media_with_assistant
  play-time_offsets env chat ff index w b h = ground arith

  seek_to-time_offsets :
      (env : Env) (total : ℕ) (chat duration : ℤ) (n : ℕ) (w : World C)
      → (seek_to env total chat (pos n) duration w).1 ≡ none
      → let w' = (seek_to env total chat (pos n) duration w).0 in
        (lookup chat w'.time_offsets ≡ some n) × (w'.chats ≡ w.chats)
  unfolding seek_to set_played_time_offset
  seek_to-time_offsets env total chat duration n w =
      let s = set_played_time_offset chat n w in
      let known = get_account-time_offsets env total chat s in
      let inserted = lookup-insert_self chat n w.time_offsets in
      elim (Bool-cases (is_positive duration)) [
        | inr e ↦ rw (e) (λ h. absurd cc)
        | inl e ↦ elim (Option-cases (get_account env total chat s).1) [
          | inl a ↦ rw (e, a) (λ h. absurd cc)
          | inr (index, a) ↦
              rw (e, a)
                (λ h.
                  let plays =
                    play-time_offsets env chat (seek_params (pos n) duration) index
                      (get_account env total chat s).0 refl h in
                  ground (arith, plays, known, inserted))
        ]
      ]

  played_time-chats :
      (look : Look) (total : ℕ) (chat : ℤ) (w : World C)
      → (played_time look total chat w).0.chats ≡ w.chats
  unfolding played_time
  played_time-chats look total chat w =
      let known = get_account-time_offsets look.env total chat w in
      elim (Option-cases (get_account look.env total chat w).1) [
        | inl a ↦ rw (a, played_time) known.1
        | inr (index, a) ↦ elim (Result-cases look.time) [
          | inl (t, e) ↦ rw (a, e, played_time) known.1
          | inr (t, e) ↦ rw (a, e, played_time) known.1
        ]
      ]

  seek_stream-time_offsets :
      (look : Look) (env : Env) (mem : Memory) (total : ℕ) (chat : ℤ) (s t : ℕ) (w : World C)
      → (played_time look total chat w).1 ≡ ok t
      → t + s < 9223372036854775808
      → (seek_stream look env mem total chat (pos s) w).1 ≡ none
      → let w' = (seek_stream look env mem total chat (pos s) w).0 in
        (lookup chat w'.time_offsets ≡ some (t + s)) × (w'.chats ≡ w.chats)
  unfolding seek_stream
  seek_stream-time_offsets look env mem total chat s t w p le =
      elim (Option-cases (get_playing_track chat w.chats)) [
        | inl e ↦ rw (e) (λ h. absurd cc)
        | inr (a, e) ↦
            rw (e, p, wrap_small t (omega arith), wrap_small (t + s) le)
              (λ h.
                let measured = (played_time look total chat w).0 in
                let sought =
                  seek_to-time_offsets env total chat (mem a).duration (t + s) measured h in
                ground (arith, sought, played_time-chats look total chat w))
      ]

  -- What a reply with a new position says, and what has come of it.
  abbrev pub IsSought : ℕ → ℕ → ℕ → ℤ → ℤ → ℤ → ℤ → World C → World C → Type 0
  IsSought s n m duration x y chat w w' =
      ((x ≡ pos s) × (y ≡ pos (n + s)))
      × (int_lt (pos (n + s)) duration ≡ true)
      × (lookup chat w'.time_offsets ≡ some (m + s))
      × (w'.chats ≡ w.chats)

  seek_by-IsSought :
      (look : Look) (env : Env) (mem : Memory) (total : ℕ) (chat duration : ℤ) (s n m : ℕ) (x y : ℤ)
      (w : World C)
      → (played_time look total chat w).1 ≡ ok m
      → n + s < 2147483648
      → m + s < 9223372036854775808
      → (seek_by look env mem total chat (pos s) n duration w).1 ≡ skipped x y
      → let w' = (seek_by look env mem total chat (pos s) n duration w).0 in
        IsSought s n m duration x y chat w w'
  unfolding seek_by
  seek_by-IsSought look env mem total chat duration s n m x y w p le le' =
      rw (wrap_small_32 n (omega arith), wrap_small_32 s (omega arith), wrap_small_32 (n + s) le)
        (elim (Bool-cases (int_lt (pos (n + s)) duration)) [
          | inr e ↦ rw (e) (λ h. absurd cc)
          | inl e ↦ elim (Option-cases (seek_stream look env mem total chat (pos s) w).1) [
            | inr (failed, f) ↦ rw (e, f) (λ h. absurd cc)
            | inl f ↦
                rw (e, f)
                  (λ h.
                    let sought = seek_stream-time_offsets look env mem total chat s m w p le' f in
                    ground (arith, sought))
          ]
        ])

  -- Where the number of seconds that /seek is given, and its sum with the played time that the
  -- handler reads, fit in 32 bits: when it replies that it skipped, it was at least ten seconds,
  -- the new position that it names is that sum and lies within the song, the offset of the played
  -- time is the sum with the time that SeekStream reads, and no queue has changed.
  pub seek_handler_lem :
      (first second : Look) (env : Env) (mem : Memory) (total : ℕ) (chat : ℤ) (args : Text)
      (w : World C) (a s n m : ℕ) (x y : ℤ)
      → get_playing_track chat w.chats ≡ some a
      → atoi args ≡ some (pos s)
      → (played_time first total chat w).1 ≡ ok n
      → (played_time second total chat (played_time first total chat w).0).1 ≡ ok m
      → n + s < 2147483648
      → m + s < 9223372036854775808
      → (seek_handler true first second env mem total chat args w).1 ≡ skipped x y
      → let w' = (seek_handler true first second env mem total chat args w).0 in
        (10 ≤ s) × IsSought s n m (mem a).duration x y chat w w'
  unfolding seek_handler
  seek_handler_lem first second env mem total chat args w a s n m x y playing read one two le le' =
      let active = get_playing_track-is_active chat w.chats a playing in
      let given = atoi-is_blank args (pos s) read in
      rw (active, playing, given, read)
        (elim (Bool-cases (int_lt (pos s) (pos 10))) [
          | inl e ↦ rw (e) (λ h. absurd cc)
          | inr e ↦
              rw (e, one)
                (λ h.
                  let measured = (played_time first total chat w).0 in
                  let sought =
                    seek_by-IsSought second env mem total chat (mem a).duration s n m x y measured
                      two le le' h in
                  ground (arith, sought, played_time-chats first total chat w))
        ])
