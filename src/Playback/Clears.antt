-- ===== src/Playback/Clears.antt =====
-- internal/calls/playback.go: the only thing that PlayMedia does to the queues is to clear the chat's.
use tg.Base.{
  ℕ, zero, suc, ◌≡◌, ◌⊎◌, inl, inr, List, [], ◌∷◌, Option, none, some, true, Text, arith,
  lookup-delete, ℤ, int_eq, Option-cases, if◌then◌else◌, ◌==◌,
}
use tg.Player.{ChatCacher, data_of, empty_data, clear_chat}
use tg.Db.Collection.{Collection}
use tg.Playback.Defs.{
  Env, World, play_media_with_assistant, save_assistant, evict_assistant, settle, settle_first,
  rotate_and_play, next_untried, get_account, play_with, play_media,
}

clear_chat-data_of :
    (chat j : ℤ) (c : ChatCacher)
    → data_of j (clear_chat chat c) ≡ (if chat == j then empty_data else data_of j c)
unfolding clear_chat
clear_chat-data_of chat j c = ground (arith, lookup-delete chat j c.chat_cache)

module _ {C : Collection ℤ ℤ} (chat j : ℤ) (c : ChatCacher) where
  -- What a chat has is as in `c`, or it is the chat of the call and has nothing left.
  abbrev pub StaysOrClears : World C → Type 0
  StaysOrClears w =
      (data_of j w.chats ≡ data_of j c) ⊎ (((chat == j) ≡ true) × (data_of j w.chats ≡ empty_data))

  abbrev pub EndStaysOrClears : Option (World C × Option Text) → Type 0
  EndStaysOrClears none = Unit
  EndStaysOrClears (some (w, e)) = StaysOrClears w

  play-StaysOrClears :
      (env : Env) (ff : Text) (index : ℕ) (w : World C)
      → StaysOrClears w
      → StaysOrClears (play_media_with_assistant env chat ff index w).0
  unfolding play_media_with_assistant
  play-StaysOrClears env ff index w h = ground (arith, clear_chat-data_of chat j w.chats)

  get_account-StaysOrClears :
      (env : Env) (total : ℕ) (w : World C)
      → StaysOrClears w
      → StaysOrClears (get_account env total chat w).0
  unfolding get_account
  get_account-StaysOrClears env total w h = ground arith

  save-StaysOrClears :
      (env : Env) (index : ℕ) (w : World C)
      → StaysOrClears w
      → StaysOrClears (save_assistant env chat index w)
  unfolding save_assistant
  save-StaysOrClears env index w h = h

  evict-StaysOrClears :
      (env : Env) (w : World C) → StaysOrClears w → StaysOrClears (evict_assistant env chat w)
  unfolding evict_assistant
  evict-StaysOrClears env w h = h

  module _ (env : Env) (ff : Text) (index : ℕ)
      (go_on : World C → Text → Option (World C × Option Text))
      (next : (w : World C) (e : Text) → StaysOrClears w → EndStaysOrClears (go_on w e)) where
    settle-StaysOrClears :
        (r : World C × Option Text)
        → StaysOrClears r.0
        → EndStaysOrClears (settle env chat ff index go_on r)
    unfolding settle
    settle-StaysOrClears (w, none) h = save-StaysOrClears env index w h
    settle-StaysOrClears (w, some e) h =
        let w' = (play_media_with_assistant env chat ff index w).0 in
        let h' = play-StaysOrClears env ff index w h in
        let moved = next (evict_assistant env chat w) e (evict-StaysOrClears env w h) in
        elim (Option-cases (play_media_with_assistant env chat ff index w).1) [
          | inl f ↦ ground (arith, moved, save-StaysOrClears env index w' h')
          | inr (e', f) ↦ ground (
            arith,
            moved,
            h',
            next (evict_assistant env chat w') e' (evict-StaysOrClears env w' h'),
          )
        ]

    settle_first-StaysOrClears :
        (r : World C × Option Text)
        → StaysOrClears r.0
        → EndStaysOrClears (settle_first env chat ff index go_on r)
    unfolding settle_first
    settle_first-StaysOrClears (w, none) h = save-StaysOrClears env index w h
    settle_first-StaysOrClears (w, some e) h =
        let w' = (play_media_with_assistant env chat ff index w).0 in
        let h' = play-StaysOrClears env ff index w h in
        let moved = next (evict_assistant env chat w) e (evict-StaysOrClears env w h) in
        elim (Option-cases (play_media_with_assistant env chat ff index w).1) [
          | inl f ↦ ground (arith, moved, save-StaysOrClears env index w' h')
          | inr (e', f) ↦ ground (
            arith,
            moved,
            h',
            next (evict_assistant env chat w') e' (evict-StaysOrClears env w' h'),
          )
        ]

  rotate_and_play-StaysOrClears :
      (fuel : ℕ) (env : Env) (total : ℕ) (ff : Text) (seen : List ℕ) (last : Text) (w : World C)
      → StaysOrClears w
      → EndStaysOrClears (rotate_and_play fuel env total chat ff seen last w)
  unfolding rotate_and_play
  rotate_and_play-StaysOrClears zero env total ff seen last w h = tt
  rotate_and_play-StaysOrClears (suc fuel) env total ff seen last w h =
      elim (Option-cases (next_untried total seen)) [
        | inl e ↦ rw (e, rotate_and_play) h
        | inr (index, e) ↦
            rw (e, rotate_and_play)
              (settle-StaysOrClears env ff index _
                (λ w' e'. rotate_and_play-StaysOrClears fuel env total ff (index ∷ seen) e' w')
                (play_media_with_assistant env chat ff index w)
                (play-StaysOrClears env ff index w h))
      ]

  play_with-StaysOrClears :
      (env : Env) (total : ℕ) (ff : Text) (w : World C) (account : Option ℕ)
      → StaysOrClears w
      → EndStaysOrClears (play_with env total chat ff w account)
  unfolding play_with
  play_with-StaysOrClears env total ff w none h = h
  play_with-StaysOrClears env total ff w (some index) h =
      settle_first-StaysOrClears env ff index _
        (λ w' e. rotate_and_play-StaysOrClears (suc total) env total ff (index ∷ []) e w')
        (play_media_with_assistant env chat ff index w) (play-StaysOrClears env ff index w h)

  pub play_media-StaysOrClears :
      (env : Env) (total : ℕ) (ff : Text) (w : World C)
      → StaysOrClears w
      → EndStaysOrClears (play_media env total chat ff w)
  unfolding play_media
  play_media-StaysOrClears env total ff w h =
      play_with-StaysOrClears env total ff (get_account env total chat w).0
        (get_account env total chat w).1 (get_account-StaysOrClears env total w h)
