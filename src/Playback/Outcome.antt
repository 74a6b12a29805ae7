-- ===== src/Playback/Outcome.antt =====
-- internal/calls/playback.go: what PlayMedia leaves behind.
use tg.Base.{
  ℕ, zero, suc, ◌+◌, ◌*◌, ◌≡◌, refl, ◌∙◌, ap, sym, subst, ◌⊎◌, inl, inr, List, [], ◌∷◌, Option,
  none, some, false, Text, arith, length, lookup-delete, ℤ, pos, is_positive, nat_eq, int_eq,
  Option-cases, ==_refl,
}
use tg.Player.{ChatCacher, data_of, empty_data, clear_chat}
use tg.Db.Collection.{Collection}
use tg.Db.Cached.{write_set}
use tg.Db.Assistant.{assigned, set_assistant}
use tg.Playback.Defs.{
  Env, World, attempts, play_media_with_assistant, save_assistant, evict_assistant, settle,
  settle_first, rotate_and_play, next_untried, get_account, play_with, play_media,
}
use tg.Playback.Rotation.{EndsWithin, attempts-save}
use tg.Playback.Account.{get_account-IsAccount, DrawsBelow, play_media-EndsWithin}
use tg.Playback.Each.{tries, TriesAtMost, play_media-TriesTwice}

-- The chat has no state left: no queue, no autoplay, no history.
abbrev pub IsCleared : ℤ → ChatCacher → Type 0
IsCleared chat c = data_of chat c ≡ empty_data

clear_chat-IsCleared : (chat : ℤ) (c : ChatCacher) → IsCleared chat (clear_chat chat c)
unfolding clear_chat
clear_chat-IsCleared chat c = ground (arith, lookup-delete chat chat c.chat_cache, ==_refl chat)

module _ {C : Collection ℤ ℤ} where
  -- The collection names the assistant of the latest attempt.
  abbrev pub IsSaved : ℤ → World C → Type 0
  IsSaved chat w =
      (index : ℕ) × (rest : List ℕ) × (w.tried ≡ index ∷ rest)
      × (assigned C chat w.assistants ≡ pos index)

  play-tried :
      (env : Env) (chat : ℤ) (ff : Text) (index : ℕ) (w : World C)
      → is_positive chat ≡ false
      → (play_media_with_assistant env chat ff index w).0.tried ≡ index ∷ w.tried
  unfolding play_media_with_assistant
  play-tried env chat ff index w h = ground arith

  -- A success leaves the chats alone.
  play-plays :
      (env : Env) (chat : ℤ) (ff : Text) (index : ℕ) (w : World C)
      → (play_media_with_assistant env chat ff index w).1 ≡ none
      → (play_media_with_assistant env chat ff index w).0.chats ≡ w.chats
  unfolding play_media_with_assistant
  play-plays env chat ff index w h = ground arith

  -- A failure clears the chat.
  play-fails :
      (env : Env) (chat : ℤ) (ff : Text) (index : ℕ) (w : World C) (e : Text)
      → is_positive chat ≡ false
      → (play_media_with_assistant env chat ff index w).1 ≡ some e
      → IsCleared chat (play_media_with_assistant env chat ff index w).0.chats
  unfolding play_media_with_assistant
  play-fails env chat ff index w e h f = ground (arith, clear_chat-IsCleared chat w.chats)

  save-IsSaved :
      (env : Env) (chat : ℤ) (index : ℕ) (rest : List ℕ) (w : World C)
      → ((n : ℕ) → env.write_fault n ≡ none)
      → w.tried ≡ index ∷ rest
      → IsSaved chat (save_assistant env chat index w)
        × ((save_assistant env chat index w).chats ≡ w.chats)
  unfolding save_assistant set_assistant write_set
  save-IsSaved env chat index rest w written h = (
    (
      index,
      rest,
      h,
      ground (
        arith,
        written (attempts w),
        C.find_one-upsert chat chat (λ _. pos index) (pos index) w.assistants.store,
        ==_refl chat,
      ),
    ),
    ground (arith, written (attempts w)),
  )

  evict-chats : (env : Env) (chat : ℤ) (w : World C) → (evict_assistant env chat w).chats ≡ w.chats
  unfolding evict_assistant
  evict-chats env chat w = refl

  -- How a rotation ends: the chat is cleared, and on success the assistant is saved.
  abbrev pub EndsCleared : ℤ → Option (World C × Option Text) → Type 0
  EndsCleared chat none = Unit
  EndsCleared chat (some (w, none)) = IsSaved chat w × IsCleared chat w.chats
  EndsCleared chat (some (w, some e)) = IsCleared chat w.chats

  module _ (env : Env) (chat : ℤ) (ff : Text) (grouped : is_positive chat ≡ false)
      (written : (n : ℕ) → env.write_fault n ≡ none) where
    saved-EndsCleared :
        (index : ℕ) (rest : List ℕ) (w : World C)
        → w.tried ≡ index ∷ rest
        → IsCleared chat w.chats
        → EndsCleared chat (some (save_assistant env chat index w, none))
    saved-EndsCleared index rest w h c =
        let (saved, same) = save-IsSaved env chat index rest w written h in
        (saved, subst (IsCleared chat) (sym same) c)

    settle-EndsCleared :
        (index : ℕ) (go_on : World C → Text → Option (World C × Option Text)) (rest : List ℕ)
        (w : World C) (failed : Option Text)
        → w.tried ≡ index ∷ rest
        → IsCleared chat w.chats
        → ((w' : World C) (e : Text) → IsCleared chat w'.chats → EndsCleared chat (go_on w' e))
        → EndsCleared chat (settle env chat ff index go_on (w, failed))
    unfolding settle
    settle-EndsCleared index go_on rest w none h c k = saved-EndsCleared index rest w h c
    settle-EndsCleared index go_on rest w (some e) h c k =
        let w' = (play_media_with_assistant env chat ff index w).0 in
        elim (Option-cases (play_media_with_assistant env chat ff index w).1) [
          | inl f ↦
              let same = play-plays env chat ff index w f in
              ground (
                arith,
                k (evict_assistant env chat w) e,
                evict-chats env chat w,
                saved-EndsCleared index w.tried w' (play-tried env chat ff index w grouped)
                    (subst (IsCleared chat) (sym same) c),
              )
          | inr (e', f) ↦ ground (
            arith,
            k (evict_assistant env chat w) e,
            k (evict_assistant env chat w') e',
            evict-chats env chat w,
            evict-chats env chat w',
            play-fails env chat ff index w e' grouped f,
          )
        ]

    rotate_and_play-EndsCleared :
        (fuel total : ℕ) (seen : List ℕ) (last : Text) (w : World C)
        → IsCleared chat w.chats
        → EndsCleared chat (rotate_and_play fuel env total chat ff seen last w)
    unfolding rotate_and_play
    rotate_and_play-EndsCleared zero total seen last w c = tt
    rotate_and_play-EndsCleared (suc fuel) total seen last w c =
        elim (Option-cases (next_untried total seen)) [
          | inl e ↦ rw (e, rotate_and_play) c
          | inr (index, e) ↦
              let w' = (play_media_with_assistant env chat ff index w).0 in
              let cleared : IsCleared chat w'.chats =
                elim (Option-cases (play_media_with_assistant env chat ff index w).1) [
                  | inl f ↦ subst (IsCleared chat) (sym (play-plays env chat ff index w f)) c
                  | inr (x, f) ↦ play-fails env chat ff index w x grouped f
                ] in
              rw (e, rotate_and_play)
                (settle-EndsCleared index _ w.tried w'
                  (play_media_with_assistant env chat ff index w).1
                  (play-tried env chat ff index w grouped) cleared
                  (λ w₂ e₂ c₂. rotate_and_play-EndsCleared fuel total (index ∷ seen) e₂ w₂ c₂))
        ]

    settle_first-EndsCleared :
        (index : ℕ) (go_on : World C → Text → Option (World C × Option Text)) (w : World C)
        (e : Text)
        → IsCleared chat w.chats
        → ((w' : World C) (e : Text) → IsCleared chat w'.chats → EndsCleared chat (go_on w' e))
        → EndsCleared chat (settle_first env chat ff index go_on (w, some e))
    unfolding settle_first
    settle_first-EndsCleared index go_on w e c k =
        let w' = (play_media_with_assistant env chat ff index w).0 in
        elim (Option-cases (play_media_with_assistant env chat ff index w).1) [
          | inl f ↦
              let same = play-plays env chat ff index w f in
              ground (
                arith,
                k (evict_assistant env chat w) e,
                evict-chats env chat w,
                saved-EndsCleared index w.tried w' (play-tried env chat ff index w grouped)
                    (subst (IsCleared chat) (sym same) c),
              )
          | inr (e', f) ↦ ground (
            arith,
            k (evict_assistant env chat w) e,
            k (evict_assistant env chat w') e',
            evict-chats env chat w,
            evict-chats env chat w',
            play-fails env chat ff index w e' grouped f,
          )
        ]

    -- The first attempt plays: the chats are as before, and the assistant is saved.
    abbrev pub PlaysAtOnce : World C → Option (World C × Option Text) → Type 0
    PlaysAtOnce w none = ⊥
    PlaysAtOnce w (some (w', some e)) = ⊥
    PlaysAtOnce w (some (w', none)) =
        IsSaved chat w' × (w'.chats ≡ w.chats) × (attempts w' ≡ attempts w + 1)

    settle_first-plays :
        (index : ℕ) (go_on : World C → Text → Option (World C × Option Text))
        (r : World C × Option Text)
        → r.1 ≡ none
        → settle_first env chat ff index go_on r ≡ some (save_assistant env chat index r.0, none)
    unfolding settle_first
    settle_first-plays index go_on (w, none) h = refl
    settle_first-plays index go_on (w, some e) h = cc

    settle_first-fails :
        (index : ℕ) (go_on : World C → Text → Option (World C × Option Text))
        (r : World C × Option Text) (e : Text)
        → r.1 ≡ some e
        → settle_first env chat ff index go_on r
          ≡ settle_first env chat ff index go_on (r.0, some e)
    settle_first-fails index go_on (w, f) e h =
        ap (λ (o : Option Text). settle_first env chat ff index go_on (w, o)) h

    attempts-save_play :
        (index : ℕ) (w : World C)
        → attempts (save_assistant env chat index (play_media_with_assistant env chat ff index w).0)
          ≡ attempts w + 1
    attempts-save_play index w = omega (
      arith,
      attempts-save env chat index (play_media_with_assistant env chat ff index w).0,
      ap length (play-tried env chat ff index w grouped),
    )

    -- For a group, where GetAccount finds an account and draws below their number, and while the
    -- database takes the writes of an assistant, PlayMedia ends in one of two ways: the first
    -- attempt plays, the assistant of that attempt is saved and no queue changes; or the first
    -- attempt fails, and then, after two attempts at most with each account, the queue, autoplay
    -- and history of the chat are gone at the end, also where a later attempt plays, whose
    -- assistant is saved.
    pub play_media-outcome :
        (total index : ℕ) (w : World C)
        → DrawsBelow total env.draw
        → (get_account env total chat w).1 ≡ some index
        → let first =
            play_media_with_assistant env chat ff index (get_account env total chat w).0 in
          let result = play_media env total chat ff w in
          ((first.1 ≡ none) × PlaysAtOnce w result)
          ⊎ ((e : Text) × (first.1 ≡ some e)
              × EndsCleared chat result
              × EndsWithin (attempts w + 2 * total) result
              × ((i : ℕ) → TriesAtMost i (tries i w + 2) result))
    unfolding play_media play_with
    play_media-outcome total index w h a =
        let w₀ = (get_account env total chat w).0 in
        let w₁ = (play_media_with_assistant env chat ff index w₀).0 in
        let (_, logged, kept) = get_account-IsAccount env total chat w h in
        elim (Option-cases (play_media_with_assistant env chat ff index w₀).1) [
          | inl f ↦
              let (saved, same) =
                save-IsSaved env chat index w₀.tried w₁ written
                  (play-tried env chat ff index w₀ grouped) in
              inl (
                f,
                rw a (
                    rw
                      (settle_first-plays index _ (play_media_with_assistant env chat ff index w₀)
                        f)
                      (
                        saved,
                        same ∙ play-plays env chat ff index w₀ f ∙ kept,
                        attempts-save_play index w₀ ∙ ap (λ (l : List ℕ). length l + 1) logged,
                      )),
              )
          | inr (e, f) ↦ inr (
            e,
            f,
            rw a (
                rw (settle_first-fails index _ (play_media_with_assistant env chat ff index w₀) e f)
                  (settle_first-EndsCleared index _ w₁ e
                    (play-fails env chat ff index w₀ e grouped f)
                    (λ w₂ e₂ c₂.
                      rotate_and_play-EndsCleared (suc total) total (index ∷ []) e₂ w₂ c₂))),
            play_media-EndsWithin env total chat ff w h,
            (play_media-TriesTwice env total chat ff w h).1,
          )
        ]
