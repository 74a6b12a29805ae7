-- ===== src/Play/Single.antt =====
-- internal/bot/play.go: what handleSingleTrack comes to.
use tg.Base.{
  err, ok, ℕ, [], ◌∷◌, Option, none, some, true, false, ◌≡◌, ◌⊎◌, ℤ, Bool, Text, int_eq, ◌==◌,
  is_blank,
}
use tg.Player.{PlayerCache, data_of, empty_data}
use tg.Db.Collection.{Collection}
use tg.Playback.Defs.{World, play_media}
use tg.Playback.Next.{Session}
use tg.Play.Defs.{Attempt, Config, Reply, started, download_failed, play_failed, Ended}

abbrev pub is_failure : Reply → Bool
is_failure (download_failed e) = true
is_failure (play_failed e) = true
is_failure _ = false

-- The song as it is played: with the file that it came with, or the one that was downloaded.
abbrev pub HasFile : Attempt → PlayerCache → PlayerCache → Type 0
HasFile a song played =
    ((is_blank song.file_path ≡ false) × (played ≡ song))
    ⊎ ((path : Text) × (is_blank song.file_path ≡ true)
        × (a.download song ≡ ok path)
        × (played ≡ record song { file_path = path }))

module _ {C : Collection ℤ ℤ} where
  -- How playing a new song ends that stands alone in the queue of `s`.
  abbrev pub StartsOrFails : ℤ → ℕ → Session C → Session C × Reply → Type 0
  StartsOrFails chat song s (s', reply) =
      let d = data_of chat s'.world.chats in
      (((reply ≡ started) × ((d.queue ≡ some song ∷ []) ⊎ (d ≡ empty_data)))
        ⊎ ((is_failure reply ≡ true) × (d.queue ≡ [])))
      × ((j : ℤ) → (chat == j) ≡ false → data_of j s'.world.chats ≡ data_of j s.world.chats)

  -- The download failed and nothing was tried.
  abbrev pub LacksFile : Attempt → PlayerCache → World C → Session C × Reply → Type 0
  LacksFile a song w (s', reply) =
      (e : Text) × (is_blank song.file_path ≡ true)
      × (a.download song ≡ err e)
      × (reply ≡ download_failed e)
      × (s'.world.tried ≡ w.tried)

  -- PlayMedia was called in this world, and ended so; the reply says how.
  abbrev pub CallsPlayMedia :
      Attempt → Config → ℤ → ℕ → PlayerCache → World C → Session C × Reply → Type 0
  CallsPlayMedia a k chat at song w (s', reply) =
      HasFile a song (s'.mem at)
      × ((w' : World C) × (failed : Option Text) × (play_media a.play k.total chat [] w
            ≡ some (w', failed))
          × (((failed ≡ none) × (reply ≡ started) × (s'.world ≡ w'))
              ⊎ ((e : Text) × (failed ≡ some e)
                  × (reply ≡ play_failed e)
                  × (s'.world.tried ≡ w'.tried))))

  abbrev pub EndsSo :
      Attempt → Config → ℤ → ℕ → PlayerCache → World C → Session C → Ended C → Type 0
  EndsSo a k chat at song w s r =
      (end : Session C × Reply) × (r ≡ some end)
      × (LacksFile a song w end ⊎ CallsPlayMedia a k chat at song w end)
      × StartsOrFails chat at s end

  -- The song is alone in the queue of a world without a new attempt, and from there it ends so.
  abbrev pub QueuedAndEnds : Attempt → Config → ℤ → ℕ → PlayerCache → Session C → Ended C → Type 0
  QueuedAndEnds a k chat at song s r =
      (w : World C) × ((data_of chat w.chats).queue ≡ some at ∷ [])
      × (w.tried ≡ s.world.tried)
      × EndsSo a k chat at song w s r
