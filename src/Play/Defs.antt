-- ===== src/Play/Defs.antt =====
-- internal/bot/play.go: from the tracks that were found to the queue and the player. What is outside
-- the repository is chosen by `Attempt`, for the one call of the handler. Failing messages, which
-- only end the handler early, and what the messages say are left out. A call of PlayNext returns
-- `none` where its fuel runs out.
use tg.Base.{
  ℕ, zero, suc, ◌-◌, List, [], ◌∷◌, Option, none, some, Bool, true, false, Text, ℤ, pos, ltb,
  if◌then◌else◌, int_eq, text_eq, is_empty, is_blank, length, map, Result, ok, err,
}
use mathlib.Core.List.{reverse}
use tg.Player.{
  PlayerCache, Memory, Pointer, ChatCacher, write, add_song, add_songs, add_song_to_front,
  remove_current_song, get_track_if_exists, get_queue_length,
}
use tg.Db.Collection.{Collection}
use tg.Playback.Defs.{Env, World, play_media}
use tg.Playback.Next.{GetUrlTrack, Outside, Session, with_chats, play_next}
use tg.Commands.Remove.{int_lt}

-- What the calls out of the handler meet: those of PlayNext, of DlCachedTrack and of PlayMedia.
pub record Attempt : Type 0 where
  pub next : Outside
  pub fuel : ℕ
  pub download : PlayerCache → Result Text Text
  pub play : Env

-- The configuration: the accounts, AUTO_PLAY_LIMIT, SONG_DURATION_LIMIT.
pub record Config : Type 0 where
  pub total : ℕ
  pub auto_play_limit : ℕ
  pub song_duration_limit : ℤ

-- What a handler ends with. `queued` and `added` have the length of the queue.
pub data Reply : Type 0 where
  queue_full too_long all_skipped no_tracks known skipped_to started : Reply
  queued added : ℕ → Reply
  download_failed play_failed : Text → Reply

-- The PlayerCache of a track that somebody asks for.
abbrev pub requested : Text → Bool → Text → GetUrlTrack → PlayerCache
requested user is_video file_path t = record {
  url = t.url;
  name = t.title;
  loop = pos 0;
  user = user;
  file_path = file_path;
  thumbnail = t.thumbnail;
  track_id = t.id;
  duration = t.duration;
  channel = t.channel;
  views = t.views;
  is_video = is_video;
  platform = t.platform;
}

-- The tracks that are not too long.
unfoldable pub within_limit : ℤ → List GetUrlTrack → List GetUrlTrack
within_limit limit [] = []
within_limit limit (t ∷ ts) =
    let rest = within_limit limit ts in if int_lt limit t.duration then rest else t ∷ rest

-- AddSongToFront for one pointer after the other.
unfoldable pub add_each_to_front : ℤ → List Pointer → ChatCacher → ChatCacher
add_each_to_front chat [] c = c
add_each_to_front chat (p ∷ ps) c = add_each_to_front chat ps (add_song_to_front chat p c).0

-- `firstTrack.Loop = 1`
abbrev pub loop_once : List Pointer → Memory → Memory
loop_once [] mem = mem
loop_once (none ∷ ps) mem = mem
loop_once (some a ∷ ps) mem = write a (record (mem a) { loop = pos 1 }) mem

-- The end of a handler: the session and the reply, or `none` where the fuel of PlayNext ran out.
abbrev pub Ended : Collection ℤ ℤ → Type 0
Ended C = Option (Session C × Reply)

module _ {C : Collection ℤ ℤ} where
  abbrev pub in_memory : Memory → Session C → Session C
  in_memory mem s = record s { mem = mem }

  -- A new PlayerCache, at its address.
  abbrev pub allocate : PlayerCache → Session C → Session C
  allocate song s = record s { mem = write s.fresh song s.mem; fresh = suc s.fresh }

  -- Several of them: the pointers, in order.
  unfoldable pub allocate_all : List PlayerCache → Session C → Session C × List Pointer
  allocate_all [] s = (s, [])
  allocate_all (song ∷ songs) s =
      let rest = allocate_all songs (allocate song s) in (rest.0, some s.fresh ∷ rest.1)

  -- The reply after PlayNext, whose error is ignored.
  unfoldable pub then_next : Attempt → Config → ℤ → Reply → Session C → Ended C
  then_next a k chat reply s = elim (play_next a.fuel a.next k.total k.auto_play_limit chat s) [
    | none ↦ none
    | some (s', e) ↦ some (s', reply)
  ]

  -- AddSong or AddSongToFront, and the length that it answers.
  unfoldable pub put_song : Bool → ℤ → ℕ → Session C → Session C × ℕ
  put_song force chat a s =
      let c = s.world.chats in
      let (c', n) =
        if force then add_song_to_front chat (some a) c else add_song s.mem chat (some a) c in
      (with_chats c' s, n)

  -- enqueueTrack; `none` in the second part means that the song is to be played.
  unfoldable pub enqueue_track :
      Attempt → Config → ℤ → Bool → ℕ → (Session C → Ended C) → Session C → Ended C
  unfolding put_song then_next
  enqueue_track a k chat force song play s =
      let (s', n) = put_song force chat song s in
      if ltb 1 n
      then (if force then then_next a k chat skipped_to s' else some (s', queued n))
      else play s'

  -- RemoveCurrentSong after a failure.
  abbrev pub take_back : ℤ → Session C → Session C
  take_back chat s = with_chats (remove_current_song s.mem chat s.world.chats).0 s

  -- What follows PlayMedia.
  unfoldable pub after_play : ℤ → Session C → Option (World C × Option Text) → Ended C
  after_play chat s none = none
  after_play chat s (some (w, none)) = some (record s { world = w }, started)
  after_play chat s (some (w, some e)) =
      some (take_back chat (record s { world = w }), play_failed e)

  -- PlayMedia, once the song has its file.
  unfoldable pub play_file : Attempt → Config → ℤ → Session C → Ended C
  unfolding after_play
  play_file a k chat s = after_play chat s (play_media a.play k.total chat [] s.world)

  -- The rest of handleSingleTrack, for a song that stands alone in its queue.
  unfoldable pub start_song : Attempt → Config → ℤ → ℕ → Session C → Ended C
  unfolding play_file
  start_song a k chat song s =
      if is_blank (s.mem song).file_path
      then elim (a.download (s.mem song)) [
        | err e ↦ some (take_back chat s, download_failed e)
        | ok path ↦
            play_file a k chat
              (in_memory (write song (record (s.mem song) { file_path = path }) s.mem) s)
      ]
      else play_file a k chat s

  unfoldable pub handle_single_track :
      Attempt → Config → ℤ → Text → Bool → Bool → Text → GetUrlTrack → Session C → Ended C
  unfolding enqueue_track start_song
  handle_single_track a k chat user is_video force path t s =
      if int_lt k.song_duration_limit t.duration
      then some (s, too_long)
      else enqueue_track a k chat force s.fresh (start_song a k chat s.fresh)
          (allocate (requested user is_video path t) s)

  -- The end of handleMultipleTracks: the queue was `start` songs long, and is `len` long now.
  unfoldable pub after_adding : Attempt → Config → ℤ → List Pointer → ℕ → ℕ → Session C → Ended C
  unfolding then_next
  after_adding a k chat songs zero len s =
      then_next a k chat (added len) (in_memory (loop_once songs s.mem) s)
  after_adding a k chat songs (suc start) len s = some (s, added len)

  unfoldable pub add_multiple : Attempt → Config → ℤ → Bool → List Pointer → Session C → Ended C
  unfolding add_each_to_front after_adding then_next
  add_multiple a k chat true songs s =
      let c = add_each_to_front chat (reverse songs) s.world.chats in
      let s' = with_chats c s in
      let len = get_queue_length chat c in
      if ltb 0 (len - length songs)
      then then_next a k chat skipped_to s'
      else after_adding a k chat songs 0 len s'
  add_multiple a k chat false songs s =
      let (c, len) = add_songs chat songs s.world.chats in
      after_adding a k chat songs (len - length songs) len (with_chats c s)

  unfoldable pub handle_multiple_tracks :
      Attempt → Config → ℤ → Text → Bool → Bool → List GetUrlTrack → Session C → Ended C
  unfolding within_limit allocate_all add_multiple
  handle_multiple_tracks a k chat user is_video force tracks s =
      let songs = within_limit k.song_duration_limit tracks in
      let (s', pointers) = allocate_all (map (requested user is_video []) songs) s in
      if is_empty tracks
      then some (s, no_tracks)
      else if is_empty songs
      then some (s, all_skipped)
      else add_multiple a k chat force pointers s'

  -- The one track of handleUrl, and the first result of handleTextSearch.
  unfoldable pub handle_found :
      Attempt → Config → ℤ → Text → Bool → Bool → GetUrlTrack → Session C → Ended C
  unfolding handle_single_track
  handle_found a k chat user is_video force t s =
      elim (get_track_if_exists s.mem chat t.id s.world.chats) [
        | some p ↦ some (s, known)
        | none ↦ handle_single_track a k chat user is_video force [] t s
      ]

  unfoldable pub handle_url :
      Attempt → Config → ℤ → Text → Bool → Bool → List GetUrlTrack → Session C → Ended C
  unfolding handle_found handle_multiple_tracks
  handle_url a k chat user is_video force [] s =
      handle_multiple_tracks a k chat user is_video force [] s
  handle_url a k chat user is_video force (t ∷ []) s = handle_found a k chat user is_video force t s
  handle_url a k chat user is_video force (t ∷ u ∷ ts) s =
      handle_multiple_tracks a k chat user is_video force (t ∷ u ∷ ts) s
