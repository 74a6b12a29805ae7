-- ===== src/Playback/Next.antt =====
-- internal/calls/playback.go and autoplay.go, with Stop of call.go: what follows the end of a song.
-- Everything outside the repository is chosen by `Outside`, by the number of the round, where a round
-- is a playTrack. What is only shown to users is left out.
use tg.Base.{
  ℕ, suc, zero, List, [], ◌∷◌, ◌++◌, Option, none, some, false, not, ◌&&◌, ◌||◌, Text, bytes, ℤ,
  pos, negsuc, is_positive, if◌then◌else◌, ◌==◌, nat_eq, int_eq, text_eq, leb, length, is_blank,
  contains, get_elem?, Result, ok, err, has_part,
}
use tg.Player.{
  PlayerCache, Memory, ChatCacher, auto_play, youtube, write, get_playing_track, get_loop_count,
  set_loop_count, remove_current_song, get_last_autoplay_track_id, get_autoplay,
  get_autoplay_history, add_autoplay_history, clear_autoplay_history, add_song, set_autoplay,
  clear_chat,
}
use tg.Db.Collection.{Collection}
use tg.Playback.Defs.{Env, World, play_media, get_account, clear_offset, no_accounts}

-- utils.GetUrlTrack: a track that YouTube proposes.
pub record GetUrlTrack : Type 0 where
  pub id : Text
  pub url : Text
  pub title : Text
  pub thumbnail : Text
  pub duration : ℤ
  pub channel : Text
  pub views : Text
  pub platform : Text

-- What the round meets: the error of the message that announces the download, the path and the error
-- of the download, the duration that ffprobe finds, the mix for a track id, the index of the
-- candidate that the shuffle puts first, and the error of leaving the call.
pub record Outside : Type 0 where
  pub play : ℕ → Env
  pub message : ℕ → Option Text
  pub download : ℕ → PlayerCache → Text × Option Text
  pub media_duration : Text → ℤ
  pub mix : ℕ → Text → Result Text (List GetUrlTrack)
  pub pick : ℕ → ℕ → ℕ
  pub leave : ℕ → Option Text

-- The tracks in memory stand beside the state of PlayMedia; `fresh` is the address of the next one.
pub record Session (C : Collection ℤ ℤ) : Type 0 where
  pub world : World C
  pub mem : Memory
  pub fresh : ℕ
  pub round : ℕ

abbrev pub not_found : Text
not_found = bytes "not found"

abbrev pub not_stopped : Text → Text
not_stopped e = bytes "failed to stop call: " ++ e

-- `loop - 1`
abbrev pub minus_one : ℤ → ℤ
minus_one (pos zero) = negsuc 0
minus_one (pos (suc n)) = pos n
minus_one (negsuc n) = negsuc (suc n)

-- The candidates of handleAutoplay.
unfoldable pub candidates : Text → List Text → List GetUrlTrack → List GetUrlTrack
candidates last history [] = []
candidates last history (t ∷ ts) =
    let rest = candidates last history ts in
    if t.id == last || contains history t.id then rest else t ∷ rest

abbrev pub or_first : GetUrlTrack → Option GetUrlTrack → GetUrlTrack
or_first t none = t
or_first t (some u) = u

-- The song that handleAutoplay makes of a candidate.
abbrev pub save_cache : GetUrlTrack → PlayerCache
save_cache t = record {
  url = t.url;
  name = t.title;
  loop = pos 0;
  user = auto_play;
  file_path = [];
  thumbnail = t.thumbnail;
  track_id = t.id;
  duration = t.duration;
  channel = t.channel;
  views = t.views;
  is_video = false;
  platform = youtube;
}

-- The end of a call: the session and the error, or `none` where the fuel ran out.
abbrev pub Ending : Collection ℤ ℤ → Type 0
Ending C = Option (Session C × Option Text)

abbrev pub stop_error : Option Text → Option Text
stop_error none = none
stop_error (some e) = if has_part e not_found then none else some (not_stopped e)

abbrev pub proposals : Result Text (List GetUrlTrack) → List GetUrlTrack
proposals (err e) = []
proposals (ok ts) = ts

module _ {C : Collection ℤ ℤ} where
  abbrev pub with_chats : ChatCacher → Session C → Session C
  with_chats c s = record s { world = record s.world { chats = c } }

  -- Stop, up to the state of the assistant's call.
  unfoldable pub stop : Outside → ℕ → ℤ → Session C → Session C × Option Text
  stop o total chat s =
      let w = clear_offset chat s.world in
      let w' = record w { chats = clear_chat chat (set_autoplay chat false w.chats) } in
      let (w'', account) = get_account (o.play s.round) total chat w' in
      elim account [
        | none ↦ (record s { world = w'' }, some no_accounts)
        | some index ↦ (record s { world = w'' }, stop_error (o.leave s.round))
      ]

  unfoldable pub handle_no_song : Outside → ℕ → ℤ → Session C → Session C × Option Text
  unfolding stop
  handle_no_song o total chat s = ((stop o total chat s).0, none)

  -- prepareTrackDownload: the path is stored, whatever the error.
  unfoldable pub prepare_track_download : Outside → ℕ → Session C → Session C × Option Text
  prepare_track_download o a s =
      let song = s.mem a in
      if is_blank song.file_path
      then (let (path, failed) = o.download s.round song in
          (record s { mem = write a (record song { file_path = path }) s.mem }, failed))
      else (s, none)

  -- The end of playTrack, once PlayMedia has ended; its error is shown, and not returned.
  unfoldable pub started : Outside → ℕ → Session C → Option (World C × Option Text) → Ending C
  started o a s none = none
  started o a s (some (w, some e)) = some (record s { world = w }, none)
  started o a s (some (w, none)) =
      let song = s.mem a in
      let s' = record s { world = w } in
      some (
        if song.duration == pos 0
            then record s' {
              mem = write a (record song { duration = o.media_duration song.file_path }) s.mem;
            }
            else s',
        none,
      )

  -- playTrack; `go_on` is the call of PlayNext after a failed download.
  unfoldable pub play_track : Outside → ℕ → ℤ → (Session C → Ending C) → ℕ → Session C → Ending C
  unfolding prepare_track_download started
  play_track o total chat go_on a s = elim (o.message s.round) [
    | some e ↦ some (record s { round = suc s.round }, some e)
    | none ↦
        let (s', failed) = prepare_track_download o a s in
        let next = record s' { round = suc s.round } in
        elim failed [
          | some e ↦ go_on next
          | none ↦ started o a next (play_media (o.play s.round) total chat [] next.world)
        ]
  ]

  -- handleAutoplay once it has chosen the next track, which it puts at a new address.
  unfoldable pub play_proposed :
      Outside → ℕ → ℤ → (Session C → Ending C) → Text → GetUrlTrack → Session C → Ending C
  unfolding play_track
  play_proposed o total chat go_on last next s =
      let c = add_autoplay_history chat (last ∷ next.id ∷ []) s.world.chats in
      let mem' = write s.fresh (save_cache next) s.mem in
      let s' = with_chats (add_song mem' chat (some s.fresh) c).0 s in
      play_track o total chat go_on s.fresh (record s' { mem = mem'; fresh = suc s.fresh })

  -- `limit` is AUTO_PLAY_LIMIT. An error and an empty mix have no candidates either.
  unfoldable pub handle_autoplay :
      Outside → ℕ → ℕ → ℤ → (Session C → Ending C) → Text → Session C → Ending C
  unfolding handle_no_song candidates play_proposed
  handle_autoplay o total limit chat go_on last s =
      let history = get_autoplay_history chat s.world.chats in
      if leb limit (length history)
      then some
          (handle_no_song o total chat (with_chats (clear_autoplay_history chat s.world.chats) s))
      else elim (candidates last history (proposals (o.mix s.round last))) [
        | [] ↦ some (handle_no_song o total chat s)
        | t ∷ ts ↦
            let next = or_first t (get_elem? (t ∷ ts) (o.pick s.round (length (t ∷ ts)))) in
            play_proposed o total chat go_on last next s
      ]

  -- PlayNext once the current song is over.
  unfoldable pub advance : Outside → ℕ → ℕ → ℤ → (Session C → Ending C) → Session C → Ending C
  unfolding play_track handle_autoplay handle_no_song
  advance o total limit chat go_on s =
      let c = (remove_current_song s.mem chat s.world.chats).0 in
      let s' = with_chats c s in
      elim (get_playing_track chat c) [
        | some a ↦ play_track o total chat go_on a s'
        | none ↦
            let last = get_last_autoplay_track_id chat c in
            if not (is_blank last) && get_autoplay chat c
            then handle_autoplay o total limit chat go_on last s'
            else some (handle_no_song o total chat s')
      ]

  -- PlayNext. A failed download calls it again, which the fuel counts.
  unfoldable pub play_next : ℕ → Outside → ℕ → ℕ → ℤ → Session C → Ending C
  unfolding play_track advance
  play_next zero o total limit chat s = none
  play_next (suc fuel) o total limit chat s =
      let go_on : Session C → Ending C = λ s'. play_next fuel o total limit chat s' in
      let c = s.world.chats in
      let loop = get_loop_count s.mem chat c in
      if is_positive loop
      then (let s' = record s { mem = (set_loop_count s.mem chat (minus_one loop) c).0 } in
          elim (get_playing_track chat c) [
            | some a ↦ play_track o total chat go_on a s'
            | none ↦ advance o total limit chat go_on s'
          ])
      else advance o total limit chat go_on s
