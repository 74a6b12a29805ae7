-- ===== src/Player/State.antt =====
-- internal/cache/player_cache.go and internal/utils/models.go: the state of each chat.
-- A *PlayerCache is an address, or nil; the tracks stand in memory, since the queue, the copies
-- of it that GetQueue hands out and the player share and change them. The code writes a slice's
-- elements in place, but no caller holds the queue's own slice, so a queue is a list of pointers.
use tg.Base.{
  pos, ℕ, List, [], Option, none, some, Bool, true, false, not, Text, bytes, if◌then◌else◌, ◌==◌,
  length, lookup, insert, text_eq, int_eq, nat_eq, ℤ, is_empty, get_elem?,
}

-- internal/utils/models.go
pub record PlayerCache : Type 0 where
  pub url : Text
  pub name : Text
  pub loop : ℤ
  pub user : Text
  pub file_path : Text
  pub thumbnail : Text
  pub track_id : Text
  pub duration : ℤ
  pub channel : Text
  pub views : Text
  pub is_video : Bool
  pub platform : Text

-- The zero value.
abbrev pub no_track : PlayerCache
no_track = record {
  url = [];
  name = [];
  loop = pos 0;
  user = [];
  file_path = [];
  thumbnail = [];
  track_id = [];
  duration = pos 0;
  channel = [];
  views = [];
  is_video = false;
  platform = [];
}

abbrev pub youtube : Text
youtube = bytes "youtube"

abbrev pub auto_play : Text
auto_play = bytes "Autoplay"

-- The tracks in memory, by address, and a pointer, where `none` is nil.
abbrev pub Memory : Type 0
Memory = ℕ → PlayerCache

abbrev pub Pointer : Type 0
Pointer = Option ℕ

pub record VcData : Type 0 where
  pub queue : List Pointer
  pub autoplay : Bool
  pub autoplay_history : List Text

pub record ChatCacher : Type 0 where
  pub chat_cache : List (ℤ × VcData)

unfoldable pub new_chat_cacher : ChatCacher
new_chat_cacher = record { chat_cache = [] }

abbrev pub empty_data : VcData
empty_data = record { queue = []; autoplay = false; autoplay_history = [] }

abbrev pub or_empty : Option VcData → VcData
or_empty none = empty_data
or_empty (some d) = d

-- What a chat's state reads as; a chat that is missing reads as the zero VCData.
abbrev pub data_of : ℤ → ChatCacher → VcData
data_of chat c = or_empty (lookup chat c.chat_cache)

-- A write through the *VCData of a chat.
unfoldable pub put : ℤ → VcData → ChatCacher → ChatCacher
put chat d c = record c { chat_cache = insert chat d c.chat_cache }

unfoldable pub get_or_create : ℤ → ChatCacher → ChatCacher × VcData
unfolding put
get_or_create chat c = elim (lookup chat c.chat_cache) [
  | none ↦ (put chat empty_data c, empty_data)
  | some d ↦ (c, d)
]

-- `song != nil && song.User != utils.AutoPlay`
abbrev pub is_requested : Memory → Pointer → Bool
is_requested mem none = false
is_requested mem (some a) = not ((mem a).user == auto_play)

unfoldable pub get_queue_length : ℤ → ChatCacher → ℕ
get_queue_length chat c = elim (lookup chat c.chat_cache) [ none ↦ 0 | some d ↦ length d.queue ]

-- `track != nil && track.TrackID == trackID`
abbrev pub has_track_id : Memory → Text → Pointer → Bool
has_track_id mem id none = false
has_track_id mem id (some a) = (mem a).track_id == id

abbrev pub is_some {ℓ} : {A : Type ℓ} → Option A → Bool
is_some none = false
is_some (some a) = true

abbrev pub or_nil : Option Pointer → Pointer
or_nil none = none
or_nil (some p) = p

-- The pointer at an index, nil where there is none.
abbrev pub pointer_at : List Pointer → ℕ → Pointer
pointer_at queue i = or_nil (get_elem? queue i)

unfoldable pub get_playing_track : ℤ → ChatCacher → Pointer
get_playing_track chat c = elim (lookup chat c.chat_cache) [
  | none ↦ none
  | some d ↦ if is_empty d.queue then none else pointer_at d.queue 0
]

-- SetLoopCount writes through the pointer: the loop count is the track's, wherever it stands.
abbrev pub write : ℕ → PlayerCache → Memory → Memory
write a track mem b = if a == b then track else mem b
