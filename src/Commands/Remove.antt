-- ===== src/Commands/Remove.antt =====
-- internal/bot/remove.go: /remove takes songs out of the queue. No other goroutine changes the queue
-- while the handler runs.
use tg.Base.{
  ℕ, zero, suc, ◌-◌, List, [], ◌∷◌, ◌++◌, none, some, Bool, true, false, Text, ℤ, pos, negsuc,
  nat_eq, ltb, leb, if◌then◌else◌, contains, is_blank, is_empty, length,
}
use tg.Player.{ChatCacher, remove_track, is_active, get_queue}
use tg.Commands.Numbers.{trim_space, split, atoi}

abbrev pub int_lt : ℤ → ℤ → Bool
int_lt (pos a) (pos b) = ltb a b
int_lt (pos a) (negsuc b) = false
int_lt (negsuc a) (pos b) = true
int_lt (negsuc a) (negsuc b) = ltb b a

-- `start`, and n - 1 numbers behind it.
unfoldable pub count_from : ℕ → ℕ → List ℤ
count_from start zero = []
count_from start (suc n) = pos start ∷ count_from (suc start) n

abbrev pub at_least_one : ℤ → ℕ
at_least_one (pos n) = if ltb n 1 then 1 else n
at_least_one (negsuc n) = 1

-- The loop from a start that was made at least 1 to an end that was made at most the length.
unfoldable pub numbers_between : ℕ → ℤ → ℤ → List ℤ
unfolding count_from
numbers_between size start (negsuc end) = []
numbers_between size start (pos end) =
    let first = at_least_one start in
    let last = if leb size end then size else end in count_from first (suc last - first)

unfoldable pub track_range : ℕ → ℤ → ℤ → List ℤ
unfolding numbers_between
track_range size start end =
    if int_lt end start then numbers_between size end start else numbers_between size start end

-- A part with a hyphen: the numbers of a range of two ends.
unfoldable pub range_of : ℕ → List Text → List ℤ
unfolding track_range
range_of size (start ∷ end ∷ []) = elim (atoi (trim_space start)) [
  | none ↦ []
  | some a ↦ elim (atoi (trim_space end)) [ none ↦ [] | some b ↦ track_range size a b ]
]
range_of size [] = []
range_of size (part ∷ []) = []
range_of size (a ∷ b ∷ c ∷ parts) = []

unfoldable pub tracks_of_part : ℕ → Text → List ℤ
unfolding range_of
tracks_of_part size part =
    if contains part b'-'
    then range_of size (split b'-' part)
    else elim (atoi part) [ none ↦ [] | some track ↦ track ∷ [] ]

-- tracksToRemove
unfoldable pub tracks_to_remove : ℕ → List Text → List ℤ
unfolding tracks_of_part
tracks_to_remove size [] = []
tracks_to_remove size (part ∷ parts) =
    tracks_of_part size (trim_space part) ++ tracks_to_remove size parts

-- The tracks of the queue among them, each one once: `seen` has the ones before.
unfoldable pub unique_tracks : ℕ → List ℕ → List ℤ → List ℕ
unique_tracks size seen [] = []
unique_tracks size seen (negsuc n ∷ tracks) = unique_tracks size seen tracks
unique_tracks size seen (pos zero ∷ tracks) = unique_tracks size seen tracks
unique_tracks size seen (pos (suc n) ∷ tracks) =
    let skipped = unique_tracks size seen tracks in
    let rest = unique_tracks size (suc n ∷ seen) tracks in
    if leb (suc n) size then (if contains seen (suc n) then skipped else suc n ∷ rest) else skipped

unfoldable pub insert_descending : ℕ → List ℕ → List ℕ
insert_descending t [] = t ∷ []
insert_descending t (u ∷ us) =
    let rest = insert_descending t us in if ltb u t then t ∷ u ∷ us else u ∷ rest

-- sort.Slice by `>`; no track is there twice.
unfoldable pub sort_descending : List ℕ → List ℕ
unfolding insert_descending
sort_descending [] = []
sort_descending (t ∷ ts) = insert_descending t (sort_descending ts)

-- sortedTracks
unfoldable pub sorted_tracks : ℕ → Text → List ℕ
unfolding tracks_to_remove unique_tracks sort_descending
sorted_tracks size args =
    sort_descending (unique_tracks size [] (tracks_to_remove size (split b',' args)))

unfoldable pub remove_tracks : ℤ → List ℕ → ChatCacher → ChatCacher
remove_tracks chat [] c = c
remove_tracks chat (t ∷ ts) c = remove_tracks chat ts (remove_track chat (pos t) c).0

-- What the handler replies.
pub data Reply : Type 0 where
  refused not_streaming queue_empty usage no_number no_valid_track : Reply
  removed_one : ℕ → Reply
  removed_many : ℕ → Reply

abbrev pub removed : List ℕ → Reply
removed [] = no_valid_track
removed (t ∷ []) = removed_one t
removed (t ∷ u ∷ ts) = removed_many (length (t ∷ u ∷ ts))

-- The first argument is what adminMode answers.
unfoldable pub remove_handler : Bool → ℤ → Text → ChatCacher → ChatCacher × Reply
unfolding remove_tracks sorted_tracks
remove_handler false chat args c = (c, refused)
remove_handler true chat args c =
    let queue = get_queue chat c in
    let size = length queue in
    let tracks = sorted_tracks size args in
    if is_active chat c
    then (if is_empty queue
        then (c, queue_empty)
        else if is_blank args
        then (c, usage)
        else if is_empty (tracks_to_remove size (split b',' args))
        then (c, no_number)
        else (remove_tracks chat tracks c, removed tracks))
    else (c, not_streaming)
