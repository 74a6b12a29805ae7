-- ===== src/Tests/Commands.antt =====
-- The commands of the bot.
use tg.Base.{◌≡◌, refl, [], ◌∷◌, some, true, Text, bytes, pos, lookup, int_eq}
use tg.Player.{ChatCacher, VcData, data_of, is_active, get_queue, remove_track}
use tg.Commands.Numbers.{split, trim_space, trim_left, atoi, read_below, read_digits}
use tg.Commands.Remove.{
  tracks_to_remove, tracks_of_part, range_of, track_range, numbers_between, count_from,
  sorted_tracks, unique_tracks, sort_descending, insert_descending, remove_tracks, remove_handler,
  removed_one,
}
use tg.Commands.Named.{is_named, remaining, remove_handler_lem}

abbrev three_songs : VcData
three_songs = record {
  queue = some 10 ∷ some 11 ∷ some 12 ∷ [];
  autoplay = true;
  autoplay_history = [];
}

abbrev chats : ChatCacher
chats = record { chat_cache = (pos 5, three_songs) ∷ [] }

abbrev first_and_others : Text
first_and_others = bytes " 2 , 1-1,x, 0-1"

remove_handler_example :
    data_of (pos 5) (remove_handler true (pos 5) first_and_others chats).0
    ≡ record three_songs { queue = some 10 ∷ [] }
unfolding remaining is_named split trim_space trim_left atoi read_below read_digits lookup
remove_handler_example = remove_handler_lem (pos 5) (pos 5) first_and_others chats

-- The number behind the last song is said to be removed, and nothing is.
last_number : remove_handler true (pos 5) (bytes "3") chats ≡ (chats, removed_one 3)
unfolding remove_handler is_active get_queue lookup sorted_tracks tracks_to_remove tracks_of_part
    split trim_space trim_left atoi read_below read_digits unique_tracks sort_descending
    insert_descending remove_tracks remove_track
last_number = refl

reversed_range : tracks_to_remove 3 (split b',' (bytes "2-1")) ≡ pos 1 ∷ pos 2 ∷ []
unfolding tracks_to_remove tracks_of_part range_of track_range numbers_between count_from split
    trim_space trim_left atoi read_below read_digits
reversed_range = refl
