-- ===== src/Tests/Playlists.antt =====
-- Playlists in memory.
use tg.Base.{
  ◌≡◌, refl, List, [], ◌∷◌, none, some, Text, bytes, pos, lookup, insert, text_eq, int_eq, length,
  ok,
}
use tg.Db.Playlists.{Song, Playlist, has_track, add_song_to_playlist, push_song}
use tg.Db.Tracks.{
  HasDistinctTracks, Call, creates, deletes, adds, removes, songs_of, run, run-HasDistinctTracks,
}
use tg.Commands.Numbers
use tg.Commands.Numbers.{atoi}
use tg.Commands.Playlists.{first_runes, split_two, remove_from_playlist_handler, removed}
use tg.Commands.Ownership
use tg.Commands.Ownership.{Command, run-others}
use tg.Commands.ByNumber.{no_faults, remove_from_playlist_handler-erase_at}
use tg.Tests.Memory.{in_memory, update_entry}

abbrev song : Text → Song
song track = record {
  url = bytes "u";
  name = bytes "n";
  track_id = track;
  duration = pos 60;
  platform = bytes "youtube";
}

abbrev favourites : List (Text × Playlist)
favourites =
    (bytes "tgpl_1", record { name = bytes "mine"; user_id = pos 5; songs = song (bytes "a") ∷ [] })
    ∷ []

abbrev calls : List Call
calls =
    adds none (bytes "tgpl_1") (song (bytes "a"))
    ∷ adds none (bytes "tgpl_1") (song (bytes "b"))
    ∷ creates none (bytes "tgpl_2") (bytes "other") (pos 5)
    ∷ removes (some (bytes "timeout")) (bytes "tgpl_1") (bytes "a")
    ∷ deletes none (bytes "tgpl_2") (pos 6)
    ∷ []

favourites-HasDistinctTracks : HasDistinctTracks (songs_of in_memory (bytes "tgpl_1") favourites)
unfolding has_track lookup
favourites-HasDistinctTracks = (refl, tt)

run-HasDistinctTracks_example :
    HasDistinctTracks (songs_of in_memory (bytes "tgpl_1") (run in_memory calls favourites))
run-HasDistinctTracks_example =
    run-HasDistinctTracks in_memory calls (bytes "tgpl_1") favourites favourites-HasDistinctTracks

-- A read that fails lets a song in twice.
added_twice :
    length (
      songs_of in_memory
        (bytes "tgpl_1")
        (add_song_to_playlist in_memory
          (some (bytes "timeout"))
          none
          (bytes "tgpl_1")
          (song (bytes "a"))
          favourites).0)
    ≡ 2
unfolding add_song_to_playlist lookup insert update_entry push_song
added_twice = refl

-- An é is one rune of two bytes.
first_runes_run : first_runes 2 (195 ∷ 169 ∷ 97 ∷ 98 ∷ []) ≡ 195 ∷ 169 ∷ 97 ∷ []
unfolding first_runes
first_runes_run = refl

abbrev two_songs : Playlist
two_songs = record {
  name = bytes "mine";
  user_id = pos 5;
  songs = song (bytes "a") ∷ song (bytes "b") ∷ [];
}

remove_from_playlist_handler-erase_at_example :
    let r =
      remove_from_playlist_handler in_memory no_faults
        (pos 5)
        (bytes "tgpl_1 2")
        ((bytes "tgpl_1", two_songs) ∷ []) in
    (lookup (bytes "tgpl_1") r.0 ≡ some (record two_songs { songs = song (bytes "a") ∷ [] }))
    × (r.1 ≡ removed (bytes "mine"))
unfolding split_two atoi lookup has_track Numbers.read_below Numbers.read_digits
remove_from_playlist_handler-erase_at_example =
    remove_from_playlist_handler-erase_at in_memory (pos 5) (bytes "tgpl_1 2") (bytes "tgpl_1")
      (bytes "2") two_songs 1 (song (bytes "b")) ((bytes "tgpl_1", two_songs) ∷ []) refl refl refl
      refl (refl, (refl, tt)) refl refl

-- Somebody else tries to delete the playlist, to take out its song, and makes another one.
abbrev attempts : List Command
attempts =
    Ownership.deletes no_faults (pos 6) (bytes "tgpl_1")
    ∷ Ownership.removes no_faults (pos 6) (bytes "tgpl_1 1")
    ∷ Ownership.creates no_faults (pos 7) (bytes "new") (ok []) (bytes "tgpl_2")
    ∷ []

run-others_example :
    lookup (bytes "tgpl_1") (Ownership.run in_memory attempts ((bytes "tgpl_1", two_songs) ∷ []))
    ≡ some two_songs
unfolding lookup
run-others_example =
    run-others in_memory attempts (bytes "tgpl_1") two_songs ((bytes "tgpl_1", two_songs) ∷ []) refl
      (refl, (refl, (refl, tt)))
