-- ===== src/Lib.antt =====
-- Verification of TgMusicBot, a Telegram bot that plays music in the video chats of groups.
--
-- The parts. A command handler (internal/bot) puts tracks into the queue of a chat, which lives in
-- memory (internal/cache/player_cache.go). Playback (internal/calls) takes the current track of the
-- queue and streams it through one of several assistant accounts; when an assistant fails, it tries
-- others. Who may command the bot follows from the administrators of the chat, which are cached with
-- a time to live (internal/cache/cache.go, admins.go), and from the settings in a MongoDB database,
-- which is read through caches of the same kind (internal/db).
--
-- The files.
-- - Ttl: internal/cache/cache.go. Defs holds the cache; each stretch under one lock is a definition,
--   and a method takes what its calls of time.Now() returned. Reads and Eviction say what a reader
--   sees, also where goroutines interleave; Janitor is the goroutine that cleans all caches.
-- - Player: internal/cache/player_cache.go. State, Updates and Getters hold ChatCacher and its
--   methods: getOrCreate is get_or_create, AddSong is add_song and so on. A track is an address in
--   memory or nil. Slices shows what the in-place copies come to, Calls has histories of calls and
--   the reference on plain lists, Queue the refinement, History and Answers the rest.
-- - Admins: internal/cache/admins.go, with the answer of the server as an argument; Lookup is about
--   lists of administrators, Laws about the cache.
-- - Db: internal/db. Collection is what is assumed of a MongoDB collection, Cached the shared pattern
--   of getters and setters, Assistant is assistant.go, Lists is auth.go and blacklist.go, Switches
--   is lang.go and logger.go. Chats is chats.go, Settings has histories of calls on it and Getters
--   what the getters answer. Users is users.go, Flags has histories of calls on it and Reachability
--   what is stored. Playlists is playlist.go and Tracks what a playlist holds. Each call takes the
--   error that the server answers with, if any.
-- - Backup: internal/db/backup.go. Lines is what it uses of bufio, of strings and of the driver, Save
--   is BackupToZip, Restore is RestoreFromZip. Scans and Loops are about their loops, Restored about
--   a restored backup. The times and the path of a result are left out: the zip is a list of entries.
-- - Playback: internal/calls/playback.go, autoplay.go and assistant.go. Errors classifies error texts,
--   Defs holds GetAccount, PlayMedia and rotateAndPlay over an environment that chooses what every
--   attempt and every database call does. Rotation, Account, Each, Outcome and
--   Clears show that it ends, and how.
--   Next holds PlayNext, playTrack, handleAutoplay and Stop, over the queues of Player; Remaining
--   counts what a chat has left to play, Proposed after a song of autoplay, and Ends shows how
--   a call of PlayNext ends. Seek is
--   internal/calls/time.go, SeekStream and internal/bot/seek.go, with integers of 32 and 64 bits, and
--   Position says where a song goes on.
-- - Membership: internal/calls/membership.go. Defs holds the store of what an assistant is in its
--   chats and of the invite links, with the answers of the server as arguments; Leave is
--   leaveAssistantDialogs and what calls it. Links, Joining, Joined and Leaving state what
--   holds of them.
-- - Call: internal/calls/call.go and assistant.go. State is what an AssistantAccount keeps and a
--   log of the calls of the native library, Connect is connectCall and StartCallStream, Updates the
--   handlers of updates. Events has histories of both and Settled their invariant, Signals is about
--   the channels that connectCall waits on, Retries about joining again after a refusal.
-- - Commands: internal/bot. Guards is adminMode of filters.go, over the caches of Admins and Db, and
--   Passing says whom it lets pass. Of remove.go, Numbers is what it uses of strings and strconv, and
--   Remove holds the handler, Selection the tracks that a command names, Removal what is left of the
--   queue, and Named what the written numbers and ranges mean.
--   Playlists holds the handlers of playlist.go, over Db/Playlists, Ownership and ByNumber are about them.
-- - Play: internal/bot/play.go. Defs holds the handlers that put found tracks into the queue, over
--   the queues of Player and over PlayMedia and PlayNext. Front is about AddSongToFront in a loop,
--   Allocated about new tracks in memory, Multiple and Forced about several tracks, Single about one.
-- - Broadcast: internal/db/broadcast.go and internal/bot/broadcast.go. Bulk holds flags set on many
--   documents, over the tables of Db, Defs the command, its loop and the stop, Flagged is about the
--   bulk updates, Report about the numbers of the report, and Marks about who is flagged.
-- - Cleanup: internal/downloader/cleanup.go. Paths is what it uses of path/filepath, Defs one sweep
--   over what the file system answers, Removed and Kept are about every file that goes, and Complete
--   about the downloads that go. mediaCacheDirs is a Go map; the list is one of its orders.
-- - Base: what the others share. Text is a list of bytes, a Go map an association list, an int64 an
--   integer without bound (ids are compared and printed, and not computed with), but for Playback/Seek.
-- - Tests: concrete runs, and a collection in memory that meets the laws of Db/Collection.antt.
--
-- Fuel: rotateAndPlay loops on fuel, one more than there are accounts, since every round takes an
-- account that was not tried; PlayNext on what the chat has left to play, of which every further
-- round takes one away; a bulk update on the number of ids. All are shown never to run out.
--
-- Not modelled: the texts that are shown to users, the loggers, the Telegram and MongoDB clients, the
-- native media library, ffmpeg and the downloads. The parts are joined where the code joins them in
-- one call of an interface: an attempt to play is one choice of the environment of Playback, and
-- Membership and Call are what happens inside one. Of the calls, JoinAssistant, the ticker that
-- leaves idle chats, the media of a live stream, upgrades of a group, and Pause, Resume, Mute and
-- Unmute are left out, and a chat is given by its id, not its username. Of the commands, /remove,
-- /seek, the adding of songs, the changes of playlists and /broadcast are modelled, with
-- constructors for their replies, each as if no other command ran at the same time. Queries over all
-- chats, all users or all playlists of a user are left out. A call of the database that fails, also
-- a DeleteMany, is taken not to have changed it, but for UpdateMany, which may have changed any of
-- its documents.
mod Base
pub mod Ttl
pub mod Player
pub mod Admins
pub mod Backup
pub mod Db
pub mod Playback
pub mod Membership
pub mod Call
pub mod Commands
pub mod Play
pub mod Broadcast
pub mod Cleanup
mod Tests
