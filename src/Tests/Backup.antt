-- ===== src/Tests/Backup.antt =====
-- Backups.
use tg.Base.{
  if◌then◌else◌, [], ◌∷◌, ◌++◌, ◌≡◌, refl, none, some, Text, bytes, ok, All, take, drop, length,
  ◌-◌, contains, lookup, has_prefix, text_eq, arith,
}
use tg.Backup.Lines.{Codec, Store, drop_cr, raw_lines, scan, documents, collection_of}
use tg.Backup.Save.{Reads, backup_one_collection, backup_to_zip}
use tg.Backup.Restore.{restore_entries, restore_from_zip}
use tg.Backup.Scans.{IsLine}
use tg.Backup.Loops.{undisturbed, accepting, IsReadBack}
use tg.Backup.Restored.{backup_to_zip-restore_from_zip, restore_entries-find_error}

-- A driver whose documents are the fields of an object, written between braces.
abbrev braces : Codec Text
braces = record {
  marshal = λ doc. ok (b'{' ∷ doc ++ b'}' ∷ []);
  unmarshal = λ line. ok (take (length line - 2) (drop 1 line));
}

abbrev ann : Text
ann = bytes "\"_id\":1"

abbrev bob : Text
bob = bytes "\"_id\":2"

abbrev users : Text
users = bytes "users"

abbrev chats : Text
chats = bytes "chats"

abbrev database : Store Text
database = (users, ann ∷ bob ∷ []) ∷ []

abbrev database_now : Store Text
database_now = (chats, bob ∷ []) ∷ (users, bob ∷ []) ∷ []

ann-IsReadBack : IsReadBack braces ann
unfolding IsReadBack IsLine drop_cr
ann-IsReadBack = (refl, refl, refl, (refl, refl, omega arith))

bob-IsReadBack : IsReadBack braces bob
unfolding IsReadBack IsLine drop_cr
bob-IsReadBack = (refl, refl, refl, (refl, refl, omega arith))

database-IsReadBack : All (λ name. All (IsReadBack braces) (documents name database)) (users ∷ [])
unfolding lookup
database-IsReadBack = ((ann-IsReadBack, (bob-IsReadBack, tt)), tt)

backup_to_zip-restore_from_zip_example :
    let reads = λ (name : Text). undisturbed (documents name database) in
    let saved = backup_to_zip braces reads (ok (users ∷ [])) none none in
    let restored = restore_from_zip braces (λ file. accepting) none saved.1 database_now in
    (restored.1 ≡ saved.0)
    × ((j : Text)
        → documents j restored.0
          ≡ (if contains (users ∷ []) j then documents j database else documents j database_now))
backup_to_zip-restore_from_zip_example =
    backup_to_zip-restore_from_zip braces database database_now users [] database-IsReadBack

abbrev timed_out : Reads Text
timed_out = record (undisturbed []) { find_error = some (bytes "timeout") }

restore_entries-find_error_example :
    let saved = backup_one_collection braces timed_out users in
    let restored = restore_entries braces (λ file. accepting) saved.2 database in
    (saved.1 ≡ some (bytes "timeout"))
    × (documents users restored.0 ≡ [])
    × (restored.1 ≡ record { collection = users; count = 0; error = none } ∷ [])
restore_entries-find_error_example =
    restore_entries-find_error braces timed_out users (bytes "timeout") database refl refl

-- A zip without a backup is refused.
foreign_zip :
    (restore_from_zip braces (λ file. accepting) none ((bytes "a.txt", []) ∷ []) database).0
    ≡ database
unfolding restore_from_zip restore_entries collection_of has_prefix
foreign_zip = refl

-- A blank line is skipped, and a carriage return dropped.
abbrev crlf : Text
crlf = bytes "{1}\r\n\n{2}"

crlf_lines : (scan (raw_lines crlf)).0 ≡ bytes "{1}" ∷ [] ∷ bytes "{2}" ∷ []
unfolding scan raw_lines drop_cr
crlf_lines = refl
