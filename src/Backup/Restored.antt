-- ===== src/Backup/Restored.antt =====
-- internal/db/backup.go: what restoring a backup comes to.
use tg.Base.{
  ℕ, List, [], ◌∷◌, ◌++◌, Option, none, some, Text, ok, length, map, ◌≡◌, refl, ap, ◌∙◌, All, arith,
  contains, text_eq, ◌==◌, if◌then◌else◌, lookup-insert, lookup-delete,
}
use tg.Backup.Lines.{Codec, Zip, Store, documents, entry_name}
use tg.Backup.Save.{Reads, backup_one_collection, backup_collections, backup_to_zip}
use tg.Backup.Restore.{
  restore_lines, restore_scanned, restore_one_collection, restore_entries, restore_from_zip,
  replace, scan_error, Progress,
}
use tg.Backup.Scans.{text_of, scan-text_of, collection_of-entry_name}
use tg.Backup.Loops.{
  undisturbed, accepting, line_of, IsReadBack, lines-IsLine, backup_lines-undisturbed,
  flush-contents, restore_lines-accepting,
}

documents-replace :
    {Doc : Type 0} (name j : Text) (docs : List Doc) (store : Store Doc)
    → documents j (replace name docs store) ≡ (if name == j then docs else documents j store)
unfolding replace
documents-replace name j [] store = rw (lookup-delete name j store) ground arith
documents-replace name j (d ∷ ds) store = rw (lookup-insert name j (d ∷ ds) store) ground arith

module _ {Doc : Type 0} (codec : Codec Doc) where
  backup_one-undisturbed :
      (name : Text) (docs : List Doc)
      → All (IsReadBack codec) docs
      → backup_one_collection codec (undisturbed docs) name
        ≡ (length docs, none, (entry_name name, text_of (map (line_of codec) docs)) ∷ [])
  unfolding backup_one_collection
  backup_one-undisturbed name docs h = ground (arith, backup_lines-undisturbed codec docs h)

  restore_scanned-accepting :
      (docs : List Doc)
      → All (IsReadBack codec) docs
      → let done = restore_scanned codec accepting (map (line_of codec) docs, none) in
        (done.1 ≡ none) × (done.0.stored ≡ docs) × (done.0.count ≡ length docs)
  unfolding restore_scanned
  restore_scanned-accepting docs h =
      let start : Progress Doc = record { count = 0; batch = []; stored = []; calls = 0 } in
      let read = restore_lines-accepting codec docs start h in
      let last =
        flush-contents (restore_lines codec accepting (map (line_of codec) docs) start).0 in
      ground (arith, read, last)

  restore_one-accepting :
      (name : Text) (docs : List Doc) (store : Store Doc)
      → All (IsReadBack codec) docs
      → restore_one_collection codec accepting (text_of (map (line_of codec) docs)) name store
        ≡ (replace name docs store, length docs, none)
  unfolding restore_one_collection scan_error
  restore_one-accepting name docs store h =
      rw (scan-text_of (map (line_of codec) docs) (lines-IsLine codec docs h)) ground
        (arith, restore_scanned-accepting docs h)

  restore_entries-saved :
      (name : Text) (docs : List Doc) (files : Zip) (store : Store Doc)
      → All (IsReadBack codec) docs
      → let saved = backup_one_collection codec (undisturbed docs) name in
        let rest = restore_entries codec (λ file. accepting) files (replace name docs store) in
        restore_entries codec (λ file. accepting) (saved.2 ++ files) store
        ≡ (rest.0, record { collection = name; count = saved.0; error = saved.1 } ∷ rest.1)
  unfolding restore_entries
  restore_entries-saved name docs files store h =
      rw (backup_one-undisturbed name docs h, collection_of-entry_name name, restore_entries)
        (ap
          (λ (one : Store Doc × ℕ × Option Text).
            let rest = restore_entries codec (λ file. accepting) files one.0 in
            (rest.0, record { collection = name; count = one.1; error = one.2 } ∷ rest.1))
          (restore_one-accepting name docs store h))

  -- Restored entries: the reports of the backup, and the collections as they were then.
  AreRestored : Store Doc → List Text → Store Doc → Type 0
  AreRestored db names store =
      let saved = backup_collections codec (λ name. undisturbed (documents name db)) names in
      let restored = restore_entries codec (λ file. accepting) saved.1 store in
      (restored.1 ≡ saved.0)
      × ((j : Text)
          → documents j restored.0
            ≡ (if contains names j then documents j db else documents j store))

  restore_entries-AreRestored :
      (db : Store Doc) (names : List Text) (store : Store Doc)
      → All (λ name. All (IsReadBack codec) (documents name db)) names
      → AreRestored db names store
  unfolding AreRestored backup_collections restore_entries
  restore_entries-AreRestored db [] store h = (refl, λ j. refl)
  restore_entries-AreRestored db (name ∷ names) store h =
      let docs : List Doc = documents name db in
      let saved = backup_collections codec (λ other. undisturbed (documents other db)) names in
      let rest = restore_entries-AreRestored db names (replace name docs store) h.1 in
      rw (restore_entries-saved name docs saved.1 store h.0) (
        ground (arith, rest.0),
        λ j.
            rest.1 j
            ∙ ground (arith, documents-replace name j docs store, text_eq.equal_iff name j),
      )

  -- A backup of at least one collection, made and restored without errors, brings every
  -- collection in it back, whatever the database holds by then, leaves the others as they are
  -- then, and the restore reports what the backup reported; where the driver reads each document
  -- back from the line that it writes of it, and the scanner takes the line: it is not empty, is
  -- shorter than the buffer, has no newline and does not end in a carriage return.
  pub backup_to_zip-restore_from_zip :
      (db now : Store Doc) (first : Text) (others : List Text)
      → All (λ name. All (IsReadBack codec) (documents name db)) (first ∷ others)
      → let reads = λ (name : Text). undisturbed (documents name db) in
        let saved = backup_to_zip codec reads (ok (first ∷ others)) none none in
        let restored = restore_from_zip codec (λ file. accepting) none saved.1 now in
        (restored.1 ≡ saved.0)
        × ((j : Text)
            → documents j restored.0
              ≡ (if contains (first ∷ others) j then documents j db else documents j now))
  unfolding backup_to_zip restore_from_zip backup_collections AreRestored
  backup_to_zip-restore_from_zip db now first others h =
      let all = restore_entries-AreRestored db (first ∷ others) now h in (rw (all.0) refl, all.1)

  -- Where the query of a collection fails while it is backed up, the error is reported, but the
  -- zip has an empty entry of the collection: restoring that, without errors, drops the
  -- collection and reports no error.
  pub restore_entries-find_error :
      (r : Reads Doc) (name e : Text) (store : Store Doc)
      → r.create_error ≡ none
      → r.find_error ≡ some e
      → let saved = backup_one_collection codec r name in
        let restored = restore_entries codec (λ file. accepting) saved.2 store in
        (saved.1 ≡ some e)
        × (documents name restored.0 ≡ [])
        × (restored.1 ≡ record { collection = name; count = 0; error = none } ∷ [])
  unfolding backup_one_collection restore_entries
  restore_entries-find_error r name e store c f =
      rw (c, f, collection_of-entry_name name, restore_entries)
        (refl, ground (arith, lookup-delete name name store, text_eq.equal_iff name name), refl)
