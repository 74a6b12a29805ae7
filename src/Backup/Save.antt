-- ===== src/Backup/Save.antt =====
-- internal/db/backup.go: BackupToZip. What the server, the driver and the disk answer is chosen by
-- `Reads`, one for each collection.
use tg.Base.{ℕ, suc, List, [], ◌∷◌, ◌++◌, Option, none, some, Text, bytes, Result, ok, err, take}
use tg.Backup.Lines.{Codec, Zip, newline, entry_name}

-- One CollectionBackupResult.
pub record Report : Type 0 where
  pub collection : Text
  pub count : ℕ
  pub error : Option Text

pub record Reads (Doc : Type 0) : Type 0 where
  pub create_error : Option Text
  pub find_error : Option Text
  -- What decoding each document answers, and the error of writing its line.
  pub cursor : List (Result Text Doc × Option Text)
  pub cursor_error : Option Text
  pub flush_error : Option Text
  -- Where the backup of the collection stops early, the zip has this many of the bytes: the buffered
  -- writer has passed on only full buffers.
  pub passed_on : ℕ

-- How a backup ends: no result, a result beside an error, or a result.
pub data Ending : Type 0 where
  fails : Text → Ending
  fails_late : List Report → Text → Ending
  completes : List Report → Ending

module _ {Doc : Type 0} (codec : Codec Doc) where
  -- The loop over the cursor: the documents counted, what was written, and the error.
  unfoldable pub backup_lines : List (Result Text Doc × Option Text) → ℕ × Text × Option Text
  backup_lines [] = (0, [], none)
  backup_lines ((err e, written) ∷ docs) = (0, [], some (bytes "decode failed: " ++ e))
  backup_lines ((ok doc, written) ∷ docs) = elim (codec.marshal doc) [
    | err e ↦ (0, [], some (bytes "marshal failed: " ++ e))
    | ok line ↦ elim written [
      | some e ↦ (0, line, some e)
      | none ↦ let rest = backup_lines docs in (suc rest.0, line ++ newline ∷ rest.1, rest.2)
    ]
  ]

  unfoldable pub backup_one_collection : Reads Doc → Text → ℕ × Option Text × Zip
  unfolding backup_lines entry_name
  backup_one_collection r name = elim r.create_error [
    | some e ↦ (0, some e, [])
    | none ↦ elim r.find_error [
      | some e ↦ (0, some e, (entry_name name, []) ∷ [])
      | none ↦
          let written = backup_lines r.cursor in
          let part : Zip = (entry_name name, take r.passed_on written.1) ∷ [] in
          elim written.2 [
            | some e ↦ (written.0, some e, part)
            | none ↦ elim r.cursor_error [
              | some e ↦ (written.0, some e, part)
              | none ↦ elim r.flush_error [
                | some e ↦ (written.0, some e, part)
                | none ↦ (written.0, none, (entry_name name, written.1) ∷ [])
              ]
            ]
          ]
    ]
  ]

  unfoldable pub backup_collections : (Text → Reads Doc) → List Text → List Report × Zip
  unfolding backup_one_collection
  backup_collections reads [] = ([], [])
  backup_collections reads (name ∷ names) =
      let one = backup_one_collection (reads name) name in
      let rest = backup_collections reads names in
      (record { collection = name; count = one.0; error = one.1 } ∷ rest.0, one.2 ++ rest.1)

  -- The names are what ListCollectionNames answers; then the errors of creating the file and of
  -- closing the zip.
  unfoldable pub backup_to_zip :
      (Text → Reads Doc) → Result Text (List Text) → Option Text → Option Text → Ending × Zip
  unfolding backup_collections
  backup_to_zip reads (err e) created closed =
      (fails (bytes "failed to list collections: " ++ e), [])
  backup_to_zip reads (ok names) (some e) closed =
      (fails (bytes "failed to create backup file: " ++ e), [])
  backup_to_zip reads (ok names) none (some e) =
      let all = backup_collections reads names in
      (fails_late all.0 (bytes "failed to finalize backup zip: " ++ e), all.1)
  backup_to_zip reads (ok names) none none =
      let all = backup_collections reads names in (completes all.0, all.1)
