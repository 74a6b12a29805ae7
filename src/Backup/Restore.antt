-- ===== src/Backup/Restore.antt =====
-- internal/db/backup.go: RestoreFromZip. What the server answers is chosen by `Writes`, one for each
-- entry of the zip.
use tg.Base.{
  ℕ, suc, ◌+◌, Bool, true, false, List, [], ◌∷◌, ◌++◌, Option, none, some, Text, bytes, ok, err,
  take, length, leb, if◌then◌else◌, is_empty, is_blank, insert, delete, text_eq,
}
use tg.Backup.Lines.{Codec, Zip, Store, raw_lines, scan, collection_of}
use tg.Backup.Save.{Report, Ending, fails, completes}

abbrev pub insert_batch_size : ℕ
insert_batch_size = 500

pub record Writes : Type 0 where
  pub open_error : Option Text
  pub drop_error : Option Text
  -- The error of the n-th InsertMany, with how many documents of the batch it stored nevertheless.
  pub insert_many : ℕ → Option (Text × ℕ)
  -- The error of reading the entry, at its end.
  pub read_error : Option Text

-- The local variables of restoreOneCollection, with the documents that the collection has by then
-- and the number of the calls of InsertMany.
pub record Progress (Doc : Type 0) : Type 0 where
  pub count : ℕ
  pub batch : List Doc
  pub stored : List Doc
  pub calls : ℕ

module _ {Doc : Type 0} where
  unfoldable pub flush : Writes → Progress Doc → Progress Doc × Option Text
  flush w p = if is_empty p.batch then (p, none) else elim (w.insert_many p.calls) [
    | some (e, n) ↦ (record p { stored = p.stored ++ take n p.batch; calls = suc p.calls }, some e)
    | none ↦ (
      record {
        count = p.count + length p.batch;
        batch = [];
        stored = p.stored ++ p.batch;
        calls = suc p.calls;
      },
      none,
    )
  ]

  -- Flushes a batch that is full.
  unfoldable pub flush_full : Writes → Progress Doc → Progress Doc × Option Text
  unfolding flush
  flush_full w p = if leb insert_batch_size (length p.batch) then flush w p else (p, none)

  -- A collection that was dropped and given some documents.
  unfoldable pub replace : Text → List Doc → Store Doc → Store Doc
  replace name [] store = delete name store
  replace name (doc ∷ docs) store = insert name (doc ∷ docs) store

module _ {Doc : Type 0} (codec : Codec Doc) where
  -- The loop over the lines.
  unfoldable pub restore_lines : Writes → List Text → Progress Doc → Progress Doc × Option Text
  unfolding flush_full
  restore_lines w [] p = (p, none)
  restore_lines w (line ∷ lines) p =
      let skipped = restore_lines w lines p in
      if is_blank line then skipped else elim (codec.unmarshal line) [
        | err e ↦ (p, some (bytes "failed to parse document: " ++ e))
        | ok doc ↦
            let next = flush_full w (record p { batch = p.batch ++ doc ∷ [] }) in
            elim next.1 [ some e ↦ (next.0, some e) | none ↦ restore_lines w lines next.0 ]
      ]

  -- What follows the loop.
  unfoldable pub restore_scanned : Writes → List Text × Option Text → Progress Doc × Option Text
  unfolding restore_lines flush
  restore_scanned w (lines, stopped) =
      let read = restore_lines w lines (record { count = 0; batch = []; stored = []; calls = 0 }) in
      elim read.1 [
        | some e ↦ (read.0, some e)
        | none ↦ elim stopped [ some e ↦ (read.0, some e) | none ↦ flush w read.0 ]
      ]

  -- scanner.Err(), given whether a line was too long.
  unfoldable pub scan_error : Writes → List Text × Bool → List Text × Option Text
  scan_error w (lines, true) = (lines, some (bytes "bufio.Scanner: token too long"))
  scan_error w (lines, false) = (lines, w.read_error)

  unfoldable pub restore_one_collection :
      Writes → Text → Text → Store Doc → Store Doc × ℕ × Option Text
  unfolding restore_scanned raw_lines scan scan_error replace
  restore_one_collection w contents name store = elim w.open_error [
    | some e ↦ (store, 0, some e)
    | none ↦ elim w.drop_error [
      | some e ↦ (store, 0, some (bytes "failed to drop existing collection before restore: " ++ e))
      | none ↦
          let done = restore_scanned w (scan_error w (scan (raw_lines contents))) in
          (replace name done.0.stored store, done.0.count, done.1)
    ]
  ]

  -- The loop over the entries; what the server answers is by the name of the entry.
  unfoldable pub restore_entries : (Text → Writes) → Zip → Store Doc → Store Doc × List Report
  unfolding restore_one_collection collection_of
  restore_entries writes [] store = (store, [])
  restore_entries writes ((file, contents) ∷ files) store = elim (collection_of file) [
    | none ↦ restore_entries writes files store
    | some name ↦
        let one = restore_one_collection (writes file) contents name store in
        let rest = restore_entries writes files one.0 in
        (rest.0, record { collection = name; count = one.1; error = one.2 } ∷ rest.1)
  ]

  -- The error of zip.OpenReader comes first.
  unfoldable pub restore_from_zip :
      (Text → Writes) → Option Text → Zip → Store Doc → Store Doc × Ending
  unfolding restore_entries
  restore_from_zip writes (some e) files store =
      (store, fails (bytes "failed to open backup zip: " ++ e))
  restore_from_zip writes none files store =
      let all = restore_entries writes files store in
      (
        all.0,
        if is_empty all.1
            then fails (
                bytes
                  "no .jsonl collection entries found in this zip - is it a backup produced by /backup?")
            else completes all.1,
      )
