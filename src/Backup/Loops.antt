-- ===== src/Backup/Loops.antt =====
-- internal/db/backup.go: the loops over the documents of a collection, where nothing fails.
use tg.Base.{
  ℕ, ◌+◌, List, [], ◌∷◌, ◌++◌, Option, none, false, Text, ok, err, length, length-append, map,
  is_blank, ◌≡◌, refl, sym, ap, ◌∙◌, All, arith,
}
use mathlib.Core.List.{append_assoc, append-nil}
use tg.Backup.Lines.{Codec}
use tg.Backup.Save.{Reads, backup_lines}
use tg.Backup.Restore.{Writes, Progress, flush, flush_full, restore_lines}
use tg.Backup.Scans.{IsLine, text_of}

-- What a server that answers and a disk that takes everything come to.
abbrev pub undisturbed : {Doc : Type 0} → List Doc → Reads Doc
undisturbed docs = record {
  create_error = none;
  find_error = none;
  cursor = map (λ doc. (ok doc, none)) docs;
  cursor_error = none;
  flush_error = none;
  passed_on = 0;
}

abbrev pub accepting : Writes
accepting = record {
  open_error = none;
  drop_error = none;
  insert_many = λ n. none;
  read_error = none;
}

module _ {Doc : Type 0} where
  -- What the collection has once the batch is flushed, and the count then.
  abbrev pub contents : Progress Doc → List Doc
  contents p = p.stored ++ p.batch

  abbrev pub total : Progress Doc → ℕ
  total p = p.count + length p.batch

  abbrev pub Flushed : Progress Doc → Type 0
  Flushed p =
      ((flush accepting p).1 ≡ none)
      × ((flush accepting p).0.stored ≡ contents p)
      × ((flush accepting p).0.batch ≡ [])
      × ((flush accepting p).0.count ≡ total p)

  flush-Flushed :
      (n : ℕ) (batch stored : List Doc) (c : ℕ)
      → Flushed (record { count = n; batch = batch; stored = stored; calls = c })
  unfolding flush
  flush-Flushed n [] stored c = ground (arith, append-nil stored)
  flush-Flushed n (d ∷ ds) stored c = (refl, refl, refl, refl)

  pub flush-contents : (p : Progress Doc) → Flushed p
  flush-contents p = flush-Flushed p.count p.batch p.stored p.calls

  flush_full-contents :
      (p : Progress Doc)
      → ((flush_full accepting p).1 ≡ none)
        × (contents (flush_full accepting p).0 ≡ contents p)
        × (total (flush_full accepting p).0 ≡ total p)
  unfolding flush_full
  flush_full-contents p = ground (arith, flush-contents p, append-nil (contents p))

append-snoc :
    {A : Type 0} (s b : List A) (x : A) (xs : List A) → s ++ (b ++ x ∷ []) ++ xs ≡ s ++ b ++ x ∷ xs
append-snoc s b x xs =
    ap (λ t. t ++ xs) (sym (append_assoc s b (x ∷ []))) ∙ append_assoc (s ++ b) (x ∷ []) xs

-- A document that the driver reads back from what it writes, on a line that the scanner takes.
module _ {Doc : Type 0} (codec : Codec Doc) where
  abbrev pub line_of : Doc → Text
  line_of doc = elim (codec.marshal doc) [ ok line ↦ line | err e ↦ [] ]

  unfoldable pub IsReadBack : Doc → Type 0
  IsReadBack doc =
      (codec.marshal doc ≡ ok (line_of doc))
      × (codec.unmarshal (line_of doc) ≡ ok doc)
      × (is_blank (line_of doc) ≡ false)
      × IsLine (line_of doc)

  pub lines-IsLine : (docs : List Doc) → All IsReadBack docs → All IsLine (map line_of docs)
  unfolding IsReadBack
  lines-IsLine [] h = tt
  lines-IsLine (d ∷ ds) h = (h.0.3, lines-IsLine ds h.1)

  pub backup_lines-undisturbed :
      (docs : List Doc)
      → All IsReadBack docs
      → backup_lines codec (undisturbed docs).cursor
        ≡ (length docs, text_of (map line_of docs), none)
  unfolding backup_lines text_of IsReadBack
  backup_lines-undisturbed [] h = refl
  backup_lines-undisturbed (d ∷ ds) h =
      rw (h.0.0, backup_lines-undisturbed ds h.1, backup_lines) refl

  abbrev pub ReadsAll : List Doc → Progress Doc → Progress Doc × Option Text → Type 0
  ReadsAll docs p q =
      (q.1 ≡ none) × (contents q.0 ≡ contents p ++ docs) × (total q.0 ≡ total p + length docs)

  pub restore_lines-accepting :
      (docs : List Doc) (p : Progress Doc)
      → All IsReadBack docs
      → ReadsAll docs p (restore_lines codec accepting (map line_of docs) p)
  unfolding restore_lines IsReadBack
  restore_lines-accepting [] p h = ground (arith, append-nil (contents p))
  restore_lines-accepting (d ∷ ds) p h =
      let next = record p { batch = p.batch ++ d ∷ [] } in
      let full = flush_full-contents next in
      let rest = restore_lines-accepting ds (flush_full accepting next).0 h.1 in
      rw (h.0.1, h.0.2, full.0, restore_lines)
        (
          rest.0,
          rest.1 ∙ ap (λ (xs : List Doc). xs ++ ds) full.1 ∙ append-snoc p.stored p.batch d ds,
          ground (arith, rest.2, full.2, length-append p.batch (d ∷ [])),
        )
