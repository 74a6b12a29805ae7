-- ===== src/Backup/Scans.antt =====
-- internal/db/backup.go: the lines of a backup, read by the scanner, and the names of its entries.
use tg.Base.{
  List, [], ◌∷◌, ◌++◌, some, false, Text, length, ◌<◌, ◌≡◌, refl, contains, nat_eq, All, has_prefix,
  arith,
}
use mathlib.Core.List.{reverse-reverse, reverse-append}
use tg.Backup.Lines.{
  newline, max_line, add_byte, drop_cr, raw_lines, scan, entry_name, collection_of,
}

-- What the scanner hands out as it was written.
unfoldable pub IsLine : Text → Type 0
IsLine line = (contains line newline ≡ false) × (drop_cr line ≡ line) × (length line < max_line)

-- Lines, each with a newline behind it.
unfoldable pub text_of : List Text → Text
text_of [] = []
text_of (line ∷ lines) = line ++ newline ∷ text_of lines

raw_lines-append :
    (line s : Text)
    → contains line newline ≡ false
    → raw_lines (line ++ newline ∷ s) ≡ line ∷ raw_lines s
unfolding raw_lines add_byte
raw_lines-append [] s h = refl
raw_lines-append (c ∷ line) s h = ground (arith, raw_lines-append line s)

pub scan-text_of :
    (lines : List Text) → All IsLine lines → scan (raw_lines (text_of lines)) ≡ (lines, false)
unfolding scan raw_lines text_of IsLine
scan-text_of [] h = refl
scan-text_of (line ∷ lines) h =
    rw (raw_lines-append line (text_of lines) h.0.0) ground (arith, scan-text_of lines h.1)

-- A collection is read back under its name.
pub collection_of-entry_name : (name : Text) → collection_of (entry_name name) ≡ some name
unfolding collection_of entry_name has_prefix
collection_of-entry_name name = rw (reverse-append, reverse-reverse) refl
