-- ===== src/Backup/Lines.antt =====
-- What internal/db/backup.go uses of Go's bufio and strings, of bson, and of a database.
use tg.Base.{
  ℕ, List, [], ◌∷◌, ◌++◌, Option, none, some, Bool, true, false, Text, bytes, Result, if◌then◌else◌,
  nat_beq, leb, length, drop, has_prefix, text_eq, lookup,
}
use mathlib.Core.List.{reverse}

-- bson.MarshalExtJSON and bson.UnmarshalExtJSON, which belong to the driver.
pub record Codec (Doc : Type 0) : Type 0 where
  pub marshal : Doc → Result Text Text
  pub unmarshal : Text → Result Text Doc

-- The entries of a zip: a name and the contents.
abbrev pub Zip : Type 0
Zip = List (Text × Text)

-- The collections of a database by name, each with its documents. An absent collection is empty.
abbrev pub Store : Type 0 → Type 0
Store Doc = List (Text × List Doc)

abbrev pub or_nothing {ℓ} : {A : Type ℓ} → Option (List A) → List A
or_nothing none = []
or_nothing (some xs) = xs

abbrev pub documents : {Doc : Type 0} → Text → Store Doc → List Doc
documents name store = or_nothing (lookup name store)

abbrev pub newline : ℕ
newline = 10

abbrev pub max_line : ℕ
max_line = 16777216

-- A line without one carriage return at its end.
unfoldable pub drop_cr : Text → Text
drop_cr [] = []
drop_cr (c ∷ []) = if nat_beq c 13 then [] else c ∷ []
drop_cr (c ∷ d ∷ s) = c ∷ drop_cr (d ∷ s)

unfoldable pub add_byte : ℕ → List Text → List Text
add_byte c [] = (c ∷ []) ∷ []
add_byte c (line ∷ lines) = (c ∷ line) ∷ lines

-- The stretches between newlines; what follows the last newline counts where it is not empty.
unfoldable pub raw_lines : Text → List Text
unfolding add_byte
raw_lines [] = []
raw_lines (c ∷ s) =
    let rest = raw_lines s in if nat_beq c newline then [] ∷ rest else add_byte c rest

-- What bufio.Scanner hands out, and whether it stops at a line that does not fit its buffer.
unfoldable pub scan : List Text → List Text × Bool
unfolding drop_cr
scan [] = ([], false)
scan (line ∷ lines) =
    let rest = scan lines in
    if leb max_line (length line) then ([], true) else (drop_cr line ∷ rest.0, rest.1)

abbrev pub suffix : Text
suffix = bytes ".jsonl"

-- name + ".jsonl"
unfoldable pub entry_name : Text → Text
entry_name name = name ++ suffix

-- strings.HasSuffix(f.Name, ".jsonl") and strings.TrimSuffix(f.Name, ".jsonl")
unfoldable pub collection_of : Text → Option Text
unfolding has_prefix
collection_of file =
    if has_prefix (reverse file) (reverse suffix)
    then some (reverse (drop 6 (reverse file)))
    else none
