-- ===== src/Cleanup/Paths.antt =====
-- What internal/downloader/cleanup.go uses of Go's path/filepath, for Unix paths.
use tg.Base.{
  ℕ, List, [], ◌∷◌, ◌++◌, Bool, false, not, ◌||◌, ◌&&◌, Text, bytes, nat_beq, text_eq, ◌==◌,
  if◌then◌else◌, is_blank,
}
use mathlib.Core.List.{reverse}
use tg.Commands.Numbers.{split}

abbrev slash : ℕ
slash = b'/'

-- filepath.Ext of a name, which is given backwards: what stands behind its last dot, with the dot.
unfoldable pub ext_of : Text → Text → Text
ext_of [] seen = []
ext_of (c ∷ s) seen =
    let rest = ext_of s (c ∷ seen) in
    if nat_beq c slash then [] else if nat_beq c b'.' then c ∷ seen else rest

abbrev pub ext : Text → Text
ext name = ext_of (reverse name) []

abbrev parent : Text
parent = bytes ".."

-- The elements of a path that are kept, the last one first; `rooted` says that it begins at the root.
unfoldable pub push : Bool → Text → List Text → List Text
push rooted part [] =
    if is_blank part || part == bytes "." || (rooted && part == parent) then [] else part ∷ []
push rooted part (top ∷ kept) =
    if is_blank part || part == bytes "."
    then top ∷ kept
    else if part == parent && not (top == parent)
    then kept
    else part ∷ top ∷ kept

unfoldable pub push_all : Bool → List Text → List Text → List Text
unfolding push
push_all rooted [] kept = kept
push_all rooted (part ∷ parts) kept = push_all rooted parts (push rooted part kept)

unfoldable pub joined : List Text → Text
joined [] = []
joined (part ∷ []) = part
joined (part ∷ other ∷ parts) = part ++ slash ∷ joined (other ∷ parts)

abbrev is_rooted : Text → Bool
is_rooted [] = false
is_rooted (c ∷ s) = nat_beq c slash

-- filepath.Clean
unfoldable pub clean : Text → Text
unfolding push_all joined
clean path =
    let kept = joined (reverse (push_all (is_rooted path) (split slash path) [])) in
    if is_rooted path then slash ∷ kept else if is_blank kept then bytes "." else kept

-- filepath.Join of two elements.
unfoldable pub join : Text → Text → Text
unfolding clean
join dir name =
    if is_blank dir then (if is_blank name then [] else clean name) else clean (dir ++ slash ∷ name)
