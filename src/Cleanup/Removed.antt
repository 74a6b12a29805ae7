-- ===== src/Cleanup/Removed.antt =====
-- internal/downloader/cleanup.go: what is true of every file that one sweep removes.
use tg.Base.{
  ℕ, ◌+◌, ◌≤◌, ◌≡◌, refl, ◌⊎◌, inl, inr, List, [], ◌∷◌, Option, none, some, Bool, true, false, not,
  ◌||◌, Text, text_eq, contains, All, arith, Bool-cases, Option-cases, if◌then◌else◌,
}
use mathlib.Core.List.{Mem, mem-cons_self, mem-cons_of_mem}
use tg.Cleanup.Paths.{clean, join}
use tg.Cleanup.Defs.{
  Entry, Swept, cleanup_max_age, has_allowed_ext, is_kept, sweep_file, walk, walk_dirs, is_dotfile,
  sweep_downloads,
}

-- A file was not changed for twelve hours, or the sweep is urgent.
abbrev pub IsOld : ℕ → Bool → Entry → Type 0
IsOld now urgent e =
    (urgent ≡ true) ⊎ ((t : ℕ) × (e.mod_time ≡ some t) × (t + cleanup_max_age ≤ now))

is_kept-false :
    (now : ℕ) (time : Option ℕ)
    → is_kept now false time ≡ false
    → (t : ℕ) × (time ≡ some t) × (t + cleanup_max_age ≤ now)
unfolding is_kept
is_kept-false now none h = absurd cc
is_kept-false now (some t) h = (t, refl, ground arith)

IsOld-is_kept :
    (now : ℕ) (urgent : Bool) (e : Entry)
    → is_kept now urgent e.mod_time ≡ false
    → IsOld now urgent e
IsOld-is_kept now true e h = inl refl
IsOld-is_kept now false e h = inr (is_kept-false now e.mod_time h)

module _ (in_use : List Text) (now : ℕ) (urgent : Bool) (P : Text → Type 0) where
  sweep_file-All :
      (path : Text) (e : Entry) (s : Swept)
      → All P s.removed
      → (contains in_use (clean path) ≡ false → IsOld now urgent e → P path)
      → All P (sweep_file now urgent in_use path e s).removed
  unfolding sweep_file
  sweep_file-All path e s h p = elim (Bool-cases (contains in_use (clean path))) [
    | inl u ↦ rw (u) h
    | inr u ↦ elim (Bool-cases (is_kept now urgent e.mod_time)) [
      | inl k ↦ rw (u, k) h
      | inr k ↦ elim (Option-cases e.remove_error) [
        | inl r ↦ rw (u, k, r) (p u (IsOld-is_kept now urgent e k), h)
        | inr (x, r) ↦ rw (u, k, r) h
      ]
    ]
  ]

  -- A step of a sweep, which passes over some files.
  step-All :
      (skips : Bool) (path : Text) (e : Entry) (s : Swept)
      → All P s.removed
      → (contains in_use (clean path) ≡ false → IsOld now urgent e → skips ≡ false → P path)
      → All P (if skips then s else sweep_file now urgent in_use path e s).removed
  step-All true path e s h p = h
  step-All false path e s h p = sweep_file-All path e s h (λ u o. p u o refl)

  pub walk-All :
      (exts : List Text) (es : List Entry) (s : Swept)
      → All P s.removed
      → ((e : Entry)
          → Mem e es
          → contains in_use (clean e.path) ≡ false
          → IsOld now urgent e
          → e.is_dir ≡ false
          → has_allowed_ext e.name exts ≡ true
          → P e.path)
      → All P (walk now urgent in_use exts es s).removed
  unfolding walk
  walk-All exts [] s h p = h
  walk-All exts (e ∷ es) s h p =
      walk-All exts es _
        (step-All (e.unreadable || e.is_dir || not (has_allowed_ext e.name exts)) e.path e s h
          (λ u o k. p e mem-cons_self u o (ground arith) (ground arith)))
        (λ x m. p x (mem-cons_of_mem e m))

  pub sweep_downloads-All :
      (dir : Text) (es : List Entry) (s : Swept)
      → All P s.removed
      → ((e : Entry)
          → Mem e es
          → contains in_use (clean (join dir e.name)) ≡ false
          → IsOld now urgent e
          → e.is_dir ≡ false
          → is_dotfile e.name ≡ false
          → P (join dir e.name))
      → All P (sweep_downloads now urgent in_use dir es s).removed
  unfolding sweep_downloads
  sweep_downloads-All dir [] s h p = h
  sweep_downloads-All dir (e ∷ es) s h p =
      sweep_downloads-All dir es _
        (step-All (e.is_dir || is_dotfile e.name) (join dir e.name) e s h
          (λ u o k. p e mem-cons_self u o (ground arith) (ground arith)))
        (λ x m. p x (mem-cons_of_mem e m))

  pub walk_dirs-All :
      (files : Text → List Entry) (root : Text) (dirs : List (Text × List Text)) (s : Swept)
      → All P s.removed
      → ((d : Text × List Text) (e : Entry)
          → Mem d dirs
          → Mem e (files (join root d.0))
          → contains in_use (clean e.path) ≡ false
          → IsOld now urgent e
          → e.is_dir ≡ false
          → has_allowed_ext e.name d.1 ≡ true
          → P e.path)
      → All P (walk_dirs now urgent in_use files root dirs s).removed
  unfolding walk_dirs
  walk_dirs-All files root [] s h p = h
  walk_dirs-All files root ((subdir, exts) ∷ dirs) s h p =
      walk_dirs-All files root dirs _
        (walk-All exts (files (join root subdir)) s h (λ e. p (subdir, exts) e mem-cons_self))
        (λ d e m. p d e (mem-cons_of_mem (subdir, exts) m))
