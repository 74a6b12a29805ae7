-- ===== src/Cleanup/Complete.antt =====
-- internal/downloader/cleanup.go: a sweep of the downloads directory passes over no file that it
-- can remove.
use tg.Base.{
  refl, ℕ, zero, suc, ◌≡◌, sym, subst, ap, ◌∙◌, List, [], ◌∷◌, none, some, Bool, true, false, ◌||◌,
  Text, text_eq, ==_refl, ◌==◌, ℤ, is_blank, Bool-cases, inl, inr, contains, contains-append,
  Result, ok, err, arith, get_elem?, if◌then◌else◌,
}
use tg.Player.{Memory, Pointer, ChatCacher, get_active_chats, get_queue}
use tg.Cleanup.Removed.{IsOld}
use tg.Cleanup.Kept.{IsQueued, IsUnused}
use tg.Cleanup.Paths.{clean, join}
use tg.Cleanup.Defs.{
  Entry, Swept, Disk, file_paths, paths_of_chats, active_file_paths, is_kept, sweep_file,
  is_dotfile, sweep_downloads, cleanup_downloads, run_cleanup,
}

-- The sweep may remove this file, and the system lets it.
abbrev pub CanGo : ℕ → Bool → List Text → Text → Entry → Type 0
CanGo now urgent in_use path e =
    (contains in_use (clean path) ≡ false)
    × (is_kept now urgent e.mod_time ≡ false)
    × (e.remove_error ≡ none)

module _ (now : ℕ) (urgent : Bool) (in_use : List Text) where
  sweep_file-CanGo :
      (path : Text) (e : Entry) (s : Swept)
      → CanGo now urgent in_use path e
      → contains (sweep_file now urgent in_use path e s).removed path ≡ true
  unfolding sweep_file
  sweep_file-CanGo path e s (u, k, r) = rw (u, k, r) (ground (arith, ==_refl path))

  step-contains :
      (skips : Bool) (path x : Text) (e : Entry) (s : Swept)
      → contains s.removed x ≡ true
      → contains (if skips then s else sweep_file now urgent in_use path e s).removed x ≡ true
  unfolding sweep_file
  step-contains skips path x e s h = ground arith

  sweep_downloads-contains :
      (dir x : Text) (es : List Entry) (s : Swept)
      → contains s.removed x ≡ true
      → contains (sweep_downloads now urgent in_use dir es s).removed x ≡ true
  unfolding sweep_downloads
  sweep_downloads-contains dir x [] s h = h
  sweep_downloads-contains dir x (e ∷ es) s h =
      sweep_downloads-contains dir x es _
        (step-contains (e.is_dir || is_dotfile e.name) (join dir e.name) x e s h)

  sweep_downloads-first :
      (dir : Text) (es : List Entry) (e : Entry) (s : Swept)
      → (e.is_dir || is_dotfile e.name) ≡ false
      → CanGo now urgent in_use (join dir e.name) e
      → contains (sweep_downloads now urgent in_use dir (e ∷ es) s).removed (join dir e.name) ≡ true
  unfolding sweep_downloads
  sweep_downloads-first dir es e s b k =
      rw (sweep_downloads, b)
        (sweep_downloads-contains dir (join dir e.name) es _
          (sweep_file-CanGo (join dir e.name) e s k))

  sweep_downloads-CanGo :
      (dir : Text) (es : List Entry) (i : ℕ) (e : Entry) (s : Swept)
      → get_elem? es i ≡ some e
      → (e.is_dir || is_dotfile e.name) ≡ false
      → CanGo now urgent in_use (join dir e.name) e
      → contains (sweep_downloads now urgent in_use dir es s).removed (join dir e.name) ≡ true
  unfolding sweep_downloads
  sweep_downloads-CanGo dir [] i e s h b k = absurd cc
  sweep_downloads-CanGo dir (x ∷ es) zero e s h b k =
      subst
        (λ y.
          contains (sweep_downloads now urgent in_use dir (y ∷ es) s).removed (join dir e.name)
          ≡ true)
        (sym (let same : x ≡ e = cc in same)) (sweep_downloads-first dir es e s b k)
  sweep_downloads-CanGo dir (x ∷ es) (suc i) e s h b k = sweep_downloads-CanGo dir es i e _ h b k

cleanup_downloads-CanGo :
    (now : ℕ) (urgent : Bool) (in_use : List Text) (dir : Text) (listing : Result Text (List Entry))
    (es : List Entry) (i : ℕ) (e : Entry) (s : Swept)
    → listing ≡ ok es
    → get_elem? es i ≡ some e
    → (e.is_dir || is_dotfile e.name) ≡ false
    → CanGo now urgent in_use (join dir e.name) e
    → contains (cleanup_downloads now urgent in_use dir listing s).removed (join dir e.name) ≡ true
unfolding cleanup_downloads
cleanup_downloads-CanGo now urgent in_use dir (err x) es i e s r h b k = absurd cc
cleanup_downloads-CanGo now urgent in_use dir (ok xs) es i e s r h b k =
    let same : xs ≡ es = cc in
    sweep_downloads-CanGo now urgent in_use dir xs i e s (ap (λ ys. get_elem? ys i) same ∙ h) b k

-- A list of paths has only those of queued tracks.
file_paths-IsQueued :
    (mem : Memory) (ps : List Pointer) (path : Text)
    → contains (file_paths mem ps) path ≡ true
    → (i : ℕ) × (a : ℕ) × (get_elem? ps i ≡ some (some a))
      × (is_blank (mem a).file_path ≡ false)
      × ((clean (mem a).file_path == path) ≡ true)
unfolding file_paths
file_paths-IsQueued mem [] path = λ h. absurd cc
file_paths-IsQueued mem (none ∷ ps) path =
    λ h. let (i, a, g, b, q) = file_paths-IsQueued mem ps path h in (suc i, a, g, b, q)
file_paths-IsQueued mem (some x ∷ ps) path = elim (Bool-cases (is_blank (mem x).file_path)) [
  | inl b ↦
      rw (b, file_paths)
        (λ h. let (i, a, g, c, q) = file_paths-IsQueued mem ps path h in (suc i, a, g, c, q))
  | inr b ↦ elim (Bool-cases (clean (mem x).file_path == path)) [
    | inl e ↦ λ h. (0, x, refl, b, e)
    | inr e ↦
        rw (b, e, file_paths)
          (λ h. let (i, a, g, c, q) = file_paths-IsQueued mem ps path h in (suc i, a, g, c, q))
  ]
]

paths_of_chats-IsQueued :
    (mem : Memory) (c : ChatCacher) (chats : List ℤ) (path : Text)
    → contains (paths_of_chats mem c chats) path ≡ true
    → (a : ℕ) × IsQueued c a
      × (is_blank (mem a).file_path ≡ false)
      × ((clean (mem a).file_path == path) ≡ true)
unfolding paths_of_chats
paths_of_chats-IsQueued mem c [] path h = absurd cc
paths_of_chats-IsQueued mem c (chat ∷ chats) path h =
    elim (Bool-cases (contains (file_paths mem (get_queue chat c)) path)) [
      | inl e ↦
          let (i, a, g, b, q) = file_paths-IsQueued mem (get_queue chat c) path e in
          (a, (chat, i, g), b, q)
      | inr e ↦ paths_of_chats-IsQueued mem c chats path (
          ground (
            arith,
            contains-append (file_paths mem (get_queue chat c)) (paths_of_chats mem c chats) path,
          ))
    ]

active_file_paths-IsUnused :
    (mem : Memory) (c : ChatCacher) (path : Text)
    → IsUnused mem c path
    → contains (active_file_paths mem c) (clean path) ≡ false
unfolding active_file_paths
active_file_paths-IsUnused mem c path u =
    elim (Bool-cases (contains (active_file_paths mem c) (clean path))) [
      | inr e ↦ e
      | inl e ↦
          let (a, q, b, k) = paths_of_chats-IsQueued mem c (get_active_chats c) (clean path) e in
          absurd (let n = u a q b in cc)
    ]

is_kept-IsOld :
    (now : ℕ) (urgent : Bool) (e : Entry)
    → IsOld now urgent e
    → is_kept now urgent e.mod_time ≡ false
unfolding is_kept
is_kept-IsOld now true e h = refl
is_kept-IsOld now false e (inl u) = absurd cc
is_kept-IsOld now false e (inr (t, m, le)) = rw (m) (ground arith)

-- A sweep passes over nothing in a downloads directory that can be listed: a file there that is
-- no directory, has no dot in front, has not the path of a queued track, is old enough or met by
-- an urgent sweep, and that the system lets go, is removed, whatever stands before and behind it.
pub run_cleanup-removed :
    (mem : Memory) (c : ChatCacher) (d : Disk) (urgent : Bool) (es : List Entry) (i : ℕ) (e : Entry)
    → d.downloads ≡ ok es
    → get_elem? es i ≡ some e
    → (e.is_dir || is_dotfile e.name) ≡ false
    → IsUnused mem c (join d.downloads_dir e.name)
    → IsOld d.downloads_now urgent e
    → e.remove_error ≡ none
    → contains (run_cleanup mem c d urgent).removed (join d.downloads_dir e.name) ≡ true
unfolding run_cleanup
run_cleanup-removed mem c d urgent es i e h g b u o r =
    cleanup_downloads-CanGo d.downloads_now urgent (active_file_paths mem c) d.downloads_dir
      d.downloads es i e _ h g b
      (
        active_file_paths-IsUnused mem c (join d.downloads_dir e.name) u,
        is_kept-IsOld d.downloads_now urgent e o,
        r,
      )
