-- ===== src/Play/Allocated.antt =====
-- internal/bot/play.go: the new tracks of handleMultipleTracks, at addresses one behind the other.
use tg.Commands.Remove.{int_lt}
use tg.Base.{
  get_elem?, ap, ◌∙◌, sym, not, keep_if, false, Bool-cases, nat_beq, inl, inr, ℕ, zero, suc, ◌+◌,
  ◌<◌, ◌≤◌, List, [], ◌∷◌, ◌++◌, some, ◌≡◌, refl, ℤ, pos, Bool, Text, int_eq, length, map, arith,
  All, nat_beq_iff,
}
use tg.Player.{Memory, write, PlayerCache, Pointer}
use tg.Db.Collection.{Collection}
use tg.Playback.Next.{GetUrlTrack, Session}
use tg.Play.Defs.{within_limit, requested, allocate, allocate_all}

abbrev pub addresses : ℕ → ℕ → List Pointer
addresses a zero = []
addresses a (suc n) = some a ∷ addresses (suc a) n

pub addresses-snoc : (a n : ℕ) → addresses a (suc n) ≡ addresses a n ++ some (a + n) ∷ []
addresses-snoc a zero = ground arith
addresses-snoc a (suc n) = ground (arith, addresses-snoc (suc a) n)

pub length-addresses : (a n : ℕ) → length (addresses a n) ≡ n
length-addresses a zero = refl
length-addresses a (suc n) = ground (arith, length-addresses (suc a) n)

pub length-map : {A B : Type 0} (f : A → B) (xs : List A) → length (map f xs) ≡ length xs
length-map f [] = refl
length-map f (x ∷ xs) = ground (arith, length-map f xs)

-- Songs that are not repeated.
abbrev pub AreOnce : List PlayerCache → Type 0
AreOnce songs = All (λ song. song.loop ≡ pos 0) songs

pub requested-AreOnce :
    (user : Text) (is_video : Bool) (ts : List GetUrlTrack)
    → AreOnce (map (requested user is_video []) ts)
requested-AreOnce user is_video [] = tt
requested-AreOnce user is_video (t ∷ ts) = (refl, requested-AreOnce user is_video ts)

module _ {C : Collection ℤ ℤ} where
  pub allocate_all-world :
      (songs : List PlayerCache) (s : Session C)
      → ((allocate_all songs s).1 ≡ addresses s.fresh (length songs))
        × ((allocate_all songs s).0.world ≡ s.world)
  unfolding allocate_all
  allocate_all-world [] s = (refl, refl)
  allocate_all-world (song ∷ songs) s =
      let rest = allocate_all-world songs (allocate song s) in ground (arith, rest)

  -- What stood in memory before stays.
  allocate_all-old :
      (songs : List PlayerCache) (s : Session C) (b : ℕ)
      → b < s.fresh
      → (allocate_all songs s).0.mem b ≡ s.mem b
  unfolding allocate_all
  allocate_all-old [] s b h = refl
  allocate_all-old (song ∷ songs) s b h =
      ground
        (arith, allocate_all-old songs (allocate song s) b (omega arith), nat_beq_iff s.fresh b)

  pub allocate_all-loop :
      (songs : List PlayerCache) (s : Session C) (b : ℕ)
      → AreOnce songs
      → s.fresh ≤ b
      → b < s.fresh + length songs
      → ((allocate_all songs s).0.mem b).loop ≡ pos 0
  unfolding allocate_all
  allocate_all-loop [] s b h le lt = absurd (omega arith)
  allocate_all-loop (song ∷ songs) s b h le lt =
      let next = allocate song s in
      elim (Bool-cases (nat_beq s.fresh b)) [
        | inl e ↦ rw (allocate_all-old songs next b (ground arith)) (rw (e) h.0)
        | inr e ↦ allocate_all-loop songs next b h.1 (ground arith) (omega arith)
      ]

  -- Each of them stands at its own address.
  pub allocate_all-mem :
      (songs : List PlayerCache) (s : Session C) (i : ℕ) (song : PlayerCache)
      → get_elem? songs i ≡ some song
      → (allocate_all songs s).0.mem (s.fresh + i) ≡ song
  unfolding allocate_all
  allocate_all-mem [] s i song h = absurd cc
  allocate_all-mem (x ∷ songs) s zero song h =
      let here : s.fresh + 0 ≡ s.fresh = omega arith in
      let same : x ≡ song = cc in
      rw (here) (
        allocate_all-old songs (allocate x s) s.fresh (omega arith)
        ∙ ground (arith, nat_beq_iff s.fresh s.fresh)
        ∙ same)
  allocate_all-mem (x ∷ songs) s (suc i) song h =
      let later : s.fresh + suc i ≡ suc s.fresh + i = omega arith in
      rw (later) (allocate_all-mem songs (allocate x s) i song h)

-- The loop count of the track at an index, where that of the first is given.
abbrev pub loop_at : ℤ → ℕ → ℤ
loop_at l zero = l
loop_at l (suc i) = pos 0

write-first :
    (mem : Memory) (first : ℕ) (song : PlayerCache) → write first song mem (first + 0) ≡ song
write-first mem first song =
    let here : first + 0 ≡ first = omega arith in
    rw (here) (ground (arith, nat_beq_iff first first))

write-later :
    (mem : Memory) (first i : ℕ) (song : PlayerCache)
    → write first song mem (first + suc i) ≡ mem (first + suc i)
write-later mem first i song =
    let other : nat_beq first (first + suc i) ≡ false = ground arith in rw (other) refl

-- The tracks that are not too long, in their order.
abbrev pub short_tracks : ℤ → List GetUrlTrack → List GetUrlTrack
short_tracks limit tracks = keep_if (λ t. not (int_lt limit t.duration)) tracks

pub within_limit-short_tracks :
    (limit : ℤ) (tracks : List GetUrlTrack) → within_limit limit tracks ≡ short_tracks limit tracks
unfolding within_limit
within_limit-short_tracks limit [] = refl
within_limit-short_tracks limit (t ∷ ts) = ground (arith, within_limit-short_tracks limit ts)

get_elem?-map :
    {A B : Type 0} (f : A → B) (xs : List A) (i : ℕ) (x : A)
    → get_elem? xs i ≡ some x
    → get_elem? (map f xs) i ≡ some (f x)
get_elem?-map f [] i x h = absurd cc
get_elem?-map f (y ∷ xs) zero x h = let same : y ≡ x = cc in ap (λ z. some (f z)) same
get_elem?-map f (y ∷ xs) (suc i) x h = get_elem?-map f xs i x h

requested-loop_at :
    (user : Text) (is_video : Bool) (t : GetUrlTrack) (i : ℕ)
    → requested user is_video [] t
      ≡ record (requested user is_video [] t) { loop = loop_at (pos 0) i }
requested-loop_at user is_video t zero = refl
requested-loop_at user is_video t (suc i) = refl

-- The tracks stand in memory one behind the other, the first with this loop count, the others with 0.
abbrev pub Holds : Memory → ℕ → Text → Bool → ℤ → List GetUrlTrack → Type 0
Holds mem first user is_video l wanted =
    (i : ℕ) (t : GetUrlTrack)
    → get_elem? wanted i ≡ some t
    → mem (first + i) ≡ record (requested user is_video [] t) { loop = loop_at l i }

module _ {C : Collection ℤ ℤ} where
  pub allocate_all-Holds :
      (user : Text) (is_video : Bool) (wanted : List GetUrlTrack) (s : Session C)
      → Holds
          (allocate_all (map (requested user is_video []) wanted) s).0.mem
          s.fresh
          user
          is_video
          (pos 0)
          wanted
  allocate_all-Holds user is_video wanted s i t h =
      allocate_all-mem (map (requested user is_video []) wanted) s i (requested user is_video [] t)
        (get_elem?-map (requested user is_video []) wanted i t h)
      ∙ requested-loop_at user is_video t i

pub write-Holds :
    (mem : Memory) (first : ℕ) (user : Text) (is_video : Bool) (old l : ℤ)
    (wanted : List GetUrlTrack)
    → Holds mem first user is_video old wanted
    → Holds (write first (record (mem first) { loop = l }) mem) first user is_video l wanted
write-Holds mem first user is_video old l wanted h zero t g =
    let here : first + 0 ≡ first = omega arith in
    let loops : PlayerCache → PlayerCache = λ song. record song { loop = l } in
    write-first mem first (loops (mem first))
    ∙ ap (λ k. loops (mem k)) (sym here)
    ∙ ap loops (h zero t g)
write-Holds mem first user is_video old l wanted h (suc i) t g =
    write-later mem first i (record (mem first) { loop = l }) ∙ h (suc i) t g
