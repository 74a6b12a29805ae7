-- ===== src/Ttl/Janitor.antt =====
-- internal/cache/cache.go: the janitor, one goroutine that cleans all the registered caches.
-- A cache and a channel are known by their addresses, which are numbers here.
use tg.Base.{
  ℕ, ◌+◌, ◌≡◌, refl, List, [], ◌∷◌, ◌++◌, Option, none, some, Bool, true, false, not, ◌&&◌,
  if◌then◌else◌, ◌==◌, arith, contains, is_empty, nat_eq, Distinct,
}
use tg.Ttl.Defs.{Cache, evict_expired}

-- `loops` holds the stop channels that runWith goroutines were started on and that are not closed;
-- `next_channel` is the address of the next channel.
pub record Janitor : Type 0 where
  pub caches : List ℕ
  pub interval : ℕ
  pub stop : ℕ
  pub running : Bool
  pub loops : List ℕ
  pub next_channel : ℕ

unfoldable pub new_janitor : ℕ → Janitor
new_janitor interval = record {
  caches = [];
  interval = interval;
  stop = 0;
  running = false;
  loops = [];
  next_channel = 1;
}

-- `append(l[:i], l[i+1:]...)` at the first index where the value stands.
remove_first : ℕ → List ℕ → List ℕ
remove_first v [] = []
remove_first v (x ∷ xs) = if x == v then xs else x ∷ remove_first v xs

unfoldable pub register : ℕ → ℕ → Janitor → Janitor
register interval c j =
    let listed = record j { caches = j.caches ++ c ∷ [] } in
    if j.running then listed else record listed {
      interval = interval;
      stop = j.next_channel;
      running = true;
      loops = j.next_channel ∷ j.loops;
      next_channel = j.next_channel + 1;
    }

-- `close(ch)`; closing a channel that is closed already is a panic.
close : ℕ → Janitor → Option Janitor
unfolding remove_first
close ch j =
    if contains j.loops ch then some (record j { loops = remove_first ch j.loops }) else none

unfoldable pub unregister : ℕ → Janitor → Option Janitor
unfolding close remove_first
unregister c j =
    let j' = record j { caches = remove_first c j.caches } in
    if is_empty j'.caches && j'.running
    then elim (close j'.stop j') [ none ↦ none | some k ↦ some (record k { running = false }) ]
    else some j'

unfoldable pub has : ℕ → Janitor → Bool
has c j = contains j.caches c

-- One round of the loop of runWith that the ticker starts, over the caches in memory.
sweep {ℓ} : {A : Type ℓ} → ℕ → List ℕ → (ℕ → Cache A) → ℕ → Cache A
sweep now [] heap = heap
sweep now (c ∷ cs) heap = sweep now cs (λ a. if a == c then evict_expired now (heap a) else heap a)

unfoldable pub tick {ℓ} : {A : Type ℓ} → ℕ → Janitor → (ℕ → Cache A) → ℕ → Cache A
unfolding sweep
tick now j heap = if is_empty j.caches then heap else sweep now j.caches heap

pub data Call : Type 0 where
  registers unregisters : ℕ → Call

-- A history of calls; `none` is a panic.
unfoldable pub run : ℕ → List Call → Janitor → Option Janitor
unfolding register unregister
run interval [] j = some j
run interval (registers c ∷ calls) j = run interval calls (register interval c j)
run interval (unregisters c ∷ calls) j = elim (unregister c j) [
  | none ↦ none
  | some k ↦ run interval calls k
]

-- One goroutine runs while a cache is registered, on the channel in `stop`, and none otherwise.
pub record IsValid (j : Janitor) : Type 0 where
  pub active : j.running ≡ not (is_empty j.caches)
  pub single : j.loops ≡ (if j.running then j.stop ∷ [] else [])

is_empty-snoc : (xs : List ℕ) (x : ℕ) → is_empty (xs ++ x ∷ []) ≡ false
is_empty-snoc [] x = refl
is_empty-snoc (y ∷ ys) x = refl

register-IsValid : (interval c : ℕ) (j : Janitor) → IsValid j → IsValid (register interval c j)
unfolding register
register-IsValid interval c j v = ground (arith, is_empty-snoc j.caches c)

is_empty-remove_first :
    (c : ℕ) (xs : List ℕ) → is_empty xs ≡ true → is_empty (remove_first c xs) ≡ true
unfolding remove_first
is_empty-remove_first c [] h = refl
is_empty-remove_first c (x ∷ xs) h = cc

-- The state after unregister, when nothing panics.
unregistered : ℕ → Janitor → Janitor
unregistered c j =
    let rest = remove_first c j.caches in
    let stops = is_empty rest && j.running in
    record j {
      caches = rest;
      running = if stops then false else j.running;
      loops = if stops then [] else j.loops;
    }

remove_first_self : (v : ℕ) → remove_first v (v ∷ []) ≡ []
unfolding remove_first
remove_first_self v = ground arith

unregister-eq_unregistered :
    (c : ℕ) (j : Janitor) → IsValid j → unregister c j ≡ some (unregistered c j)
unfolding unregister unregistered
unregister-eq_unregistered c j v = ground (arith, remove_first_self j.stop)

unregistered-IsValid : (c : ℕ) (j : Janitor) → IsValid j → IsValid (unregistered c j)
unfolding unregistered
unregistered-IsValid c j v = ground (arith, is_empty-remove_first c j.caches)

unregister-IsValid :
    (c : ℕ) (j : Janitor) → IsValid j → (k : Janitor) × (unregister c j ≡ some k) × IsValid k
unregister-IsValid c j v =
    (unregistered c j, unregister-eq_unregistered c j v, unregistered-IsValid c j v)

-- From a janitor with one goroutine if a cache is registered and none otherwise, whatever caches
-- are registered and unregistered, in whatever order, no stop channel is closed twice, and in the
-- end again exactly one goroutine runs if a cache is registered, and none otherwise.
pub run-IsValid :
    (interval : ℕ) (calls : List Call) (j : Janitor)
    → IsValid j
    → (k : Janitor) × (run interval calls j ≡ some k) × IsValid k
unfolding run
run-IsValid interval [] j v = (j, refl, v)
run-IsValid interval (registers c ∷ calls) j v =
    run-IsValid interval calls (register interval c j) (register-IsValid interval c j v)
run-IsValid interval (unregisters c ∷ calls) j v =
    let (k, e, w) = unregister-IsValid c j v in rw (e, run) (run-IsValid interval calls k w)

contains-remove_first :
    (c d : ℕ) (xs : List ℕ)
    → Distinct xs
    → contains (remove_first c xs) d ≡ (if c == d then false else contains xs d)
unfolding remove_first
contains-remove_first c d [] u = ground arith
contains-remove_first c d (x ∷ xs) u = ground (arith, contains-remove_first c d xs u.1)

-- A cache that is unregistered is not cleaned any more, where no cache was registered twice and
-- the channel was not closed before, and the others still are.
pub has-unregister :
    (c d : ℕ) (j k : Janitor)
    → Distinct j.caches
    → unregister c j ≡ some k
    → has d k ≡ (if c == d then false else has d j)
unfolding unregister has
has-unregister c d j k u e = ground (arith, contains-remove_first c d j.caches u)

lookup_sweep {ℓ} :
    {A : Type ℓ} (now : ℕ) (cs : List ℕ) (heap : ℕ → Cache A) (a : ℕ)
    → Distinct cs
    → sweep now cs heap a ≡ (if contains cs a then evict_expired now (heap a) else heap a)
unfolding sweep
lookup_sweep now [] heap a u = refl
lookup_sweep now (c ∷ cs) heap a u =
    ground (
      arith,
      lookup_sweep now cs (λ b. if b == c then evict_expired now (heap b) else heap b) a u.1,
    )

-- A round of the janitor evicts from every registered cache, and touches no other, where none is
-- registered twice.
pub tick-has {ℓ} :
    {A : Type ℓ} (now : ℕ) (j : Janitor) (heap : ℕ → Cache A) (a : ℕ)
    → Distinct j.caches
    → tick now j heap a ≡ (if has a j then evict_expired now (heap a) else heap a)
unfolding tick has
tick-has now j heap a u = ground (arith, lookup_sweep now j.caches heap a u)
