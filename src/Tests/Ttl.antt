-- ===== src/Tests/Ttl.antt =====
-- The TTL cache and its janitor.
use tg.Base.{
  ℕ, ◌+◌, ◌≡◌, refl, List, [], ◌∷◌, Option, none, some, true, false, Text, bytes, arith,
  if◌then◌else◌, ltb, lookup, insert, ◌==◌, text_eq, nat_eq, Distinct, contains,
}
use tg.Base
use tg.Ttl
use tg.Ttl.{Item, Cache}
use tg.Ttl.Reads.{peek, fresh, peek-set_with_ttl}
use tg.Ttl.Eviction.{Background, idle, ends_get, ends_pass, lookup-evict_expired, Background-peek}
use tg.Ttl.Janitor.{
  Janitor, new_janitor, Call, registers, unregisters, run, unregister, IsValid, run-IsValid,
}

program : Unit {0}
unfolding lookup insert Base.delete Ttl.get Ttl.set Ttl.delete Ttl.evict_expired
program = tt

abbrev key : Text
key = bytes "admins:7"

abbrev other : Text
other = bytes "admins:8"

abbrev entry : Item ℕ
entry = record { value = 5; expiration = 100 }

abbrev stale : Item ℕ
stale = record { value = 6; expiration = 20 }

abbrev two_entries : Cache ℕ
two_entries = record { entries = (key, entry) ∷ (other, stale) ∷ []; ttl = 60 }

-- At its expiration an entry is still returned, and after it no more.
get_at_expiration :
    ((Ttl.get 100 100 key two_entries).1 ≡ some 5) × ((Ttl.get 101 101 key two_entries).1 ≡ none)
unfolding program
get_at_expiration = (refl, refl)

key-entry : lookup key two_entries.entries ≡ some entry
unfolding lookup
key-entry = refl

peek-set_with_ttl_example : peek 130 key (Ttl.set_with_ttl 70 key 9 60 two_entries) ≡ (
    if key == key then (if ltb (70 + 60) 130 then none else some 9) else peek 130 key two_entries)
peek-set_with_ttl_example = peek-set_with_ttl 70 130 60 key key 9 two_entries

lookup-evict_expired_example :
    lookup other (Ttl.evict_expired 50 two_entries).entries
    ≡ fresh 50 (lookup other two_entries.entries)
lookup-evict_expired_example = lookup-evict_expired 50 other two_entries

pass :
    Background 60 two_entries
      (Ttl.delete_expired 50 (key ∷ []) (Ttl.get_rest 30 40 other (some stale) two_entries).0)
pass = ends_pass 50 (key ∷ []) (omega arith) (ends_get 30 40 other (some stale) (omega arith) idle)

Background-peek_example :
    peek 60 key
      (Ttl.delete_expired 50 (key ∷ []) (Ttl.get_rest 30 40 other (some stale) two_entries).0)
    ≡ peek 60 key two_entries
Background-peek_example = Background-peek key pass

abbrev calls : List Call
calls = registers 1 ∷ registers 2 ∷ unregisters 1 ∷ unregisters 2 ∷ registers 3 ∷ []

new_janitor-IsValid : IsValid (new_janitor 60)
unfolding new_janitor
new_janitor-IsValid = record { active = refl; single = refl }

run-IsValid_example : (k : Janitor) × (run 60 calls (new_janitor 60) ≡ some k) × IsValid k
run-IsValid_example = run-IsValid 60 calls (new_janitor 60) new_janitor-IsValid

abbrev two_caches : Janitor
two_caches = record {
  caches = 1 ∷ 2 ∷ [];
  interval = 60;
  stop = 1;
  running = true;
  loops = 1 ∷ [];
  next_channel = 2;
}

abbrev one_cache : Janitor
one_cache = record two_caches { caches = 2 ∷ [] }

unregistered : unregister 1 two_caches ≡ some one_cache
unfolding unregister
unregistered = refl
