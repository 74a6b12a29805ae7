-- ===== src/Broadcast/Bulk.antt =====
-- internal/db/broadcast.go: flags that are set on many documents at once.
use tg.Base.{
  Bool, keep_if, ℕ, zero, suc, List, [], ◌∷◌, Option, none, some, true, Text, ℤ, int_eq, Comparable,
  take, drop, length, format_int,
}
use tg.Ttl
use tg.Ttl.{Cache}
use tg.Db.Collection.{Collection}
use tg.Db.Cached.{Table}
use tg.Db.Chats.{Chat}
use tg.Db.Users.{User, Flag, with_flag}

abbrev pub bulk_mark_chunk : ℕ
bulk_mark_chunk = 5000

-- How UpdateMany fails: the error, and which of the documents it was to change it has changed by then,
-- since it is not atomic.
pub record Failure (K : Type 0) : Type 0 where
  pub error : Text
  pub updated : K → Bool

module _ {K D : Type 0} ⦃e : Comparable K⦄ (C : Collection K D) (key : K → Text) (f : D → D) where
  open C use {update}

  -- UpdateMany with $in: each document with one of the ids is updated. That an id which stands
  -- twice is updated twice here makes no difference to a flag.
  unfoldable pub update_many : List K → C.Store → C.Store
  update_many [] s = s
  update_many (k ∷ ks) s = update_many ks (update k f s)

  unfoldable pub evict_all : List K → Cache D → Cache D
  evict_all [] c = c
  evict_all (k ∷ ks) c = evict_all ks (Ttl.delete (key k) c)

  -- The loop over chunks: `n` counts the round trips, of which `fault` says how they end. The fuel
  -- is the number of ids, of which each round trip takes one at least.
  unfoldable pub bulk_from :
      ℕ → ℕ → ℕ → (ℕ → Option (Failure K)) → List K → Table C → Table C × Option Text
  unfolding update_many evict_all
  bulk_from size fuel n fault [] s = (s, none)
  bulk_from size zero n fault (id ∷ ids) s = (s, none)
  bulk_from size (suc fuel) n fault (id ∷ ids) s =
      let chunk = take size (id ∷ ids) in
      elim (fault n) [
        | some x ↦
            (record s { store = update_many (keep_if x.updated chunk) s.store }, some x.error)
        | none ↦
            bulk_from size fuel (suc n) fault (drop size (id ∷ ids))
              (record s { store = update_many chunk s.store; cache = evict_all chunk s.cache })
      ]

  unfoldable pub bulk_set_flag : (ℕ → Option (Failure K)) → List K → Table C → Table C × Option Text
  unfolding bulk_from
  bulk_set_flag fault ids s = bulk_from bulk_mark_chunk (length ids) 0 fault ids s

unfoldable pub mark_chats_invalid :
    (C : Collection ℤ Chat) → (ℕ → Option (Failure ℤ)) → List ℤ → Table C → Table C × Option Text
mark_chats_invalid C = bulk_set_flag C format_int (λ d. record d { invalid = true })

unfoldable pub mark_users :
    (C : Collection ℤ User)
    → Flag
    → (ℕ → Option (Failure ℤ))
    → List ℤ
    → Table C
    → Table C × Option Text
mark_users C flag = bulk_set_flag C format_int (with_flag flag true)
