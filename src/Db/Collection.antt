-- ===== src/Db/Collection.antt =====
-- What internal/db uses of a MongoDB collection. The driver and the server are not part of the
-- repository: a collection is a parameter, with the documented meaning of the calls as its laws.
-- A document is what the code decodes it into. A call that fails has not changed the collection.
use tg.Base.{Option, none, some, ◌≡◌, ◌==◌, Comparable, if◌then◌else◌}
use mathlib.Core.Option

pub record Collection (K D : Type 0) ⦃e : Comparable K⦄ : Type 1 where
  pub Store : Type 0
  -- FindOne by _id; `none` is ErrNoDocuments.
  pub find_one : K → Store → Option D
  -- UpdateOne by _id with upsert: the update is made to the document, or to a new one.
  pub upsert : K → (D → D) → D → Store → Store
  -- UpdateOne by _id without upsert.
  pub update : K → (D → D) → Store → Store
  -- DeleteOne by _id, DeleteMany of all.
  pub remove : K → Store → Store
  pub remove_all : Store → Store
  pub find_one-upsert :
      (k j : K) (f : D → D) (new : D) (s : Store)
      → find_one j (upsert k f new s)
        ≡ (if k == j then some (f (Option.get_or (find_one j s) new)) else find_one j s)
  pub find_one-update :
      (k j : K) (f : D → D) (s : Store)
      → find_one j (update k f s) ≡ (if k == j then Option.map f (find_one j s) else find_one j s)
  pub find_one-remove :
      (k j : K) (s : Store) → find_one j (remove k s) ≡ (if k == j then none else find_one j s)
  pub find_one-remove_all : (j : K) (s : Store) → find_one j (remove_all s) ≡ none
