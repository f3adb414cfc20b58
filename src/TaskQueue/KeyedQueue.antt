-- ===== src/TaskQueue/KeyedQueue.antt =====
-- The crate `keyed_priority_queue`, which is not part of the repository: what the program relies on,
-- as operations with laws about the entries of a queue.
use rust_ipfs.Base.{◌+◌, ◌≡◌, Option, none, some, [], if◌then◌else◌, length, Eq, nat_eq, ◌==◌}
use rust_ipfs.Base.Map
use rust_ipfs.Base.Map.{Map}

pub record KeyedQueue (K P : Type 0) ⦃e : Eq K⦄ : Type 1 where
  pub Queue : Type 0
  pub new : Queue
  -- `iter`, each key once.
  pub entries : Queue → Map K P
  pub push : Queue → K → P → Queue
  pub remove : Queue → K → Queue
  pub pop : Queue → Option (K × P × Queue)
  pub entries-new : entries new ≡ []
  pub entries-HasKeys : (q : Queue) → Map.HasKeys (entries q)
  pub get-push :
      (q : Queue) (k : K) (v : P) (j : K)
      → Map.get (entries (push q k v)) j ≡ (if k == j then some v else Map.get (entries q) j)
  pub get-remove :
      (q : Queue) (k j : K)
      → Map.get (entries (remove q k)) j ≡ (if k == j then none else Map.get (entries q) j)
  pub pop_none : (q : Queue) → pop q ≡ none → entries q ≡ []
  pub pop_some :
      (q : Queue) (k : K) (v : P) (rest : Queue)
      → pop q ≡ some (k, v, rest)
      → (Map.get (entries q) k ≡ some v)
        × (length (entries q) ≡ length (entries rest) + 1)
        × ((j : K) → Map.get (entries rest) j ≡ (if k == j then none else Map.get (entries q) j))
