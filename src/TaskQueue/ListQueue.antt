-- ===== src/TaskQueue/ListQueue.antt =====
-- A queue as a map that hands out its first entry, which shows that the laws of `KeyedQueue` can hold.
use rust_ipfs.Base.{
  ◌+◌, ◌≡◌, refl, Option, none, some, [], ◌∷◌, arith, if◌then◌else◌, length, Eq, nat_eq, list_eq,
  ◌==◌, ==_refl,
}
use rust_ipfs.Base.Map
use rust_ipfs.Base.Map.{Map}
use rust_ipfs.TaskQueue.KeyedQueue.{KeyedQueue}

abbrev pub Entries : (K P : Type 0) ⦃e : Eq K⦄ → Type 0
Entries K P = (m : Map K P) × Map.HasKeys m

module _ {K P : Type 0} ⦃e : Eq K⦄ where
  unfoldable pub pop_first : Entries K P → Option (K × P × Entries K P)
  unfolding Map.keys
  pop_first ([], h) = none
  pop_first ((k, v) ∷ m, h) = some (k, v, (m, h.1))

  pub pop_first-none : (q : Entries K P) → pop_first q ≡ none → q.0 ≡ []
  unfolding pop_first
  pop_first-none ([], h) n = refl
  pop_first-none ((k, v) ∷ m, h) n = absurd cc

  pub pop_first-some :
      (q : Entries K P) (k : K) (v : P) (rest : Entries K P)
      → pop_first q ≡ some (k, v, rest)
      → (Map.get q.0 k ≡ some v)
        × (length q.0 ≡ length rest.0 + 1)
        × ((j : K) → Map.get rest.0 j ≡ (if k == j then none else Map.get q.0 j))
  unfolding pop_first Map.get Map.keys
  pop_first-some ([], h) k v rest n = absurd cc
  pop_first-some ((x, w) ∷ m, h) k v rest n =
      let first : x ≡ k = cc in
      let val : w ≡ v = cc in
      let more : m ≡ rest.0 = cc in
      (
        ground (arith, first, val, ==_refl k),
        ground (arith, more),
        λ j. ground (arith, first, more, Map.contains-keys m x, Map.get_same m x j, h.0),
      )

unfoldable pub queue : {K P : Type 0} ⦃e : Eq K⦄ → KeyedQueue K P
unfolding Map.keys
queue {K} {P} = record {
  Queue = Entries K P;
  new = ([], tt);
  entries = λ q. q.0;
  push = λ q k v. (Map.insert q.0 k v, Map.insert-HasKeys q.0 k v q.1);
  remove = λ q k. (Map.remove q.0 k, Map.remove-HasKeys q.0 k q.1);
  pop = pop_first;
  entries-new = refl;
  entries-HasKeys = λ q. q.1;
  get-push = λ q k v j. Map.get-insert q.0 k v j;
  get-remove = λ q k j. Map.get-remove q.0 k j;
  pop_none = pop_first-none;
  pop_some = pop_first-some;
}
