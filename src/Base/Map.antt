-- ===== src/Base/Map.antt =====
-- `AHashMap` and `HashMap`: an association list in which no key stands twice. The order in which
-- a map is walked is that of the list; the standard library leaves it open.
use mathlib.Core.Path.{◌≡◌, refl, ap, sym}
use mathlib.Core.Bool.{Bool, true, ◌||◌}
use mathlib.Core.List.{List, [], ◌∷◌}
use mathlib.Core.Option.{Option, none, some}
use native.Mathlib.Omega.{arith}
use rust_ipfs.Base.Tests.{if◌then◌else◌, is_some}
use Prim.Native.Nat.{ℕ, suc, ◌+◌, ◌≤◌}
use rust_ipfs.Base.Lists.{length}
use rust_ipfs.Base.Equality.{Eq, ◌==◌, ==_iff}
use rust_ipfs.Base.Set

abbrev pub Map {ℓ κ} : Type ℓ → Type κ → Type (ℓ ⊔ κ)
Map K V = List (K × V)

module _ {ℓ κ} {K : Type ℓ} {V : Type κ} where
  unfoldable pub keys : Map K V → List K
  keys [] = []
  keys ((k, v) ∷ m) = k ∷ keys m

  unfoldable pub values : Map K V → List V
  values [] = []
  values ((k, v) ∷ m) = v ∷ values m

  -- `for (_, v) in m.iter_mut()`
  unfoldable pub map_values : (V → V) → Map K V → Map K V
  map_values f [] = []
  map_values f ((k, v) ∷ m) = (k, f v) ∷ map_values f m

  pub keys-map_values : (f : V → V) (m : Map K V) → keys (map_values f m) ≡ keys m
  unfolding keys map_values
  keys-map_values f [] = refl
  keys-map_values f ((k, v) ∷ m) = ap (◌∷◌ k) (keys-map_values f m)

  -- The sum of a weight over the values.
  unfoldable pub total : (V → ℕ) → Map K V → ℕ
  total f [] = 0
  total f ((k, v) ∷ m) = f v + total f m

module _ {ℓ κ} {K : Type ℓ} {V : Type κ} ⦃e : Eq K⦄ where
  unfoldable pub get : Map K V → K → Option V
  get [] k = none
  get ((x, v) ∷ m) k = if x == k then some v else get m k

  unfoldable pub contains_key : Map K V → K → Bool
  unfolding get
  contains_key m k = is_some (get m k)

  -- Overwrites the value of a key that is there, and keeps its place.
  unfoldable pub insert : Map K V → K → V → Map K V
  insert [] k v = (k, v) ∷ []
  insert ((x, w) ∷ m) k v = if x == k then (k, v) ∷ m else (x, w) ∷ insert m k v

  unfoldable pub remove : Map K V → K → Map K V
  remove [] k = []
  remove ((x, w) ∷ m) k = if x == k then remove m k else (x, w) ∷ remove m k

  -- `entry(k).or_default()` is read by this and written back by `insert`.
  abbrev pub get_or : Map K V → K → V → V
  get_or m k d = elim (get m k) [ none ↦ d | some v ↦ v ]

  -- Removes each of the keys.
  unfoldable pub remove_all : Map K V → List K → Map K V
  unfolding remove
  remove_all m [] = m
  remove_all m (k ∷ ks) = remove_all (remove m k) ks

  abbrev pub HasKeys : Map K V → Type 0
  HasKeys m = Set.IsDistinct (keys m)

  pub get_same : (m : Map K V) (k j : K) → (k == j) ≡ true → get m j ≡ get m k
  get_same m k j h = ap (get m) (sym ((==_iff k j).0 h))

  pub get-insert :
      (m : Map K V) (k : K) (v : V) (j : K)
      → get (insert m k v) j ≡ (if k == j then some v else get m j)
  unfolding get insert
  get-insert [] k v j = refl
  get-insert ((x, w) ∷ m) k v j =
      ground (arith, get-insert m k v j, ==_iff x k, ==_iff x j, ==_iff k j)

  pub get-remove : (m : Map K V) (k j : K) → get (remove m k) j ≡ (if k == j then none else get m j)
  unfolding get remove
  get-remove [] k j = ground arith
  get-remove ((x, w) ∷ m) k j = ground (arith, get-remove m k j, ==_iff x k, ==_iff x j, ==_iff k j)

  pub remove_twice : (m : Map K V) (k : K) → remove (remove m k) k ≡ remove m k
  unfolding remove
  remove_twice [] k = refl
  remove_twice ((x, w) ∷ m) k = ground (arith, remove_twice m k)

  pub get-remove_all :
      (m : Map K V) (ks : List K) (j : K)
      → get (remove_all m ks) j ≡ (if Set.contains ks j then none else get m j)
  unfolding remove_all Set.contains
  get-remove_all m [] j = refl
  get-remove_all m (k ∷ ks) j = ground (arith, get-remove_all (remove m k) ks j, get-remove m k j)

  pub get-map_values :
      (f : V → V) (m : Map K V) (k : K)
      → get (map_values f m) k ≡ elim (get m k) [ none ↦ none | some v ↦ some (f v) ]
  unfolding map_values get
  get-map_values f [] k = refl
  get-map_values f ((x, v) ∷ m) k = ground (arith, get-map_values f m k)

  pub contains-keys : (m : Map K V) (k : K) → Set.contains (keys m) k ≡ is_some (get m k)
  unfolding keys get Set.contains
  contains-keys [] k = refl
  contains-keys ((x, w) ∷ m) k = ground (arith, contains-keys m k)

  pub keys-remove : (m : Map K V) (k : K) → keys (remove m k) ≡ Set.remove (keys m) k
  unfolding keys remove Set.remove
  keys-remove [] k = refl
  keys-remove ((x, w) ∷ m) k = ground (arith, keys-remove m k)

  pub contains-keys-insert :
      (m : Map K V) (k : K) (v : V) (j : K)
      → Set.contains (keys (insert m k v)) j ≡ (k == j || Set.contains (keys m) j)
  contains-keys-insert m k v j =
      ground (arith, contains-keys m j, contains-keys (insert m k v) j, get-insert m k v j)

  pub insert-HasKeys : (m : Map K V) (k : K) (v : V) → HasKeys m → HasKeys (insert m k v)
  unfolding insert keys Set.contains
  insert-HasKeys [] k v h = (refl, tt)
  insert-HasKeys ((x, w) ∷ m) k v h =
      ground (arith, insert-HasKeys m k v h.1, contains-keys-insert m k v x, ==_iff x k, ==_iff k x)

  pub remove-HasKeys : (m : Map K V) (k : K) → HasKeys m → HasKeys (remove m k)
  remove-HasKeys m k h = rw keys-remove (Set.remove-IsDistinct (keys m) k h)

  pub length-keys : (m : Map K V) → length (keys m) ≡ length m
  unfolding keys
  length-keys [] = refl
  length-keys ((x, w) ∷ m) = ap suc (length-keys m)

  pub length-insert_le : (m : Map K V) (k : K) (v : V) → length (insert m k v) ≤ length m + 1
  unfolding insert
  length-insert_le [] k v = omega arith
  length-insert_le ((x, w) ∷ m) k v = ground (arith, length-insert_le m k v)

  pub length-insert_new :
      (m : Map K V) (k : K) (v : V) → get m k ≡ none → length (insert m k v) ≡ length m + 1
  unfolding insert get
  length-insert_new [] k v h = omega arith
  length-insert_new ((x, w) ∷ m) k v h = ground (arith, length-insert_new m k v)

  pub total-insert :
      (f : V → ℕ) (m : Map K V) (k : K) (v : V)
      → total f (insert m k v) + (elim (get m k) [ none ↦ 0 | some w ↦ f w ]) ≡ total f m + f v
  unfolding total insert get
  total-insert f [] k v = omega arith
  total-insert f ((x, w) ∷ m) k v = ground (arith, total-insert f m k v)

  pub total-remove_absent :
      (f : V → ℕ) (m : Map K V) (k : K) → get m k ≡ none → total f (remove m k) ≡ total f m
  unfolding total remove get
  total-remove_absent f [] k h = refl
  total-remove_absent f ((x, w) ∷ m) k h = ground (arith, total-remove_absent f m k)

  pub total-remove :
      (f : V → ℕ) (m : Map K V) (k : K)
      → HasKeys m
      → total f (remove m k) + (elim (get m k) [ none ↦ 0 | some w ↦ f w ]) ≡ total f m
  unfolding total remove get keys
  total-remove f [] k h = omega arith
  total-remove f ((x, w) ∷ m) k h =
      ground (
        arith,
        total-remove f m k h.1,
        total-remove_absent f m k,
        contains-keys m x,
        get_same m x k,
      )

pub ruleset map_laws = (get-insert, get-remove, get-remove_all)
