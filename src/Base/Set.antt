-- ===== src/Base/Set.antt =====
-- `AHashSet` and `HashSet`: a list in which no key stands twice. The order in which a set is
-- walked is that of the list; the standard library leaves it open.
use mathlib.Core.Path.{◌≡◌, refl, ap, sym}
use mathlib.Core.Bool.{Bool, true, false, ◌||◌, ◌&&◌, not}
use mathlib.Core.List.{List, [], ◌∷◌, ◌++◌}
use native.Mathlib.Omega.{arith}
use Prim.Native.Nat.{◌≤◌, ◌<◌, ◌+◌}
use rust_ipfs.Base.Tests.{if◌then◌else◌}
use rust_ipfs.Base.Lists.{retain, length}
use rust_ipfs.Base.Equality.{Eq, ◌==◌, ==_iff, ==_refl}

module _ {ℓ} {K : Type ℓ} ⦃e : Eq K⦄ where
  unfoldable pub contains : List K → K → Bool
  contains [] k = false
  contains (x ∷ s) k = x == k || contains s k

  unfoldable pub insert : List K → K → List K
  unfolding contains
  insert s k = if contains s k then s else k ∷ s

  unfoldable pub remove : List K → K → List K
  remove [] k = []
  remove (x ∷ s) k = if x == k then remove s k else x ∷ remove s k

  -- `Extend::extend`, and `collect` into a set from an empty one.
  unfoldable pub extend : List K → List K → List K
  unfolding insert
  extend s [] = s
  extend s (x ∷ xs) = extend (insert s x) xs

  -- `a.difference(b)`, and `&a - &b`
  unfoldable pub difference : List K → List K → List K
  unfolding contains
  difference a b = retain (λ k. not (contains b k)) a

  abbrev pub IsDistinct : List K → Type 0
  IsDistinct [] = Unit
  IsDistinct (x ∷ s) = (contains s x ≡ false) × IsDistinct s

  pub contains_same : (s : List K) (k j : K) → (k == j) ≡ true → contains s j ≡ contains s k
  contains_same s k j h = ap (contains s) (sym ((==_iff k j).0 h))

  pub contains-insert : (s : List K) (k j : K) → contains (insert s k) j ≡ (k == j || contains s j)
  unfolding contains insert
  contains-insert s k j = ground (arith, contains_same s k j)

  pub contains-remove :
      (s : List K) (k j : K) → contains (remove s k) j ≡ (not (k == j) && contains s j)
  unfolding contains remove
  contains-remove [] k j = ground arith
  contains-remove (x ∷ s) k j =
      ground (arith, contains-remove s k j, ==_iff x k, ==_iff x j, ==_iff k j)

  pub contains-extend :
      (s xs : List K) (j : K) → contains (extend s xs) j ≡ (contains s j || contains xs j)
  unfolding contains extend
  contains-extend s [] j = ground arith
  contains-extend s (x ∷ xs) j =
      ground (arith, contains-extend (insert s x) xs j, contains-insert s x j)

  pub contains-append :
      (xs ys : List K) (j : K) → contains (xs ++ ys) j ≡ (contains xs j || contains ys j)
  unfolding contains
  contains-append [] ys j = refl
  contains-append (x ∷ xs) ys j = ground (arith, contains-append xs ys j)

  -- The test is the same at equal keys, so a set filtered by it answers by both.
  pub contains-retain :
      (p : K → Bool) (s : List K) (j : K) → contains (retain p s) j ≡ (p j && contains s j)
  unfolding contains
  contains-retain p [] j = ground arith
  contains-retain p (x ∷ s) j =
      ground (arith, contains-retain p s j, ==_iff x j, λ (h : x ≡ j). ap p h)

  pub contains-difference :
      (a b : List K) (j : K) → contains (difference a b) j ≡ (not (contains b j) && contains a j)
  unfolding difference
  contains-difference a b j = contains-retain (λ k. not (contains b k)) a j

  pub insert-IsDistinct : (s : List K) (k : K) → IsDistinct s → IsDistinct (insert s k)
  unfolding insert
  insert-IsDistinct s k d = ground arith

  pub remove-IsDistinct : (s : List K) (k : K) → IsDistinct s → IsDistinct (remove s k)
  unfolding remove
  remove-IsDistinct [] k d = tt
  remove-IsDistinct (x ∷ s) k d = ground (arith, remove-IsDistinct s k d.1, contains-remove s k x)

  pub length-remove_absent :
      (s : List K) (k : K) → contains s k ≡ false → length (remove s k) ≡ length s
  unfolding contains remove
  length-remove_absent [] k h = refl
  length-remove_absent (x ∷ s) k h = ground (arith, length-remove_absent s k)

  -- In a set a removed key counts once.
  pub length-remove :
      (s : List K) (k : K)
      → IsDistinct s
      → length (remove s k) + (if contains s k then 1 else 0) ≡ length s
  unfolding contains remove
  length-remove [] k d = refl
  length-remove (x ∷ s) k d =
      ground (arith, length-remove s k d.1, length-remove_absent s k, contains_same s x k)

  pub length-insert_le : (s : List K) (k : K) → length (insert s k) ≤ length s + 1
  unfolding insert
  length-insert_le s k = ground arith

  pub length-remove_le : (s : List K) (k : K) → length (remove s k) ≤ length s
  unfolding remove
  length-remove_le [] k = omega arith
  length-remove_le (x ∷ s) k = ground (arith, length-remove_le s k)

  pub length-remove_lt : (s : List K) (k : K) → contains s k ≡ true → length (remove s k) < length s
  unfolding contains remove
  length-remove_lt [] k h = cc
  length-remove_lt (x ∷ s) k h = ground (arith, length-remove_lt s k, length-remove_le s k)

  -- A set whose members all stand in a list is no longer than the list.
  pub length-le_of_subset :
      (ks s : List K)
      → IsDistinct ks
      → ((k : K) → contains ks k ≡ true → contains s k ≡ true)
      → length ks ≤ length s
  unfolding contains
  length-le_of_subset [] s d h = omega arith
  length-le_of_subset (k ∷ ks) s d h =
      let here : contains s k ≡ true = h k (rw (==_refl k) refl) in
      let rest = length-le_of_subset ks (remove s k) d.1 (λ j m.
        ground
          (arith, contains-remove s k j, h j (ground (arith, m)), contains_same ks k j, d.0, m)) in
      omega (arith, length-remove_lt s k here, rest)

pub ruleset set_laws = (contains-insert, contains-remove, contains-extend, contains-difference)
