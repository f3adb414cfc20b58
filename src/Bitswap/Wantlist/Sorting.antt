-- ===== src/Bitswap/Wantlist/Sorting.antt =====
-- `entries`: the sorted copy holds the entries of the map, highest priority first.
use mathlib.Core.List.{reverse, reverse-cons, reverse_perm, Perm}
use mathlib.Core.List.Perm
use rust_ipfs.Base.{List, [], ◌∷◌, ◌++◌, arith, All, Bool-cases, inl, inr}
use rust_ipfs.Base.Int.{◌≤ℤ◌, leb_ℤ}
use rust_ipfs.Bitswap.Wantlist.{Entry, insert_sorted, sort_by_priority}

module _ {Cid : Type 0} where
  -- Each entry comes before those of no higher priority.
  abbrev pub IsDescending : List (Entry Cid) → Type 0
  IsDescending [] = Unit
  IsDescending (e ∷ es) = All (λ f. f.priority ≤ℤ e.priority) es × IsDescending es

  abbrev IsAscending : List (Entry Cid) → Type 0
  IsAscending [] = Unit
  IsAscending (e ∷ es) = All (λ f. e.priority ≤ℤ f.priority) es × IsAscending es

  All-above :
      (e f : Entry Cid) (es : List (Entry Cid))
      → e.priority ≤ℤ f.priority
      → All (λ g. f.priority ≤ℤ g.priority) es
      → All (λ g. e.priority ≤ℤ g.priority) es
  All-above e f [] h a = tt
  All-above e f (g ∷ es) h a = (omega arith, All-above e f es h a.1)

  All-insert_sorted :
      (e f : Entry Cid) (es : List (Entry Cid))
      → e.priority ≤ℤ f.priority
      → All (λ g. e.priority ≤ℤ g.priority) es
      → All (λ g. e.priority ≤ℤ g.priority) (insert_sorted f es)
  unfolding insert_sorted
  All-insert_sorted e f [] h a = (h, tt)
  All-insert_sorted e f (g ∷ es) h a = ground (arith, All-insert_sorted e f es h a.1)

  insert_sorted-IsAscending :
      (e : Entry Cid) (es : List (Entry Cid)) → IsAscending es → IsAscending (insert_sorted e es)
  unfolding insert_sorted
  insert_sorted-IsAscending e [] a = (tt, tt)
  insert_sorted-IsAscending e (f ∷ es) a = elim (Bool-cases (leb_ℤ e.priority f.priority)) [
    | inl le ↦ rw le ((ground arith, All-above e f es (ground arith) a.0), a)
    | inr gt ↦
        rw gt (All-insert_sorted f e es (ground arith) a.0, insert_sorted-IsAscending e es a.1)
  ]

  sort_by_priority-IsAscending : (es : List (Entry Cid)) → IsAscending (sort_by_priority es)
  unfolding sort_by_priority
  sort_by_priority-IsAscending [] = tt
  sort_by_priority-IsAscending (e ∷ es) =
      insert_sorted-IsAscending e (sort_by_priority es) (sort_by_priority-IsAscending es)

  insert_sorted-perm : (e : Entry Cid) (es : List (Entry Cid)) → Perm (insert_sorted e es) (e ∷ es)
  unfolding insert_sorted
  insert_sorted-perm e [] = Perm.refl (e ∷ [])
  insert_sorted-perm e (f ∷ es) = elim (Bool-cases (leb_ℤ e.priority f.priority)) [
    | inl le ↦ rw le (Perm.refl _)
    | inr gt ↦ rw gt (Perm.trans (Perm.cons f (insert_sorted-perm e es)) (Perm.swap e f es))
  ]

  sort_by_priority-perm : (es : List (Entry Cid)) → Perm (sort_by_priority es) es
  unfolding sort_by_priority
  sort_by_priority-perm [] = Perm.refl []
  sort_by_priority-perm (e ∷ es) =
      Perm.trans (insert_sorted-perm e (sort_by_priority es))
        (Perm.cons e (sort_by_priority-perm es))

  All-append {κ} :
      (P : Entry Cid → Type κ) (xs : List (Entry Cid)) (y : Entry Cid)
      → All P xs
      → P y
      → All P (xs ++ y ∷ [])
  All-append P [] y a p = (p, tt)
  All-append P (x ∷ xs) y a p = (a.0, All-append P xs y a.1 p)

  All-reverse {κ} : (P : Entry Cid → Type κ) (xs : List (Entry Cid)) → All P xs → All P (reverse xs)
  All-reverse P [] a = tt
  All-reverse P (x ∷ xs) a =
      rw (reverse-cons x xs) (All-append P (reverse xs) x (All-reverse P xs a.1) a.0)

  IsDescending-append :
      (xs : List (Entry Cid)) (y : Entry Cid)
      → IsDescending xs
      → All (λ f. y.priority ≤ℤ f.priority) xs
      → IsDescending (xs ++ y ∷ [])
  IsDescending-append [] y d a = (tt, tt)
  IsDescending-append (x ∷ xs) y d a =
      (All-append (λ f. f.priority ≤ℤ x.priority) xs y d.0 a.0, IsDescending-append xs y d.1 a.1)

  pub reverse-IsDescending : (es : List (Entry Cid)) → IsAscending es → IsDescending (reverse es)
  reverse-IsDescending [] a = tt
  reverse-IsDescending (e ∷ es) a = rw (reverse-cons e es) (
      IsDescending-append (reverse es) e (reverse-IsDescending es a.1)
        (All-reverse (λ f. e.priority ≤ℤ f.priority) es a.0))

  -- The order in which `entries` hands a list out.
  pub reverse-sort_IsDescending :
      (es : List (Entry Cid)) → IsDescending (reverse (sort_by_priority es))
  reverse-sort_IsDescending es = reverse-IsDescending _ (sort_by_priority-IsAscending es)

  pub reverse-sort_perm : (es : List (Entry Cid)) → Perm (reverse (sort_by_priority es)) es
  reverse-sort_perm es = Perm.trans (reverse_perm (sort_by_priority es)) (sort_by_priority-perm es)
