-- ===== src/Bitswap/Wantlist/Merging.antt =====
-- What `add`, `extend` and `remove_type` do to the wants, as a merge that never weakens a want.
use rust_ipfs.Base.{
  ℕ, ◌≤◌, ◌&&◌, ◌||◌, ◌≡◌, refl, ap, Option, none, some, [], ◌∷◌, arith, if◌then◌else◌, ltb, Eq,
  ◌==◌, ==_iff, ==_refl, is_some,
}
use rust_ipfs.Base.Int.{ℤ, pos}
use rust_ipfs.Base.Map
use rust_ipfs.Base.Map.{Map}
use rust_ipfs.Bitswap.Wantlist.{
  WantType, is_block, Entry, Wantlist, entry, get, add, remove_type, extend, merge_entry,
  merge_entries,
}
use rust_ipfs.Bitswap.Wantlist.Invariant.{IsKeyed}

module _ {Cid : Type 0} ⦃e : Eq Cid⦄ where
  -- How strong a want is: absent, want-have, want-block.
  abbrev pub rank : Option (Entry Cid) → ℕ
  rank none = 0
  rank (some w) = if is_block w.want_type then 2 else 1

  -- Of an old and a new want the stronger one; the old one where they are equally strong.
  abbrev pub stronger : Option (Entry Cid) → Entry Cid → Option (Entry Cid)
  stronger none new = some new
  stronger (some old) new =
      if is_block old.want_type
      then some old
      else if is_block new.want_type
      then some new
      else some old

  -- Adds the entries one by one through the public `add`.
  pub add_all : Wantlist Cid → Map Cid (Entry Cid) → Wantlist Cid
  add_all w [] = w
  add_all w ((c, n) ∷ o) = add_all (add w n.cid n.priority n.want_type).0 o

  -- After `add` the content id holds the stronger of the old and the new want, the old one where
  -- they are equally strong, and every other content id is as it was; `add` answers true exactly
  -- where the want got stronger.
  pub get-add :
      (w : Wantlist Cid) (c : Cid) (p : ℤ) (t : WantType) (j : Cid)
      → (get (add w c p t).0 j ≡ (if c == j then stronger (get w c) (entry c p t) else get w j))
        × ((add w c p t).1 ≡ ltb (rank (get w c)) (rank (get (add w c p t).0 c)))
  unfolding get add entry
  get-add w c p t j = ground (
    arith,
    Map.get-insert w.set c (entry c p t) j,
    Map.get-insert w.set c (entry c p t) c,
    ==_refl c,
    ==_iff c j,
    λ (h : c ≡ j). ap (Map.get w.set) h,
  )

  merge_entry-eq-add :
      (w : Wantlist Cid) (n : Entry Cid)
      → merge_entry w.set n.cid n ≡ (add w n.cid n.priority n.want_type).0.set
  unfolding merge_entry add entry
  merge_entry-eq-add w n = ground arith

  merge_entries-eq-add_all :
      (w : Wantlist Cid) (o : Map Cid (Entry Cid))
      → IsKeyed o
      → merge_entries w.set o ≡ (add_all w o).set
  unfolding merge_entries add_all
  merge_entries-eq-add_all w [] k = refl
  merge_entries-eq-add_all w ((c, n) ∷ o) k =
      rw (← k.0, merge_entry-eq-add w n)
        (merge_entries-eq-add_all (add w n.cid n.priority n.want_type).0 o k.1)

  -- `extend` with a list whose entries stand under their own content ids has the effect on the
  -- wants of adding these entries one by one with `add`.
  pub extend-eq-add_all :
      (w o : Wantlist Cid)
      → IsKeyed o.set
      → (j : Cid) → get (extend w o) j ≡ get (add_all w o.set) j
  unfolding get extend
  extend-eq-add_all w o k j = rw (merge_entries-eq-add_all w o.set k)

  rank-merge_entry-le :
      (m : Map Cid (Entry Cid)) (c : Cid) (n : Entry Cid) (j : Cid)
      → rank (Map.get m j) ≤ rank (Map.get (merge_entry m c n) j)
  unfolding merge_entry
  rank-merge_entry-le m c n j =
      ground (arith, Map.get-insert m c n j, ==_iff c j, λ (h : c ≡ j). ap (Map.get m) h)

  rank-merge_entries-le :
      (m o : Map Cid (Entry Cid)) (j : Cid)
      → rank (Map.get m j) ≤ rank (Map.get (merge_entries m o) j)
  unfolding merge_entries
  rank-merge_entries-le m [] j = omega arith
  rank-merge_entries-le m ((c, n) ∷ o) j =
      omega (arith, rank-merge_entry-le m c n j, rank-merge_entries-le (merge_entry m c n) o j)

  -- Merging a second list into one weakens no want of it.
  pub rank-extend-le : (w o : Wantlist Cid) (j : Cid) → rank (get w j) ≤ rank (get (extend w o) j)
  unfolding get extend
  rank-extend-le w o j = rank-merge_entries-le w.set o.set j

  -- `remove_type` drops the entry unless it is a want-block and the cancel is for a want-have,
  -- returns what it dropped, and leaves every other content id as it was.
  pub get-remove_type :
      (w : Wantlist Cid) (c : Cid) (t : WantType) (j : Cid)
      → let gone =
          if ltb (rank (some (entry c (pos 0) t))) (rank (get w c)) then none else get w c in
        ((remove_type w c t).1 ≡ gone)
        × (get (remove_type w c t).0 j ≡ (if (c == j) && is_some gone then none else get w j))
  unfolding get remove_type entry
  get-remove_type w c t j = ground (arith, Map.get-remove w.set c j)

  get-merge_entries :
      (m o : Map Cid (Entry Cid)) (j : Cid)
      → is_some (Map.get (merge_entries m o) j) ≡ (is_some (Map.get m j) || is_some (Map.get o j))
  unfolding merge_entries merge_entry Map.get
  get-merge_entries m [] j = ground arith
  get-merge_entries m ((c, n) ∷ o) j =
      ground (
        arith,
        get-merge_entries (merge_entry m c n) o j,
        Map.get-insert m c n j,
        Map.get_same m c j,
      )

  -- What is wanted after a merge is what one of the two lists wants.
  pub get-extend :
      (w o : Wantlist Cid) (j : Cid)
      → is_some (get (extend w o) j) ≡ (is_some (get w j) || is_some (get o j))
  unfolding get extend
  get-extend w o j = get-merge_entries w.set o.set j
