-- ===== src/Bitswap/Wantlist/Invariant.antt =====
-- The state that every operation of `Wantlist` keeps, and what `entries` returns in it.
use mathlib.Core.List.{reverse, Perm}
use rust_ipfs.Base.{◌≡◌, refl, sym, ap, ◌∙◌, ◌⊎◌, inl, List, [], ◌∷◌, arith, All, Eq}
use rust_ipfs.Base.Int.{ℤ}
use rust_ipfs.Base.Map
use rust_ipfs.Base.Map.{Map}
use rust_ipfs.Bitswap.Wantlist.{
  WantType, Entry, Wantlist, entry, empty, clear, entries, add, remove, remove_type, extend,
  merge_entry, merge_entries, sort_by_priority,
}
use rust_ipfs.Bitswap.Wantlist.Sorting.{IsDescending, reverse-sort_IsDescending, reverse-sort_perm}

-- Each entry stands under its own content id.
abbrev pub IsKeyed : {Cid : Type 0} → Map Cid (Entry Cid) → Type 0
IsKeyed m = All (λ kv. kv.1.cid ≡ kv.0) m

abbrev sorted_values : {Cid : Type 0} → Map Cid (Entry Cid) → List (Entry Cid)
sorted_values m = reverse (sort_by_priority (Map.values m))

module _ {Cid : Type 0} ⦃e : Eq Cid⦄ where
  pub record IsValid (w : Wantlist Cid) : Type 0 where
    pub distinct : Map.HasKeys w.set
    pub keyed : IsKeyed w.set
    pub cache : (w.cached ≡ []) ⊎ (w.cached ≡ reverse (sort_by_priority (Map.values w.set)))

  insert-IsKeyed :
      (m : Map Cid (Entry Cid)) (c : Cid) (n : Entry Cid)
      → n.cid ≡ c
      → IsKeyed m
      → IsKeyed (Map.insert m c n)
  unfolding Map.insert
  insert-IsKeyed [] c n h k = (h, tt)
  insert-IsKeyed ((x, f) ∷ m) c n h k = ground (arith, insert-IsKeyed m c n h k.1)

  remove-IsKeyed : (m : Map Cid (Entry Cid)) (c : Cid) → IsKeyed m → IsKeyed (Map.remove m c)
  unfolding Map.remove
  remove-IsKeyed [] c k = tt
  remove-IsKeyed ((x, f) ∷ m) c k = ground (arith, remove-IsKeyed m c k.1)

  pub empty-IsValid : IsValid (empty {Cid = Cid})
  unfolding empty Map.keys
  empty-IsValid = record { distinct = tt; keyed = tt; cache = inl refl }

  add-IsValid :
      (w : Wantlist Cid) (c : Cid) (p : ℤ) (t : WantType) → IsValid w → IsValid (add w c p t).0
  unfolding add entry
  add-IsValid w c p t v = ground (
    arith,
    Map.insert-HasKeys w.set c (entry c p t) v.distinct,
    insert-IsKeyed w.set c (entry c p t) refl v.keyed,
  )

  remove-IsValid : (w : Wantlist Cid) (c : Cid) → IsValid w → IsValid (remove w c).0
  unfolding remove
  remove-IsValid w c v = record {
    distinct = Map.remove-HasKeys w.set c v.distinct;
    keyed = remove-IsKeyed w.set c v.keyed;
    cache = inl refl;
  }

  remove_type-IsValid :
      (w : Wantlist Cid) (c : Cid) (t : WantType) → IsValid w → IsValid (remove_type w c t).0
  unfolding remove_type
  remove_type-IsValid w c t v =
      ground (arith, Map.remove-HasKeys w.set c v.distinct, remove-IsKeyed w.set c v.keyed)

  entries-IsValid : (w : Wantlist Cid) → IsValid w → IsValid (entries w).0
  unfolding entries
  entries-IsValid w v = ground arith

  merge_entry-HasKeys :
      (m : Map Cid (Entry Cid)) (c : Cid) (n : Entry Cid)
      → Map.HasKeys m
      → Map.HasKeys (merge_entry m c n)
  unfolding merge_entry
  merge_entry-HasKeys m c n h = ground (arith, Map.insert-HasKeys m c n h)

  merge_entry-IsKeyed :
      (m : Map Cid (Entry Cid)) (c : Cid) (n : Entry Cid)
      → n.cid ≡ c
      → IsKeyed m
      → IsKeyed (merge_entry m c n)
  unfolding merge_entry
  merge_entry-IsKeyed m c n h k = ground (arith, insert-IsKeyed m c n h k)

  merge_entries-HasKeys :
      (m o : Map Cid (Entry Cid)) → Map.HasKeys m → Map.HasKeys (merge_entries m o)
  unfolding merge_entries
  merge_entries-HasKeys m [] h = h
  merge_entries-HasKeys m ((c, n) ∷ o) h =
      merge_entries-HasKeys (merge_entry m c n) o (merge_entry-HasKeys m c n h)

  merge_entries-IsKeyed :
      (m o : Map Cid (Entry Cid)) → IsKeyed o → IsKeyed m → IsKeyed (merge_entries m o)
  unfolding merge_entries
  merge_entries-IsKeyed m [] k h = h
  merge_entries-IsKeyed m ((c, n) ∷ o) k h =
      merge_entries-IsKeyed (merge_entry m c n) o k.1 (merge_entry-IsKeyed m c n k.0 h)

  extend-IsValid : (w o : Wantlist Cid) → IsValid o → IsValid w → IsValid (extend w o)
  unfolding extend
  extend-IsValid w o u v = record {
    distinct = merge_entries-HasKeys w.set o.set v.distinct;
    keyed = merge_entries-IsKeyed w.set o.set u.keyed v.keyed;
    cache = inl refl;
  }

  -- The lists that calls can build. `extend` consumes a second list that was built so.
  pub data Built : Wantlist Cid → Type 0 where
    start : Built empty
    added : {w : Wantlist Cid} (c : Cid) (p : ℤ) (t : WantType) → Built w → Built (add w c p t).0
    removed : {w : Wantlist Cid} (c : Cid) → Built w → Built (remove w c).0
    removed_type :
        {w : Wantlist Cid} (c : Cid) (t : WantType) → Built w → Built (remove_type w c t).0
    listed : {w : Wantlist Cid} → Built w → Built (entries w).0
    cleared : {w : Wantlist Cid} → Built w → Built (clear w)
    extended : {w o : Wantlist Cid} → Built w → Built o → Built (extend w o)

  clear-IsValid : (w : Wantlist Cid) → IsValid (clear w)
  unfolding clear empty
  clear-IsValid w = empty-IsValid

  -- Any list that calls of `new`, `add`, `remove`, `remove_type`, `entries`, `clear` and `extend`
  -- build holds each content id once, each entry under its own content id, and a cache that is
  -- empty or equal to the freshly sorted values.
  pub Built-IsValid : {w : Wantlist Cid} → Built w → IsValid w
  Built-IsValid start = empty-IsValid
  Built-IsValid (added {w} c p t r) = add-IsValid w c p t (Built-IsValid r)
  Built-IsValid (removed {w} c r) = remove-IsValid w c (Built-IsValid r)
  Built-IsValid (removed_type {w} c t r) = remove_type-IsValid w c t (Built-IsValid r)
  Built-IsValid (listed {w} r) = entries-IsValid w (Built-IsValid r)
  Built-IsValid (cleared {w} r) = clear-IsValid w
  Built-IsValid (extended {w} {o} r q) = extend-IsValid w o (Built-IsValid q) (Built-IsValid r)

  entries-value :
      (w : Wantlist Cid) → IsValid w → (entries w).1 ≡ reverse (sort_by_priority (Map.values w.set))
  unfolding entries
  entries-value w v = ground arith

  entries-same : (w : Wantlist Cid) → (entries w).0.set ≡ w.set
  unfolding entries
  entries-same w = ground arith

  -- On a list that calls built, `entries` returns the values of the map, each as often as it
  -- stands there, in descending order of priority; it leaves the map alone, and a second call
  -- returns the same.
  pub entries_lem :
      (w : Wantlist Cid)
      → Built w
      → IsDescending (entries w).1
        × Perm (entries w).1 (Map.values w.set)
        × ((entries w).0.set ≡ w.set)
        × ((entries (entries w).0).1 ≡ (entries w).1)
  entries_lem w r =
      let v = Built-IsValid r in
      (
        rw (entries-value w v) (reverse-sort_IsDescending (Map.values w.set)),
        rw (entries-value w v) (reverse-sort_perm (Map.values w.set)),
        entries-same w,
        entries-value (entries w).0 (entries-IsValid w v)
            ∙ ap (λ m. reverse (sort_by_priority (Map.values m))) (entries-same w)
            ∙ sym (entries-value w v),
      )
