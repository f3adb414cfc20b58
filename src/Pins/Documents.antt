-- ===== src/Pins/Documents.antt =====
-- What holds of every document of a store: it pins something, and not directly what it pins
-- recursively.
use rust_ipfs.Base.{
  Bool, true, false, not, ◌&&◌, ◌||◌, ◌≡◌, refl, sym, ap, subst, ◌∙◌, inl, inr, List, [], ◌∷◌,
  arith, if◌then◌else◌, All, is_empty, Eq, nat_eq, list_eq, ◌==◌, ==_iff, Bool-cases, if_elim,
  is_some,
}
use rust_ipfs.Base.Set
use rust_ipfs.Pins.{
  Text, PinKind, indirect_from, direct_kind, recursive_kind, recursive_intention, PinDocument,
  Result, ok, Cids, Json, is_set, text_lt, btree_insert, btree_collect, can_remove, update_indirect,
  update_direct, update_intention, update_recursive,
}
use rust_ipfs.Pins.Store.{to_v1, update}

pub contains-btree_insert :
    (xs : List Text) (x y : Text)
    → Set.contains (btree_insert xs x) y ≡ (x == y || Set.contains xs y)
unfolding btree_insert Set.contains
contains-btree_insert [] x y = refl
contains-btree_insert (z ∷ zs) x y =
    ground (arith, contains-btree_insert zs x y, ==_iff x z, ==_iff z y, ==_iff x y)

pub contains-btree_collect :
    (xs : List Text) (y : Text) → Set.contains (btree_collect xs) y ≡ Set.contains xs y
unfolding btree_collect Set.contains
contains-btree_collect [] y = refl
contains-btree_collect (x ∷ xs) y =
    contains-btree_insert (btree_collect xs) x y
    ∙ ap (λ b. x == y || b) (contains-btree_collect xs y)

btree_insert_some : (xs : List Text) (x : Text) → is_empty (btree_insert xs x) ≡ false
unfolding btree_insert
btree_insert_some [] x = refl
btree_insert_some (y ∷ ys) x = ground arith

pub ok_same : {E A : Type 0} (a b : A) → ◌≡◌ {A = Result E A} (ok a) (ok b) → a ≡ b
ok_same a b h = cc

module _ {Cid : Type 0} ⦃e : Eq Cid⦄ (cids : Cids Cid) (json : Json) where
  -- A text of a content id.
  abbrev pub IsCid : Text → Type 0
  IsCid t = is_some (cids.from_text t) ≡ true

  -- Not both direct and recursive, and indirectly pinned by content ids.
  abbrev pub IsFine : PinDocument → Type 0
  IsFine d = ((is_set d.is_recursive && d.is_direct) ≡ false) × All IsCid d.indirect_by

  btree_insert-All :
      (xs : List Text) (x : Text) → IsCid x → All IsCid xs → All IsCid (btree_insert xs x)
  unfolding btree_insert
  btree_insert-All [] x h k = (h, tt)
  btree_insert-All (y ∷ ys) x h k =
      if_elim (All IsCid) (x == y) (y ∷ ys)
        (if text_lt x y then x ∷ y ∷ ys else y ∷ btree_insert ys x) k
        (if_elim (All IsCid) (text_lt x y) (x ∷ y ∷ ys) (y ∷ btree_insert ys x) (h, k)
          (k.0, btree_insert-All ys x h k.1))

  btree_collect-All : (xs : List Text) → All IsCid xs → All IsCid (btree_collect xs)
  unfolding btree_collect
  btree_collect-All [] h = tt
  btree_collect-All (x ∷ xs) h =
      btree_insert-All (btree_collect xs) x h.0 (btree_collect-All xs h.1)

  remove-All : (xs : List Text) (x : Text) → All IsCid xs → All IsCid (Set.remove xs x)
  unfolding Set.remove
  remove-All [] x h = tt
  remove-All (y ∷ ys) x h =
      if_elim (All IsCid) (y == x) (Set.remove ys x) (y ∷ Set.remove ys x) (remove-All ys x h.1)
        (h.0, remove-All ys x h.1)

  pub update_indirect_lem :
      (add : Bool) (root : Text) (d : PinDocument)
      → ((update_indirect add root d).1.is_recursive ≡ d.is_recursive)
        × ((update_indirect add root d).1.is_direct ≡ d.is_direct)
  unfolding update_indirect
  update_indirect_lem add root d = ground arith

  update_indirect-All :
      (add : Bool) (root : Text) (d : PinDocument)
      → IsCid root
      → All IsCid d.indirect_by
      → All IsCid (update_indirect add root d).1.indirect_by
  unfolding update_indirect
  update_indirect-All add root d h k =
      let set = btree_collect d.indirect_by in
      let all = btree_collect-All d.indirect_by k in
      elim (Bool-cases (is_empty d.indirect_by)) [
        | inl gone ↦
            rw (update_indirect, gone)
              (if_elim (λ (r : Bool × PinDocument). All IsCid r.1.indirect_by) add
                (true, record d { indirect_by = root ∷ [] }) (false, d) (h, tt) k)
        | inr there ↦
            rw (update_indirect, there)
              (if_elim (λ (r : Bool × PinDocument). All IsCid r.1.indirect_by) add
                (not (Set.contains set root), record d { indirect_by = btree_insert set root })
                (Set.contains set root, record d { indirect_by = Set.remove set root })
                (btree_insert-All set root h all) (remove-All set root all))
      ]

  IsCid-to_v1 : (c : Cid) → IsCid (cids.to_text c)
  IsCid-to_v1 c = rw (cids.from_text-to_text c) refl

  IsFine-same :
      (d d' : PinDocument)
      → (is_set d'.is_recursive && d'.is_direct) ≡ false
      → d'.indirect_by ≡ d.indirect_by
      → IsFine d
      → IsFine d'
  IsFine-same d d' h k f = (h, subst (All IsCid) (sym k) f.1)

  pub update-IsFine :
      (add : Bool) (kind : PinKind Cid) (d : PinDocument) (r : Bool × PinDocument)
      → IsFine d
      → update cids json add kind d ≡ ok r
      → IsFine r.1
  unfolding update update_direct update_intention update_recursive is_set
  update-IsFine add (indirect_from root) d r h k =
      let text = cids.to_text (to_v1 cids json root) in
      let same = update_indirect_lem add text d in
      subst (λ r. IsFine r.1) (ok_same (update_indirect add text d) r k)
        (
          rw (same.0, same.1) h.0,
          update_indirect-All add text d (IsCid-to_v1 (to_v1 cids json root)) h.1,
        )
  update-IsFine add direct_kind d r h k = IsFine-same d r.1 (ground arith) (ground arith) h
  update-IsFine true recursive_intention d r h k = IsFine-same d r.1 (ground arith) (ground arith) h
  update-IsFine false recursive_intention d r h k =
      IsFine-same d r.1 (ground arith) (ground arith) h
  update-IsFine true (recursive_kind n) d r h k = IsFine-same d r.1 (ground arith) (ground arith) h
  update-IsFine false (recursive_kind n) d r h k = IsFine-same d r.1 (ground arith) (ground arith) h

  update_indirect_stays :
      (root : Text) (d : PinDocument) → is_empty (update_indirect true root d).1.indirect_by ≡ false
  unfolding update_indirect
  update_indirect_stays root d =
      ground (arith, btree_insert_some (btree_collect d.indirect_by) root)

  pub update_stays :
      (kind : PinKind Cid) (d : PinDocument) (r : Bool × PinDocument)
      → update cids json true kind d ≡ ok r
      → can_remove r.1 ≡ false
  unfolding update update_direct update_intention update_recursive is_set can_remove
  update_stays (indirect_from root) d r k =
      let text = cids.to_text (to_v1 cids json root) in
      subst (λ r. can_remove r.1 ≡ false) (ok_same (update_indirect true text d) r k)
        (ground (arith, update_indirect_stays text d))
  update_stays direct_kind d r k = ground arith
  update_stays recursive_intention d r k = ground arith
  update_stays (recursive_kind n) d r k = ground arith
