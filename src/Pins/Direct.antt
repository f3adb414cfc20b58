-- ===== src/Pins/Direct.antt =====
-- Direct pins: they come and go without a trace, and are refused on what is pinned recursively.
use rust_ipfs.Base.{
  ℕ, true, false, ◌&&◌, ◌≡◌, refl, sym, subst, ◌∙◌, none, some, List, [], ◌∷◌, arith, Eq, nat_eq,
  list_eq, ==_refl,
}
use rust_ipfs.Base.Map
use rust_ipfs.Base.Map.{Map}
use rust_ipfs.Pins.{
  PinDocument, already_pinned_recursive, cannot_unpin_direct_on_recursively_pinned, update_error,
  ok, err, Cids, Json, is_set, can_remove, update_direct,
}
use rust_ipfs.Pins.Store.{
  Store, update, new_document, insert_pin, remove_pin, is_pinned, insert_direct_pin,
  remove_direct_pin,
}
use rust_ipfs.Pins.Validity.{IsPin, get-AllValues}
use rust_ipfs.Pins.Reachable.{Reach, Reach-IsValid_store}

some_same : {A : Type 0} (a b : A) → some a ≡ some b → a ≡ b
some_same a b h = cc

module _ {Cid : Type 0} ⦃e : Eq Cid⦄ {V : Type 0} where
  remove-insert :
      (m : Map Cid V) (k : Cid) (v : V) → Map.get m k ≡ none → Map.remove (Map.insert m k v) k ≡ m
  unfolding Map.get Map.remove Map.insert
  remove-insert [] k v h = ground (arith, ==_refl k)
  remove-insert ((x, w) ∷ m) k v h = ground (arith, h, remove-insert m k v)

module _ {Cid : Type 0} ⦃e : Eq Cid⦄ (cids : Cids Cid) (json : Json) where
  -- To pin directly what is not pinned succeeds, and to take that pin away succeeds and gives the
  -- store of before.
  pub remove_direct_pin-insert_direct_pin :
      (g : Store Cid) (c : Cid)
      → Map.get g c ≡ none
      → (is_pinned cids json (insert_direct_pin cids json g c).1 c ≡ true)
        × (insert_direct_pin cids json g c).0 ≡ ok tt
        × remove_direct_pin cids json (insert_direct_pin cids json g c).1 c ≡ (ok tt, g)
  unfolding is_pinned insert_direct_pin remove_direct_pin insert_pin remove_pin update update_direct
      is_set can_remove Map.contains_key
  remove_direct_pin-insert_direct_pin g c gone =
      let d = record (new_document cids json c) { is_direct = true } in
      let here : Map.get (Map.insert g c (json.to_vec d)) c ≡ some (json.to_vec d) =
        ground (arith, Map.get-insert g c (json.to_vec d) c, ==_refl c) in
      let inserted : insert_direct_pin cids json g c ≡ (ok tt, Map.insert g c (json.to_vec d)) =
        rw (insert_direct_pin, insert_pin, gone) refl in
      let removed : remove_direct_pin cids json (Map.insert g c (json.to_vec d)) c
          ≡ (ok tt, Map.remove (Map.insert g c (json.to_vec d)) c) =
        rw (remove_direct_pin, remove_pin, here, json.from_slice-to_vec d) refl in
      (
        rw (inserted, Map.contains_key, here) refl,
        rw inserted refl,
        rw (inserted, removed, remove-insert g c (json.to_vec d) gone) refl,
      )

  -- On every store that calls lead to, what is pinned recursively, or is about to be, can neither be
  -- pinned nor unpinned directly: both fail with their own error and leave the store as it is.
  pub direct_pin_refused :
      (g : Store Cid) (c : Cid) (raw : List ℕ) (d : PinDocument)
      → Reach cids json g
      → Map.get g c ≡ some raw
      → json.from_slice raw ≡ some d
      → is_set d.is_recursive ≡ true
      → (insert_direct_pin cids json g c ≡ (err (update_error already_pinned_recursive), g))
        × (remove_direct_pin cids json g c
            ≡ (err (update_error cannot_unpin_direct_on_recursively_pinned), g))
  unfolding insert_direct_pin remove_direct_pin insert_pin remove_pin update update_direct is_set
  direct_pin_refused g c raw d r found read set =
      let (d', read', fine, stays) =
        get-AllValues (IsPin cids json) g c raw (Reach-IsValid_store cids json g r) found in
      let exclusive : (is_set d.is_recursive && d.is_direct) ≡ false =
        subst (λ x. (is_set x.is_recursive && x.is_direct) ≡ false)
          (some_same d' d (sym read' ∙ read)) fine.0 in
      let plain : d.is_direct ≡ false = ground (arith, set, exclusive) in
      (
        rw (insert_direct_pin, insert_pin, found, read, update, update_direct, set, plain) refl,
        rw (remove_direct_pin, remove_pin, found, read, update, update_direct, set, plain) refl,
      )
