-- ===== src/Pins/Reachable.antt =====
-- What holds of every store that calls lead to.
use rust_ipfs.Base.{
  if_elim, not, if◌then◌else◌, ℕ, ◌+◌, Bool, true, false, inl, inr, List, [], ◌∷◌, Eq, nat_eq,
  list_eq, Option-cases,
}
use rust_ipfs.Base.Map
use rust_ipfs.Base.Map.{Map}
use rust_ipfs.Pins.{
  PinKind, indirect_from, direct_kind, recursive_kind, recursive_intention, PinError, Result, ok,
  err, Cids, Json, can_remove,
}
use rust_ipfs.Pins.Store.{
  update, new_document, Store, to_v1, pick_kind, insert_pin, remove_pin, and_then,
  insert_direct_pin, remove_direct_pin, insert_refs, insert_recursive_pin, remove_refs,
  remove_recursive_kind, remove_picked, remove_recursive_pin,
}
use rust_ipfs.Pins.Validity.{Result-cases, IsValid, insert_pin-IsValid, remove_pin-IsValid}

module _ {Cid : Type 0} ⦃e : Eq Cid⦄ (cids : Cids Cid) (json : Json) where
  -- The stores that calls lead to from the empty one.
  pub data Reach : Store Cid → Type 0 where
    init : Reach []
    insert_direct : (g : Store Cid) (c : Cid) → Reach g → Reach (insert_direct_pin cids json g c).1
    remove_direct : (g : Store Cid) (c : Cid) → Reach g → Reach (remove_direct_pin cids json g c).1
    insert_recursive :
        (g : Store Cid) (c : Cid) (refs : List (Result (PinError Cid) Cid))
        → Reach g
        → Reach (insert_recursive_pin cids json g c refs).1
    remove_recursive :
        (g : Store Cid) (c : Cid) (refs : List (Result (PinError Cid) Cid))
        → Reach g
        → Reach (remove_recursive_pin cids json g c refs).1

-- What every insertion and every removal of a pin keeps, every call keeps.
module _ {Cid : Type 0} ⦃e : Eq Cid⦄ (cids : Cids Cid) (json : Json) (Kept : Store Cid → Type 0)
    (inserts : (g : Store Cid) (c : Cid) (kind : PinKind Cid)
      → Kept g
      → Kept (insert_pin cids json g c kind).1)
    (removes : (g : Store Cid) (c : Cid) (kind : PinKind Cid)
      → Kept g
      → Kept (remove_pin cids json g c kind).1) where
  and_then-Kept :
      (r : Result (PinError Cid) Bool × Store Cid)
      (f : Store Cid → Result (PinError Cid) Unit × Store Cid)
      → Kept r.1
      → ((g : Store Cid) → Kept g → Kept (f g).1)
      → Kept (and_then cids json r f).1
  and_then-Kept (err x, g) f a h = a
  and_then-Kept (ok b, g) f a h = h g a

  insert_refs-Kept :
      (g : Store Cid) (kind : PinKind Cid) (refs : List (Result (PinError Cid) Cid)) (n : ℕ)
      → Kept g
      → Kept (insert_refs cids json g kind refs n).1
  unfolding insert_refs
  insert_refs-Kept g kind [] n a = a
  insert_refs-Kept g kind (err x ∷ refs) n a = a
  insert_refs-Kept g kind (ok next ∷ refs) n a =
      let r = insert_pin cids json g next kind in
      let step = inserts g next kind a in
      elim (Result-cases r.0) [
        | inl (x, failed) ↦ rw (insert_refs, failed) step
        | inr (b, done) ↦ rw (insert_refs, done) (insert_refs-Kept r.1 kind refs (n + 1) step)
      ]

  remove_refs-Kept :
      (g : Store Cid) (kind : PinKind Cid) (refs : List (Result (PinError Cid) Cid))
      → Kept g
      → Kept (remove_refs cids json g kind refs).1
  unfolding remove_refs
  remove_refs-Kept g kind [] a = a
  remove_refs-Kept g kind (err x ∷ refs) a = a
  remove_refs-Kept g kind (ok next ∷ refs) a =
      let r = remove_pin cids json g next kind in
      let step = removes g next kind a in
      elim (Result-cases r.0) [
        | inl (x, failed) ↦ rw (remove_refs, failed) step
        | inr (b, done) ↦ rw (remove_refs, done) (remove_refs-Kept r.1 kind refs step)
      ]

  insert_recursive_pin-Kept :
      (g : Store Cid) (c : Cid) (refs : List (Result (PinError Cid) Cid))
      → Kept g
      → Kept (insert_recursive_pin cids json g c refs).1
  unfolding insert_recursive_pin
  insert_recursive_pin-Kept g c refs a =
      and_then-Kept (insert_pin cids json g c recursive_intention)
        (λ g.
          let r = insert_refs cids json g (indirect_from (to_v1 cids json c)) refs 0 in
          elim r.0 [
            | err failed ↦ (err failed, r.1)
            | ok n ↦
                and_then cids json (insert_pin cids json r.1 c (recursive_kind n)) (λ g. (ok tt, g))
          ])
        (inserts g c recursive_intention a)
        (λ h b.
          let r = insert_refs cids json h (indirect_from (to_v1 cids json c)) refs 0 in
          let step = insert_refs-Kept h (indirect_from (to_v1 cids json c)) refs 0 b in
          elim (Result-cases r.0) [
            | inl (x, failed) ↦ rw failed step
            | inr (n, done) ↦ rw done (
                and_then-Kept (insert_pin cids json r.1 c (recursive_kind n)) (λ g. (ok tt, g))
                  (inserts r.1 c (recursive_kind n) step) (λ g b. b))
          ])

  remove_recursive_kind-Kept :
      (g : Store Cid) (c : Cid) (kind : PinKind Cid) (refs : List (Result (PinError Cid) Cid))
      → Kept g
      → Kept (remove_recursive_kind cids json g c kind refs).1
  unfolding remove_recursive_kind
  remove_recursive_kind-Kept g c kind refs a =
      and_then-Kept (remove_pin cids json g c kind)
        (λ g. remove_refs cids json g (indirect_from (to_v1 cids json c)) refs) (removes g c kind a)
        (λ h b. remove_refs-Kept h (indirect_from (to_v1 cids json c)) refs b)

  remove_picked-Kept :
      (g : Store Cid) (c : Cid) (refs : List (Result (PinError Cid) Cid)) (kind : PinKind Cid)
      → Kept g
      → Kept (remove_picked cids json g c kind refs).1
  unfolding remove_picked
  remove_picked-Kept g c refs (recursive_kind n) a =
      remove_recursive_kind-Kept g c (recursive_kind n) refs a
  remove_picked-Kept g c refs recursive_intention a =
      remove_recursive_kind-Kept g c recursive_intention refs a
  remove_picked-Kept g c refs direct_kind a =
      and_then-Kept (remove_pin cids json g c direct_kind) (λ g. (ok tt, g))
        (removes g c direct_kind a) (λ g b. b)
  remove_picked-Kept g c refs (indirect_from r) a = a

  remove_recursive_pin-Kept :
      (g : Store Cid) (c : Cid) (refs : List (Result (PinError Cid) Cid))
      → Kept g
      → Kept (remove_recursive_pin cids json g c refs).1
  unfolding remove_recursive_pin
  remove_recursive_pin-Kept g c refs a = elim (Option-cases (Map.get g c)) [
    | inl gone ↦ rw (remove_recursive_pin, gone) a
    | inr (raw, found) ↦ elim (Option-cases (json.from_slice raw)) [
      | inl unread ↦ rw (remove_recursive_pin, found, unread) a
      | inr (d, read) ↦ elim (Option-cases (pick_kind cids json d)) [
        | inl nothing ↦ rw (remove_recursive_pin, found, read, nothing) a
        | inr (picked, is_picked) ↦ elim (Result-cases picked) [
          | inl (x, failed) ↦ rw (remove_recursive_pin, found, read, is_picked, failed) a
          | inr (kind, done) ↦
              rw (remove_recursive_pin, found, read, is_picked, done)
                (remove_picked-Kept g c refs kind a)
        ]
      ]
    ]
  ]

  pub Reach-Kept : (g : Store Cid) → Kept [] → Reach cids json g → Kept g
  unfolding insert_direct_pin remove_direct_pin
  Reach-Kept g a init = a
  Reach-Kept g a (insert_direct h c r) =
      and_then-Kept (insert_pin cids json h c direct_kind) (λ g. (ok tt, g))
        (inserts h c direct_kind (Reach-Kept h a r)) (λ g b. b)
  Reach-Kept g a (remove_direct h c r) =
      and_then-Kept (remove_pin cids json h c direct_kind) (λ g. (ok tt, g))
        (removes h c direct_kind (Reach-Kept h a r)) (λ g b. b)
  Reach-Kept g a (insert_recursive h c refs r) =
      insert_recursive_pin-Kept h c refs (Reach-Kept h a r)
  Reach-Kept g a (remove_recursive h c refs r) =
      remove_recursive_pin-Kept h c refs (Reach-Kept h a r)

module _ {Cid : Type 0} ⦃e : Eq Cid⦄ (cids : Cids Cid) (json : Json) where
  -- Whatever calls were made on the store, failed ones among them, every document can be read, pins
  -- something, does not pin directly what it pins recursively, and names content ids where it is
  -- pinned indirectly.
  pub Reach-IsValid_store : (g : Store Cid) → Reach cids json g → IsValid cids json g
  Reach-IsValid_store g r =
      Reach-Kept cids json (IsValid cids json) (insert_pin-IsValid cids json)
        (remove_pin-IsValid cids json) g tt r

  insert_pin-HasKeys :
      (g : Store Cid) (c : Cid) (kind : PinKind Cid)
      → Map.HasKeys g
      → Map.HasKeys (insert_pin cids json g c kind).1
  unfolding insert_pin
  insert_pin-HasKeys g c kind h = elim (Option-cases (Map.get g c)) [
    | inl gone ↦ elim (Result-cases (update cids json true kind (new_document cids json c))) [
      | inl (x, failed) ↦ rw (insert_pin, gone, failed) h
      | inr (r, done) ↦ rw (insert_pin, gone, done) (Map.insert-HasKeys g c (json.to_vec r.1) h)
    ]
    | inr (raw, found) ↦ elim (Option-cases (json.from_slice raw)) [
      | inl unread ↦ rw (insert_pin, found, unread) h
      | inr (d, read) ↦ elim (Result-cases (update cids json true kind d)) [
        | inl (x, failed) ↦ rw (insert_pin, found, read, failed) h
        | inr (r, done) ↦
            rw (insert_pin, found, read, done)
              (if_elim (λ (s : Result (PinError Cid) Bool × Store Cid). Map.HasKeys s.1) r.0
                (ok true, Map.insert g c (json.to_vec r.1)) (ok false, g)
                (Map.insert-HasKeys g c (json.to_vec r.1) h) h)
      ]
    ]
  ]

  remove_pin-HasKeys :
      (g : Store Cid) (c : Cid) (kind : PinKind Cid)
      → Map.HasKeys g
      → Map.HasKeys (remove_pin cids json g c kind).1
  unfolding remove_pin
  remove_pin-HasKeys g c kind h = elim (Option-cases (Map.get g c)) [
    | inl gone ↦ rw (remove_pin, gone) h
    | inr (raw, found) ↦ elim (Option-cases (json.from_slice raw)) [
      | inl unread ↦ rw (remove_pin, found, unread) h
      | inr (d, read) ↦ elim (Result-cases (update cids json false kind d)) [
        | inl (x, failed) ↦ rw (remove_pin, found, read, failed) h
        | inr (r, done) ↦
            let Keys : Result (PinError Cid) Bool × Store Cid → Type 0 = λ s. Map.HasKeys s.1 in
            rw (remove_pin, found, read, done)
              (if_elim Keys (not r.0) (ok false, g)
                (if can_remove r.1
                  then (ok true, Map.remove g c)
                  else (ok true, Map.insert g c (json.to_vec r.1)))
                h
                (if_elim Keys (can_remove r.1) (ok true, Map.remove g c)
                  (ok true, Map.insert g c (json.to_vec r.1)) (Map.remove-HasKeys g c h)
                  (Map.insert-HasKeys g c (json.to_vec r.1) h)))
      ]
    ]
  ]

  -- Each content id is stored once.
  pub Reach-HasKeys : (g : Store Cid) → Reach cids json g → Map.HasKeys g
  unfolding Map.keys
  Reach-HasKeys g r = Reach-Kept cids json Map.HasKeys insert_pin-HasKeys remove_pin-HasKeys g tt r
