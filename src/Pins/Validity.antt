-- ===== src/Pins/Validity.antt =====
-- What holds of every document of a store, and stays so when a pin is inserted or removed.
use rust_ipfs.Base.{
  ℕ, Bool, true, false, not, ◌≡◌, refl, subst, ◌⊎◌, inl, inr, some, List, [], ◌∷◌, arith, Eq,
  nat_eq, list_eq, ◌==◌, Option-cases, Bool-cases, if_elim,
}
use rust_ipfs.Base.Map
use rust_ipfs.Base.Map.{Map}
use rust_ipfs.Pins.{PinKind, PinDocument, PinError, Result, ok, err, Cids, Json, is_set, can_remove}
use rust_ipfs.Pins.Store.{Store, update, new_document, insert_pin, remove_pin}
use rust_ipfs.Pins.Documents.{IsFine, update-IsFine, update_stays}

pub Result-cases :
    {E A : Type 0} (r : Result E A) → ((x : E) × (r ≡ err x)) ⊎ ((a : A) × (r ≡ ok a))
Result-cases (ok a) = inr (a, refl)
Result-cases (err x) = inl (x, refl)

module _ {Cid : Type 0} ⦃e : Eq Cid⦄ {V : Type 0} (P : V → Type 0) where
  -- Of every value.
  abbrev pub AllValues : Map Cid V → Type 0
  AllValues [] = Unit
  AllValues ((k, v) ∷ m) = P v × AllValues m

  pub insert-AllValues :
      (m : Map Cid V) (k : Cid) (v : V) → P v → AllValues m → AllValues (Map.insert m k v)
  unfolding Map.insert
  insert-AllValues [] k v h a = (h, tt)
  insert-AllValues ((x, w) ∷ m) k v h a =
      if_elim AllValues (x == k) ((k, v) ∷ m) ((x, w) ∷ Map.insert m k v) (h, a.1)
        (a.0, insert-AllValues m k v h a.1)

  pub remove-AllValues : (m : Map Cid V) (k : Cid) → AllValues m → AllValues (Map.remove m k)
  unfolding Map.remove
  remove-AllValues [] k a = tt
  remove-AllValues ((x, w) ∷ m) k a =
      if_elim AllValues (x == k) (Map.remove m k) ((x, w) ∷ Map.remove m k)
        (remove-AllValues m k a.1) (a.0, remove-AllValues m k a.1)

  pub get-AllValues : (m : Map Cid V) (k : Cid) (v : V) → AllValues m → Map.get m k ≡ some v → P v
  unfolding Map.get
  get-AllValues [] k v a h = cc
  get-AllValues ((x, w) ∷ m) k v a h = elim (Bool-cases (x == k)) [
    | inl same ↦ subst P (ground (arith, h, same)) a.0
    | inr other ↦ get-AllValues m k v a.1 (ground (arith, h, other))
  ]

module _ {Cid : Type 0} ⦃e : Eq Cid⦄ (cids : Cids Cid) (json : Json) where
  -- The JSON of a document that pins something.
  abbrev pub IsPin : List ℕ → Type 0
  IsPin raw =
      (d : PinDocument) × (json.from_slice raw ≡ some d)
      × IsFine cids json d
      × (can_remove d ≡ false)

  abbrev pub IsValid : Store Cid → Type 0
  IsValid g = AllValues IsPin g

  pub insert_pin-IsValid :
      (g : Store Cid) (c : Cid) (kind : PinKind Cid)
      → IsValid g
      → IsValid (insert_pin cids json g c kind).1
  unfolding insert_pin is_set
  insert_pin-IsValid g c kind a =
      let fresh = new_document cids json c in
      elim (Option-cases (Map.get g c)) [
        | inl gone ↦ elim (Result-cases (update cids json true kind fresh)) [
          | inl (x, failed) ↦ rw (insert_pin, gone, failed) a
          | inr (r, done) ↦
              rw (insert_pin, gone, done)
                (insert-AllValues IsPin g c (json.to_vec r.1)
                  (
                    r.1,
                    json.from_slice-to_vec r.1,
                    update-IsFine cids json true kind fresh r (refl, tt) done,
                    update_stays cids json kind fresh r done,
                  )
                  a)
        ]
        | inr (raw, found) ↦
            let (d, read, fine, stays) = get-AllValues IsPin g c raw a found in
            elim (Result-cases (update cids json true kind d)) [
              | inl (x, failed) ↦ rw (insert_pin, found, read, failed) a
              | inr (r, done) ↦
                  rw (insert_pin, found, read, done)
                    (if_elim (λ (s : Result (PinError Cid) Bool × Store Cid). IsValid s.1) r.0
                      (ok true, Map.insert g c (json.to_vec r.1)) (ok false, g)
                      (insert-AllValues IsPin g c (json.to_vec r.1)
                        (
                          r.1,
                          json.from_slice-to_vec r.1,
                          update-IsFine cids json true kind d r fine done,
                          update_stays cids json kind d r done,
                        )
                        a)
                      a)
            ]
      ]

  pub remove_pin-IsValid :
      (g : Store Cid) (c : Cid) (kind : PinKind Cid)
      → IsValid g
      → IsValid (remove_pin cids json g c kind).1
  unfolding remove_pin
  remove_pin-IsValid g c kind a = elim (Option-cases (Map.get g c)) [
    | inl gone ↦ rw (remove_pin, gone) a
    | inr (raw, found) ↦
        let (d, read, fine, stays) = get-AllValues IsPin g c raw a found in
        elim (Result-cases (update cids json false kind d)) [
          | inl (x, failed) ↦ rw (remove_pin, found, read, failed) a
          | inr (r, done) ↦ elim (Bool-cases (can_remove r.1)) [
            | inl empty_ ↦
                rw (remove_pin, found, read, done, empty_)
                  (if_elim (λ (s : Result (PinError Cid) Bool × Store Cid). IsValid s.1) (not r.0)
                    (ok false, g) (ok true, Map.remove g c) a (remove-AllValues IsPin g c a))
            | inr keeps ↦
                rw (remove_pin, found, read, done, keeps)
                  (if_elim (λ (s : Result (PinError Cid) Bool × Store Cid). IsValid s.1) (not r.0)
                    (ok false, g) (ok true, Map.insert g c (json.to_vec r.1)) a
                    (insert-AllValues IsPin g c (json.to_vec r.1)
                      (
                        r.1,
                        json.from_slice-to_vec r.1,
                        update-IsFine cids json false kind d r fine done,
                        keeps,
                      )
                      a))
          ]
        ]
  ]
