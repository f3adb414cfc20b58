-- ===== src/Pins/Contents.antt =====
-- What the documents of a store say, of roots and of their own recursive pins, and what an insertion
-- changes of that.
use rust_ipfs.Base.{
  ℕ, Bool, true, false, ◌||◌, ◌≡◌, refl, sym, ap, subst, ◌∙◌, ◌⊎◌, inl, inr, Option, none, some,
  List, [], ◌∷◌, arith, if◌then◌else◌, is_empty, Eq, nat_eq, list_eq, ◌==◌, ==_iff, Option-cases,
  Bool-cases,
}
use rust_ipfs.Base.Map
use rust_ipfs.Base.Map.{Map}
use rust_ipfs.Base.Set
use rust_ipfs.Pins.{
  Text, PinKind, indirect_from, direct_kind, recursive_kind, recursive_intention, Recursive, count,
  intent, not_recursive, PinDocument, update_error, unwrap_panic, Result, ok, err, Cids, Json,
  btree_collect, update_indirect, update_direct, update_intention, update_recursive,
}
use rust_ipfs.Pins.Store.{Store, to_v1, update, new_document, insert_pin}
use rust_ipfs.Pins.Documents.{
  ok_same, update_indirect_lem, contains-btree_insert, contains-btree_collect,
}
use rust_ipfs.Pins.Validity.{Result-cases, get-AllValues, IsPin, IsValid}

-- What a document says of a root, and of its own recursive pin.
unfoldable pub by_root : Option PinDocument → Text → Bool
by_root none t = false
by_root (some d) t = Set.contains d.indirect_by t

unfoldable pub recursion : Option PinDocument → Recursive
recursion none = not_recursive
recursion (some d) = d.is_recursive

pub ok_err : {E A T : Type 0} (r : Result E A) (a : A) (x : E) → r ≡ ok a → r ≡ err x → T
ok_err r a x h k = cc

module _ {Cid : Type 0} ⦃e : Eq Cid⦄ (cids : Cids Cid) (json : Json) where
  unfoldable pub read : Option (List ℕ) → Option PinDocument
  read none = none
  read (some raw) = json.from_slice raw

  abbrev pub document : Store Cid → Cid → Option PinDocument
  document g c = read (Map.get g c)

  -- The document that an insertion updates.
  unfoldable pub base : Option PinDocument → Cid → PinDocument
  base none c = new_document cids json c
  base (some d) c = d

  read_cases :
      (g : Store Cid) (c : Cid)
      → IsValid cids json g
      → ((Map.get g c ≡ none) × (document g c ≡ none))
        ⊎ ((raw : List ℕ) × (d : PinDocument) × (Map.get g c ≡ some raw)
            × (json.from_slice raw ≡ some d)
            × (document g c ≡ some d))
  unfolding read
  read_cases g c a = elim (Option-cases (Map.get g c)) [
    | inl gone ↦ inl (gone, ap read gone)
    | inr (raw, found) ↦
        let (d, h, fine, stays) = get-AllValues (IsPin cids json) g c raw a found in
        inr (raw, d, found, h, ap read found ∙ h)
  ]

  document-insert :
      (g : Store Cid) (c x : Cid) (d : PinDocument)
      → document (Map.insert g c (json.to_vec d)) x ≡ (if c == x then some d else document g x)
  unfolding read
  document-insert g c x d =
      ap read (Map.get-insert g c (json.to_vec d) x) ∙ ground (arith, json.from_slice-to_vec d)

  pub base-recursion : (o : Option PinDocument) (c : Cid) → (base o c).is_recursive ≡ recursion o
  unfolding base recursion
  base-recursion none c = refl
  base-recursion (some d) c = refl

  pub base-by_root :
      (o : Option PinDocument) (c : Cid) (t : Text)
      → Set.contains (base o c).indirect_by t ≡ by_root o t
  unfolding base by_root Set.contains
  base-by_root none c t = refl
  base-by_root (some d) c t = refl

  is_empty_nil : (xs : List Text) → is_empty xs ≡ true → xs ≡ []
  is_empty_nil [] h = refl
  is_empty_nil (x ∷ xs) h = ground arith

  same_root :
      (d : PinDocument) (root t : Text)
      → (root == t) ≡ true
      → (update_indirect true root d).0 ≡ false
      → Set.contains d.indirect_by t ≡ true
  unfolding update_indirect
  same_root d root t same h =
      subst (λ t. Set.contains d.indirect_by t ≡ true) ((==_iff root t).0 same)
        (ground (arith, h, contains-btree_collect d.indirect_by root))

  pub contains-update_indirect :
      (root t : Text) (d : PinDocument)
      → Set.contains (update_indirect true root d).1.indirect_by t
        ≡ (root == t || Set.contains d.indirect_by t)
  unfolding update_indirect Set.contains
  contains-update_indirect root t d = elim (Bool-cases (is_empty d.indirect_by)) [
    | inl gone ↦ rw (update_indirect, gone, is_empty_nil d.indirect_by gone) refl
    | inr there ↦
        rw (update_indirect, there)
          (contains-btree_insert (btree_collect d.indirect_by) root t
            ∙ ap (λ b. root == t || b) (contains-btree_collect d.indirect_by t))
  ]

  abbrev Same : PinDocument → PinDocument → Type 0
  Same d d' =
      (d'.is_recursive ≡ d.is_recursive)
      × ((t : Text) → Set.contains d'.indirect_by t ≡ Set.contains d.indirect_by t)

  update_indirect-Same :
      (root : Text) (d : PinDocument)
      → (update_indirect true root d).0 ≡ false
      → Same d (update_indirect true root d).1
  update_indirect-Same root d h = (
    (update_indirect_lem cids json true root d).0,
    λ t. contains-update_indirect root t d ∙ ground (arith, same_root d root t),
  )

  pub update_intention_lem :
      (d : PinDocument) (r : Bool × PinDocument)
      → update_intention true d ≡ ok r
      → (r.1.is_recursive ≡ intent) × (r.1.indirect_by ≡ d.indirect_by)
  unfolding update_intention
  update_intention_lem d r h = (ground arith, ground arith)

  pub update_recursive_lem :
      (n : ℕ) (d : PinDocument) (r : Bool × PinDocument)
      → update_recursive true n d ≡ ok r
      → d.is_recursive ≡ intent
      → (r.1.is_recursive ≡ count n) × (r.1.indirect_by ≡ d.indirect_by)
  unfolding update_recursive
  update_recursive_lem n d r h k = (ground arith, ground arith)

  update_intention-Same :
      (d : PinDocument) (r : Bool × PinDocument)
      → update_intention true d ≡ ok r
      → r.0 ≡ false
      → Same d r.1
  unfolding update_intention
  update_intention-Same d r h k = (ground arith, λ t. ground arith)

  update_recursive-Same :
      (n : ℕ) (d : PinDocument) (r : Bool × PinDocument)
      → update_recursive true n d ≡ ok r
      → r.0 ≡ false
      → Same d r.1
  unfolding update_recursive
  update_recursive-Same n d r h k = (ground arith, λ t. ground arith)

  update-Same :
      (kind : PinKind Cid) (d : PinDocument) (r : Bool × PinDocument)
      → update cids json true kind d ≡ ok r
      → r.0 ≡ false
      → Same d r.1
  unfolding update update_direct
  update-Same (indirect_from root) d r h k =
      let text = cids.to_text (to_v1 cids json root) in
      let s = ok_same (update_indirect true text d) r h in
      subst (λ r. Same d r.1) s (update_indirect-Same text d (ap (λ r. r.0) s ∙ k))
  update-Same direct_kind d r h k = (ground arith, λ t. ground arith)
  update-Same recursive_intention d r h k = update_intention-Same d r h k
  update-Same (recursive_kind n) d r h k = update_recursive-Same n d r h k

  -- A store in which the document of `c` says what `d` says, and each other one what it said.
  abbrev pub Leaves : Store Cid → Store Cid → Cid → PinDocument → Type 0
  Leaves g g' c d =
      ((x : Cid)
        → recursion (document g' x) ≡ (if c == x then d.is_recursive else recursion (document g x)))
      × ((x : Cid) (t : Text)
          → by_root (document g' x) t
            ≡ (if c == x then Set.contains d.indirect_by t else by_root (document g x) t))

  Leaves-insert :
      (g : Store Cid) (c : Cid) (d : PinDocument) → Leaves g (Map.insert g c (json.to_vec d)) c d
  unfolding recursion by_root
  Leaves-insert g c d = (
    λ x. ap recursion (document-insert g c x d) ∙ ground arith,
    λ x t. ap (λ o. by_root o t) (document-insert g c x d) ∙ ground arith,
  )

  Leaves-Same :
      (g : Store Cid) (c : Cid) (d : PinDocument) → Same (base (document g c) c) d → Leaves g g c d
  Leaves-Same g c d s = (
    λ x. elim (Bool-cases (c == x)) [
      | inl same ↦ rw same (
          ap (λ y. recursion (document g y)) (sym ((==_iff c x).0 same))
          ∙ sym (base-recursion (document g c) c)
          ∙ sym s.0)
      | inr other ↦ rw other refl
    ],
    λ x t. elim (Bool-cases (c == x)) [
      | inl same ↦ rw same (
          ap (λ y. by_root (document g y) t) (sym ((==_iff c x).0 same))
          ∙ sym (base-by_root (document g c) c t)
          ∙ sym (s.1 t))
      | inr other ↦ rw other refl
    ],
  )

  pub insert_pin-Leaves :
      (g : Store Cid) (c : Cid) (kind : PinKind Cid) (b : Bool)
      → IsValid cids json g
      → (insert_pin cids json g c kind).0 ≡ ok b
      → (r : Bool × PinDocument) × (update cids json true kind (base (document g c) c) ≡ ok r)
        × Leaves g (insert_pin cids json g c kind).1 c r.1
  unfolding insert_pin base
  insert_pin-Leaves g c kind b a h = elim (read_cases g c a) [
    | inl (gone, nothing) ↦
        elim (Result-cases (update cids json true kind (new_document cids json c))) [
          | inl (x, failed) ↦
              ok_err (insert_pin cids json g c kind).0 b (unwrap_panic x) h
                (rw (insert_pin, gone, failed) refl)
          | inr (r, done) ↦
              (r, rw nothing done, rw (insert_pin, gone, done) (Leaves-insert g c r.1))
        ]
    | inr (raw, d, found, parsed, there) ↦ elim (Result-cases (update cids json true kind d)) [
      | inl (x, failed) ↦
          ok_err (insert_pin cids json g c kind).0 b (update_error x) h
            (rw (insert_pin, found, parsed, failed) refl)
      | inr (r, done) ↦ elim (Bool-cases r.0) [
        | inl changed ↦ (
          r,
          rw there done,
          rw (insert_pin, found, parsed, done, changed) (Leaves-insert g c r.1),
        )
        | inr same ↦ (
          r,
          rw there done,
          rw (insert_pin, found, parsed, done, same)
              (Leaves-Same g c r.1 (rw there (update-Same kind d r done same))),
        )
      ]
    ]
  ]
