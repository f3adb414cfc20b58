-- ===== src/Pins/RecursivePins.antt =====
-- What a recursive pin leaves in the store.
use rust_ipfs.Base.{
  ℕ, ◌+◌, Bool, true, ◌≡◌, refl, sym, ap, subst, ◌∙◌, inl, inr, List, [], ◌∷◌, arith, All, length,
  Eq, nat_eq, list_eq, ◌==◌, ==_iff, ==_refl, Bool-cases,
}
use rust_ipfs.Base.Set
use rust_ipfs.Pins.{
  Text, indirect_from, recursive_kind, recursive_intention, count, intent, PinDocument, PinError,
  Result, ok, err, Cids, Json, update_indirect,
}
use rust_ipfs.Pins.Store.{
  Store, to_v1, update, insert_pin, and_then, insert_refs, insert_recursive_pin,
}
use rust_ipfs.Pins.Documents.{ok_same, update_indirect_lem}
use rust_ipfs.Pins.Validity.{Result-cases, IsValid, insert_pin-IsValid}
use rust_ipfs.Pins.Reachable.{Reach, Reach-IsValid_store}
use rust_ipfs.Pins.Contents.{
  by_root, recursion, document, base, base-recursion, base-by_root, contains-update_indirect,
  update_intention_lem, update_recursive_lem, Leaves, insert_pin-Leaves, ok_err,
}

module _ {Cid : Type 0} ⦃e : Eq Cid⦄ (cids : Cids Cid) (json : Json) where
  abbrev pub root_text : Cid → Text
  root_text root = cids.to_text (to_v1 cids json root)

  -- Each document cids json says what it said of its own recursive pin.
  abbrev KeepsRecursion : Store Cid → Store Cid → Type 0
  KeepsRecursion g g' =
      (x : Cid) → recursion (document cids json g' x) ≡ recursion (document cids json g x)

  -- What is pinned through a root stays so.
  abbrev KeepsRoots : Store Cid → Store Cid → Type 0
  KeepsRoots g g' =
      (x : Cid) (t : Text)
      → by_root (document cids json g x) t ≡ true
      → by_root (document cids json g' x) t ≡ true

  Leaves-KeepsRecursion :
      (g g' : Store Cid) (c : Cid) (d : PinDocument)
      → Leaves cids json g g' c d
      → d.is_recursive ≡ recursion (document cids json g c)
      → KeepsRecursion g g'
  Leaves-KeepsRecursion g g' c d left same x = left.0 x ∙ elim (Bool-cases (c == x)) [
    | inl here ↦ rw here (same ∙ ap (λ y. recursion (document cids json g y)) ((==_iff c x).0 here))
    | inr other ↦ rw other refl
  ]

  Leaves-KeepsRoots :
      (g g' : Store Cid) (c : Cid) (d : PinDocument)
      → Leaves cids json g g' c d
      → ((t : Text)
          → by_root (document cids json g c) t ≡ true
          → Set.contains d.indirect_by t ≡ true)
      → KeepsRoots g g'
  Leaves-KeepsRoots g g' c d left more x t k = left.1 x t ∙ elim (Bool-cases (c == x)) [
    | inl here ↦
        rw here (more t (ap (λ y. by_root (document cids json g y) t) ((==_iff c x).0 here) ∙ k))
    | inr other ↦ rw other k
  ]

  insert_indirect_lem :
      (g : Store Cid) (c root : Cid) (b : Bool)
      → IsValid cids json g
      → (insert_pin cids json g c (indirect_from root)).0 ≡ ok b
      → let g' = (insert_pin cids json g c (indirect_from root)).1 in
        KeepsRecursion g g'
        × (by_root (document cids json g' c) (root_text root) ≡ true)
        × KeepsRoots g g'
  unfolding update
  insert_indirect_lem g c root b a h =
      let (r, done, left) = insert_pin-Leaves cids json g c (indirect_from root) b a h in
      let text = root_text root in
      let d = base cids json (document cids json g c) c in
      let s = ok_same (update_indirect true text d) r done in
      let kept =
        ap (λ r. r.1.is_recursive) (sym s)
        ∙ (update_indirect_lem cids json true text d).0
        ∙ base-recursion cids json (document cids json g c) c in
      let now = λ (t : Text).
        ap (λ r. Set.contains r.1.indirect_by t) (sym s)
        ∙ contains-update_indirect cids json text t d in
      (
        Leaves-KeepsRecursion g _ c r.1 left kept,
        left.1 c text ∙ rw (==_refl c) (now text ∙ rw (==_refl text) refl),
        Leaves-KeepsRoots g _ c r.1 left
            λ t k. now t ∙ ground (arith, k, base-by_root cids json (document cids json g c) c t),
      )

  insert_intention_lem :
      (g : Store Cid) (c : Cid) (b : Bool)
      → IsValid cids json g
      → (insert_pin cids json g c recursive_intention).0 ≡ ok b
      → recursion (document cids json (insert_pin cids json g c recursive_intention).1 c) ≡ intent
  unfolding update
  insert_intention_lem g c b a h =
      let (r, done, left) = insert_pin-Leaves cids json g c recursive_intention b a h in
      left.0 c
      ∙ rw (==_refl c)
          (update_intention_lem cids json (base cids json (document cids json g c) c) r done).0

  insert_count_lem :
      (g : Store Cid) (c : Cid) (n : ℕ) (b : Bool)
      → IsValid cids json g
      → recursion (document cids json g c) ≡ intent
      → (insert_pin cids json g c (recursive_kind n)).0 ≡ ok b
      → let g' = (insert_pin cids json g c (recursive_kind n)).1 in
        (recursion (document cids json g' c) ≡ count n) × KeepsRoots g g'
  unfolding update
  insert_count_lem g c n b a k h =
      let (r, done, left) = insert_pin-Leaves cids json g c (recursive_kind n) b a h in
      let d = base cids json (document cids json g c) c in
      let u =
        update_recursive_lem cids json n d r done
          (base-recursion cids json (document cids json g c) c ∙ k) in
      (
        left.0 c ∙ rw (==_refl c) u.0,
        Leaves-KeepsRoots g _ c r.1 left λ t p.
            ap (λ s. Set.contains s t) u.1
            ∙ base-by_root cids json (document cids json g c) c t
            ∙ p,
      )

  -- An entry that is a content id, pinned through a root.
  abbrev pub IsThrough : Store Cid → Cid → Result (PinError Cid) Cid → Type 0
  IsThrough g root entry =
      (x : Cid) × (entry ≡ ok x) × (by_root (document cids json g x) (root_text root) ≡ true)

  IsThrough-more :
      (g g' : Store Cid) (root : Cid) (refs : List (Result (PinError Cid) Cid))
      → KeepsRoots g g'
      → All (IsThrough g root) refs
      → All (IsThrough g' root) refs
  IsThrough-more g g' root [] k a = tt
  IsThrough-more g g' root (entry ∷ refs) k ((x, is, h), a) =
      ((x, is, k x (root_text root) h), IsThrough-more g g' root refs k a)

  abbrev Inserted : Store Cid → Store Cid → Cid → List (Result (PinError Cid) Cid) → ℕ → ℕ → Type 0
  Inserted g g' root refs n m =
      IsValid cids json g'
      × (m ≡ n + length refs)
      × KeepsRecursion g g'
      × KeepsRoots g g'
      × All (IsThrough g' root) refs

  insert_refs_lem :
      (g : Store Cid) (root : Cid) (refs : List (Result (PinError Cid) Cid)) (n m : ℕ)
      → IsValid cids json g
      → (insert_refs cids json g (indirect_from root) refs n).0 ≡ ok m
      → Inserted g (insert_refs cids json g (indirect_from root) refs n).1 root refs n m
  unfolding insert_refs
  insert_refs_lem g root [] n m a h =
      (a, sym (ok_same n m h) ∙ omega arith, λ x. refl, λ x t k. k, tt)
  insert_refs_lem g root (err failed ∷ refs) n m a h = ok_err (err failed) m failed h refl
  insert_refs_lem g root (ok next ∷ refs) n m a h =
      let kind = indirect_from root in
      elim (Result-cases (insert_pin cids json g next kind).0) [
        | inl (x, failed) ↦
            ok_err (insert_refs cids json g kind (ok next ∷ refs) n).0 m x h
              (rw (insert_refs, failed) refl)
        | inr (b, done) ↦
            let g1 = (insert_pin cids json g next kind).1 in
            let step : insert_refs cids json g kind (ok next ∷ refs) n
                ≡ insert_refs cids json g1 kind refs (n + 1) =
              rw (insert_refs, done) refl in
            let (kept, here, roots) = insert_indirect_lem g next root b a done in
            let (valid, total, kept', roots', all) =
              insert_refs_lem g1 root refs (n + 1) m (insert_pin-IsValid cids json g next kind a)
                (ap (λ r. r.0) (sym step) ∙ h) in
            subst (λ r. Inserted g r.1 root (ok next ∷ refs) n m) (sym step)
              (
                valid,
                omega (arith, total),
                λ x. kept' x ∙ kept x,
                λ x t k. roots' x t (roots x t k),
                ((next, refl, roots' next (root_text root) here), all),
              )
      ]

  -- Whatever calls were made on the store before, a recursive pin that succeeds leaves the root pinned
  -- recursively with as many descendants as the stream of references had entries, and each entry of
  -- the stream is a content id whose document names the root among those it is pinned through.
  pub insert_recursive_pin_lem :
      (g : Store Cid) (c : Cid) (refs : List (Result (PinError Cid) Cid))
      → Reach cids json g
      → (insert_recursive_pin cids json g c refs).0 ≡ ok tt
      → let g' = (insert_recursive_pin cids json g c refs).1 in
        (recursion (document cids json g' c) ≡ count (length refs))
        × All (IsThrough g' (to_v1 cids json c)) refs
  unfolding insert_recursive_pin
  insert_recursive_pin_lem g c refs reach h =
      let call = insert_recursive_pin cids json g c refs in
      let root = to_v1 cids json c in
      let a = Reach-IsValid_store cids json g reach in
      elim (Result-cases (insert_pin cids json g c recursive_intention).0) [
        | inl (x, failed) ↦ ok_err call.0 tt x h (rw (insert_recursive_pin, failed) refl)
        | inr (b, began) ↦
            let g1 = (insert_pin cids json g c recursive_intention).1 in
            let meant = insert_intention_lem g c b a began in
            let a1 = insert_pin-IsValid cids json g c recursive_intention a in
            elim (Result-cases (insert_refs cids json g1 (indirect_from root) refs 0).0) [
              | inl (x, failed) ↦
                  ok_err call.0 tt x h (rw (insert_recursive_pin, began, and_then, failed) refl)
              | inr (n, went) ↦
                  let g2 = (insert_refs cids json g1 (indirect_from root) refs 0).1 in
                  let (a2, total, kept, roots, all) = insert_refs_lem g1 root refs 0 n a1 went in
                  elim (Result-cases (insert_pin cids json g2 c (recursive_kind n)).0) [
                    | inl (x, failed) ↦
                        ok_err call.0 tt x h
                          (rw (insert_recursive_pin, began, and_then, went, failed) refl)
                    | inr (b', ended) ↦
                        let g3 = (insert_pin cids json g2 c (recursive_kind n)).1 in
                        let (counted, roots') =
                          insert_count_lem g2 c n b' a2 (kept c ∙ meant) ended in
                        rw (insert_recursive_pin, began, and_then, went, ended)
                          (
                            counted ∙ ap count (omega (arith, total)),
                            IsThrough-more g2 g3 root refs roots' all,
                          )
                  ]
            ]
      ]
