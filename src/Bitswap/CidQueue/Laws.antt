-- ===== src/Bitswap/CidQueue/Laws.antt =====
-- The queue as the list of the content ids that `pop` has yet to return.
use mathlib.Core.List.{append_assoc}
use rust_ipfs.Base.{
  Bool, true, false, ◌≡◌, refl, ap, ◌∙◌, Option, none, some, List, [], ◌∷◌, ◌++◌, arith, retain, Eq,
  nat_eq, ◌==◌, ==_refl,
}
use rust_ipfs.Base.Set
use rust_ipfs.Bitswap.CidQueue.{CidQueue, pop_loop, pop, push, remove, has}

abbrev pub head? {ℓ} : {A : Type ℓ} → List A → Option A
head? [] = none
head? (x ∷ xs) = some x

abbrev pub tail {ℓ} : {A : Type ℓ} → List A → List A
tail [] = []
tail (x ∷ xs) = xs

module _ {Cid : Type 0} ⦃e : Eq Cid⦄ where
  abbrev pub pending : CidQueue Cid → List Cid
  pending q = retain (Set.contains q.set) q.elements

  pop_loop_lem :
      (set els : List Cid)
      → ((pop_loop set els).0 ≡ head? (retain (Set.contains set) els))
        × (retain (Set.contains set) (pop_loop set els).1 ≡ tail (retain (Set.contains set) els))
  unfolding pop_loop
  pop_loop_lem set [] = (refl, refl)
  pop_loop_lem set (x ∷ els) = ground (arith, pop_loop_lem set els)

  -- `pop` takes the first pending content id off, or reports that there is none.
  pub pop_lem :
      (q : CidQueue Cid) → ((pop q).0 ≡ head? (pending q)) × (pending (pop q).1 ≡ tail (pending q))
  unfolding pop
  pop_lem q = pop_loop_lem q.set q.elements

  pop_loop_found :
      (set els : List Cid) (c : Cid) → (pop_loop set els).0 ≡ some c → Set.contains set c ≡ true
  unfolding pop_loop
  pop_loop_found set [] c h = cc
  pop_loop_found set (x ∷ els) c h = ground (arith, pop_loop_found set els c)

  -- A content id that `pop` has returned still counts as queued: `has` answers true for it, and to
  -- push it again changes nothing, so it is not fetched a second time until it is removed.
  pub push-pop :
      (q : CidQueue Cid) (c : Cid)
      → (pop q).0 ≡ some c
      → (has (pop q).1 c ≡ true) × (push (pop q).1 c ≡ (pop q).1)
  unfolding pop has push
  push-pop q c h = ground (arith, pop_loop_found q.set q.elements c)

  retain_agree :
      (a b xs : List Cid)
      → ((j : Cid) → Set.contains xs j ≡ true → Set.contains a j ≡ Set.contains b j)
      → retain (Set.contains a) xs ≡ retain (Set.contains b) xs
  unfolding Set.contains
  retain_agree a b [] h = refl
  retain_agree a b (x ∷ xs) h =
      ground
        (arith, h x (rw (==_refl x) refl), retain_agree a b xs (λ j m. h j (ground (arith, m))))

  retain-append :
      (p : Cid → Bool) (xs ys : List Cid) → retain p (xs ++ ys) ≡ retain p xs ++ retain p ys
  retain-append p [] ys = refl
  retain-append p (x ∷ xs) ys = ground (arith, retain-append p xs ys)

  -- A set that differs at one absent content id keeps the same elements.
  retain_other :
      (a b els : List Cid) (c : Cid)
      → ((j : Cid) → (c == j) ≡ false → Set.contains a j ≡ Set.contains b j)
      → Set.contains els c ≡ false
      → retain (Set.contains a) els ≡ retain (Set.contains b) els
  retain_other a b els c h k =
      retain_agree a b els λ j m. h j (ground (arith, Set.contains_same els c j))

  retain_last :
      (a els : List Cid) (c : Cid)
      → Set.contains a c ≡ true
      → retain (Set.contains a) (els ++ c ∷ []) ≡ retain (Set.contains a) els ++ c ∷ []
  retain_last a els c h = rw (retain-append (Set.contains a) els (c ∷ []), h)

  -- Pushing a content id that is queued changes nothing, and one that is new goes to the end.
  pub pending-push :
      (q : CidQueue Cid) (c : Cid)
      → (has q c ≡ true → push q c ≡ q)
        × (has q c ≡ false
            → Set.contains q.elements c ≡ false
            → pending (push q c) ≡ pending q ++ c ∷ [])
  unfolding has push
  pending-push q c = (
    λ h. rw h,
    λ h k.
        let a = Set.insert q.set c in
        rw (h, push)
          (retain_last a q.elements c (ground (arith, Set.contains-insert q.set c c, ==_refl c))
            ∙ ap (λ l. l ++ c ∷ [])
                (retain_other a q.set q.elements c
                  (λ j n. ground (arith, Set.contains-insert q.set c j)) k)),
  )

  -- A content id that is queued, removed and queued again is pending twice.
  pub pending-push_again :
      (q : CidQueue Cid) (c : Cid)
      → has q c ≡ false
      → Set.contains q.elements c ≡ false
      → pending (push (remove (push q c) c) c) ≡ pending q ++ c ∷ c ∷ []
  unfolding has push remove
  pending-push_again q c h k =
      let b = Set.remove (Set.insert q.set c) c in
      let a = Set.insert b c in
      let gone : Set.contains b c ≡ false =
        ground (arith, Set.contains-remove (Set.insert q.set c) c c, ==_refl c) in
      let here : Set.contains a c ≡ true = ground (arith, Set.contains-insert b c c, ==_refl c) in
      rw (h, push, gone)
        (retain_last a (q.elements ++ c ∷ []) c here
          ∙ ap (λ l. l ++ c ∷ []) (retain_last a q.elements c here)
          ∙ append_assoc (retain (Set.contains a) q.elements) (c ∷ []) (c ∷ [])
          ∙ ap (λ l. l ++ c ∷ c ∷ [])
              (retain_other a q.set q.elements c
                (λ j n. ground (
                  arith,
                  Set.contains-insert b c j,
                  Set.contains-remove (Set.insert q.set c) c j,
                  Set.contains-insert q.set c j,
                ))
                k))
