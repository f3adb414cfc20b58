-- ===== src/Bitswap/SessionInterest/Splitting.antt =====
-- Blocks that some session still wants, and the sessions that a message concerns.
use rust_ipfs.Base.{
  ℕ, Bool, true, false, not, ◌&&◌, ◌||◌, ◌≡◌, ◌↔◌, refl, ap, inl, inr, some, List, [], ◌∷◌, ◌++◌,
  map, arith, if◌then◌else◌, All, retain, Eq, nat_eq, ==_iff, ==_refl, Option-cases, is_some,
}
use rust_ipfs.Base.Map
use rust_ipfs.Base.Map.{Map}
use rust_ipfs.Base.Set
use rust_ipfs.Bitswap.SessionInterest.{
  Interests, any_true, is_wanted, wanted_keys, split_wanted_unwanted, add_interested,
  interested_sessions, with_sessions,
}
use rust_ipfs.Bitswap.SessionInterest.View.{interest}

-- A session in the map whose flag is set.
any_true-session :
    (m : Map ℕ Bool)
    → Map.HasKeys m
    → any_true (Map.values m) ≡ true
    → (t : ℕ) × (Map.get m t ≡ some true)
unfolding any_true Map.values Map.get Map.keys
any_true-session [] h a = cc
any_true-session ((k, true) ∷ m) h a = (k, rw (==_refl k) refl)
any_true-session ((k, false) ∷ m) h a =
    let (t, found) = any_true-session m h.1 a in (t, ground (arith, Map.contains-keys m k, found))

session-any_true :
    (m : Map ℕ Bool) (t : ℕ) → Map.get m t ≡ some true → any_true (Map.values m) ≡ true
unfolding any_true Map.values Map.get
session-any_true [] t h = cc
session-any_true ((k, b) ∷ m) t h = ground (arith, session-any_true m t)

retain_same {ℓ} :
    {A : Type ℓ} (p q : A → Bool) (xs : List A)
    → All (λ x. p x ≡ q x) xs
    → retain p xs ≡ retain q xs
retain_same p q [] h = refl
retain_same p q (x ∷ xs) h = ground (arith, retain_same p q xs h.1)

module _ {Bytes : Type 0} {Cid : Type 0} ⦃e : Eq Cid⦄ where
  -- Every entry of a list has its key among the keys.
  All-keyed :
      (ks : List Cid) (xs : List (Cid × Bytes))
      → ((k : Cid) → Set.contains (map (λ b. b.0) xs) k ≡ true → Set.contains ks k ≡ true)
      → All (λ b. Set.contains ks b.0 ≡ true) xs
  unfolding Set.contains
  All-keyed ks [] h = tt
  All-keyed ks ((k, b) ∷ xs) h =
      (h k (rw (==_refl k) refl), All-keyed ks xs (λ j more. h j (ground arith)))

module _ {Cid : Type 0} ⦃e : Eq Cid⦄ where
  contains-wanted_keys :
      (w : Interests Cid) (found ks : List Cid) (j : Cid)
      → Set.contains (wanted_keys w found ks) j
        ≡ (Set.contains found j || (Set.contains ks j && is_wanted w j))
  unfolding wanted_keys Set.contains
  contains-wanted_keys w found [] j = ground arith
  contains-wanted_keys w found (k ∷ ks) j = ground (
    arith,
    contains-wanted_keys w (if is_wanted w k then Set.insert found k else found) ks j,
    Set.contains-insert found k j,
    ==_iff k j,
    λ (h : k ≡ j). ap (is_wanted w) h,
  )

  -- A key is wanted exactly where some session still wants it, its sessions standing once each.
  pub is_wanted_lem :
      (w : Interests Cid) (j : Cid)
      → ((m : Map ℕ Bool) → Map.get w j ≡ some m → Map.HasKeys m)
      → (is_wanted w j ≡ true) ↔ ((t : ℕ) × (interest w j t ≡ some true))
  unfolding is_wanted Map.get
  is_wanted_lem w j h = elim (Option-cases (Map.get w j)) [
    | inl gone ↦ (λ a. absurd (ground arith), λ (t, a). ground arith)
    | inr (m, found) ↦ (
      λ a. let (t, b) = any_true-session m (h m found) (ground arith) in (t, ground arith),
      λ (t, a). ground (arith, session-any_true m t),
    )
  ]

  flags_agree :
      {Bytes : Type 0} (w : Interests Cid) (g : Bool → Bool) (ks : List Cid)
      (xs : List (Cid × Bytes))
      → All (λ b. Set.contains ks b.0 ≡ true) xs
      → All (λ b. g (Set.contains (wanted_keys w [] ks) b.0) ≡ g (is_wanted w b.0)) xs
  unfolding Set.contains
  flags_agree w g ks [] h = tt
  flags_agree w g ks (b ∷ xs) h =
      (ap g (ground (arith, contains-wanted_keys w [] ks b.0)), flags_agree w g ks xs h.1)

  -- The blocks fall, in their order, into those that some session still wants and the others.
  pub split_wanted_unwanted_lem :
      {Bytes : Type 0} (w : Interests Cid) (blocks : List (Cid × Bytes))
      → (split_wanted_unwanted w blocks).0 ≡ retain (λ b. is_wanted w b.0) blocks
        × (split_wanted_unwanted w blocks).1 ≡ retain (λ b. not (is_wanted w b.0)) blocks
  unfolding split_wanted_unwanted
  split_wanted_unwanted_lem w blocks =
      let ks = map (λ b. b.0) blocks in
      let keyed = All-keyed ks blocks (λ k h. h) in
      (
        retain_same _ _ blocks (flags_agree w (λ x. x) ks blocks keyed),
        retain_same _ _ blocks (flags_agree w not ks blocks keyed),
      )

  unfoldable pub any_interested : Interests Cid → List Cid → ℕ → Bool
  any_interested w [] s = false
  any_interested w (k ∷ ks) s = is_some (interest w k s) || any_interested w ks s

  any_interested-append :
      (w : Interests Cid) (xs ys : List Cid) (s : ℕ)
      → any_interested w (xs ++ ys) s ≡ (any_interested w xs s || any_interested w ys s)
  unfolding any_interested
  any_interested-append w [] ys s = refl
  any_interested-append w (x ∷ xs) ys s = ground (arith, any_interested-append w xs ys s)

  contains-add_interested :
      (w : Interests Cid) (found : List ℕ) (ks : List Cid) (s : ℕ)
      → Set.contains (add_interested w found ks) s ≡ (Set.contains found s || any_interested w ks s)
  unfolding add_interested any_interested Map.get
  contains-add_interested w found [] s = ground arith
  contains-add_interested w found (k ∷ ks) s =
      let sessions : Map ℕ Bool = Map.get_or w k [] in
      ground (
        arith,
        contains-add_interested w (with_sessions found (Map.get w k)) ks s,
        Set.contains-extend found (Map.keys sessions) s,
        Map.contains-keys sessions s,
      )

  -- The sessions that a message concerns are those interested in one of its keys.
  pub interested_sessions_lem :
      (w : Interests Cid) (blocks haves dont_haves : List Cid) (s : ℕ)
      → Set.contains (interested_sessions w blocks haves dont_haves) s
        ≡ (any_interested w blocks s || (any_interested w haves s || any_interested w dont_haves s))
  unfolding interested_sessions Set.contains
  interested_sessions_lem w blocks haves dont_haves s = ground (
    arith,
    contains-add_interested w [] (blocks ++ haves ++ dont_haves) s,
    any_interested-append w (blocks ++ haves) dont_haves s,
    any_interested-append w blocks haves s,
  )
