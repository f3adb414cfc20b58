-- ===== src/Bitswap/SessionInterest/Removal.antt =====
-- Sessions that lose their interest, and the keys that nobody is interested in afterwards.
use rust_ipfs.Base.{
  ℕ, Bool, true, false, ◌&&◌, ◌||◌, ◌≡◌, refl, ◌≢◌, Option, none, some, List, [], ◌∷◌, arith,
  if◌then◌else◌, is_empty, Eq, nat_eq, ◌==◌,
}
use rust_ipfs.Base.Map
use rust_ipfs.Base.Map.{Map}
use rust_ipfs.Base.Set
use rust_ipfs.Bitswap.SessionInterest.{
  Interests, idle_keys, remove_session, lose_interest, lose_interest_all, remove_session_interested,
}
use rust_ipfs.Bitswap.SessionInterest.View.{interest}

-- Without the session, the key's map of sessions is empty.
abbrev pub leaves_idle : Option (Map ℕ Bool) → ℕ → Bool
leaves_idle none s = false
leaves_idle (some sessions) s = is_empty (Map.remove sessions s)

leaves_idle-none :
    (o : Option (Map ℕ Bool)) (s t : ℕ)
    → leaves_idle o s ≡ true
    → s ≢ t
    → Map.get (elim o [ none ↦ [] | some m ↦ m ]) t ≡ none
unfolding Map.get
leaves_idle-none none s t h n = cc
leaves_idle-none (some m) s t h n = ground (arith, Map.get-remove m s t)

module _ {Cid : Type 0} ⦃e : Eq Cid⦄ where
  interest-lose_interest :
      (w : Interests Cid) (d : List Cid) (s : ℕ) (k j : Cid) (t : ℕ)
      → interest (lose_interest (w, d) s k).0 j t
        ≡ (if (k == j) && (s == t) then none else interest w j t)
  unfolding lose_interest Map.get
  interest-lose_interest w d s k j t =
      let sessions : Map ℕ Bool = Map.get_or w k [] in
      ground (
        arith,
        Map.get-insert w k (Map.remove sessions s) j,
        Map.get-remove sessions s t,
        Map.get_same w k j,
      )

  -- The keys with no session left are those that the loop has collected and that were idle before.
  interest-remove_all :
      (w : Interests Cid) (ks : List Cid) (j : Cid) (t : ℕ)
      → interest (Map.remove_all w ks) j t ≡ (if Set.contains ks j then none else interest w j t)
  unfolding Map.get
  interest-remove_all w ks j t = ground (arith, Map.get-remove_all w ks j)

  leaves_idle-lose_interest :
      (w : Interests Cid) (d : List Cid) (s : ℕ) (k j : Cid)
      → leaves_idle (Map.get (lose_interest (w, d) s k).0 j) s ≡ leaves_idle (Map.get w j) s
  unfolding lose_interest
  leaves_idle-lose_interest w d s k j =
      let sessions : Map ℕ Bool = Map.get_or w k [] in
      ground (
        arith,
        Map.get-insert w k (Map.remove sessions s) j,
        Map.get_same w k j,
        Map.remove_twice sessions s,
      )

  contains-lose_interest :
      (w : Interests Cid) (d : List Cid) (s : ℕ) (k j : Cid)
      → Set.contains (lose_interest (w, d) s k).1 j
        ≡ (Set.contains d j || ((k == j) && leaves_idle (Map.get w j) s))
  unfolding lose_interest Set.contains
  contains-lose_interest w d s k j =
      ground (arith, Set.contains-append d (k ∷ []) j, Map.get_same w k j)

  lose_interest_all_lem :
      (w : Interests Cid) (d : List Cid) (s : ℕ) (ks : List Cid) (j : Cid) (t : ℕ)
      → (interest (lose_interest_all (w, d) s ks).0 j t
          ≡ (if Set.contains ks j && (s == t) then none else interest w j t))
        × (Set.contains (lose_interest_all (w, d) s ks).1 j
            ≡ (Set.contains d j || (Set.contains ks j && leaves_idle (Map.get w j) s)))
  unfolding lose_interest_all Set.contains
  lose_interest_all_lem w d s [] j t = (refl, ground arith)
  lose_interest_all_lem w d s (k ∷ ks) j t = ground (
    arith,
    interest-lose_interest w d s k j t,
    leaves_idle-lose_interest w d s k j,
    contains-lose_interest w d s k j,
    lose_interest_all_lem (lose_interest (w, d) s k).0 (lose_interest (w, d) s k).1 s ks j t,
  )

  -- Cancelling a request: the session loses its interest in the given keys, every other interest
  -- stays, and the keys that are returned are those of the given ones that were tracked and in
  -- which no other session is interested.
  pub remove_session_interested_lem :
      (w : Interests Cid) (s : ℕ) (ks : List Cid) (j : Cid) (t : ℕ)
      → (interest (remove_session_interested w s ks).0 j t
          ≡ (if Set.contains ks j && (s == t) then none else interest w j t))
        × (Set.contains (remove_session_interested w s ks).1 j
            ≡ (Set.contains ks j && leaves_idle (Map.get w j) s))
  unfolding remove_session_interested Set.contains
  remove_session_interested_lem w s ks j t =
      let left = (lose_interest_all (w, []) s ks).0 in
      let deleted = (lose_interest_all (w, []) s ks).1 in
      ground (
        arith,
        lose_interest_all_lem w [] s ks j t,
        interest-remove_all left deleted j t,
        leaves_idle-none (Map.get w j) s t,
      )

  contains-idle_keys_absent :
      (m : Interests Cid) (j : Cid) → Map.get m j ≡ none → Set.contains (idle_keys m) j ≡ false
  unfolding idle_keys Map.get Set.contains
  contains-idle_keys_absent [] j h = refl
  contains-idle_keys_absent ((k, sessions) ∷ m) j h = ground (arith, contains-idle_keys_absent m j)

  contains-idle_keys :
      (m : Interests Cid) (j : Cid)
      → Map.HasKeys m
      → Set.contains (idle_keys m) j
        ≡ (elim (Map.get m j) [ none ↦ false | some sessions ↦ is_empty sessions ])
  unfolding idle_keys Map.get Map.keys Set.contains
  contains-idle_keys [] j h = refl
  contains-idle_keys ((k, sessions) ∷ m) j h = ground (
    arith,
    contains-idle_keys m j h.1,
    contains-idle_keys_absent m j,
    Map.contains-keys m k,
    Map.get_same m k j,
  )

  -- Ending a session, on a map that holds each key once: the session is interested in nothing, every
  -- other interest stays, and the keys that are returned are exactly those that were tracked and in
  -- which no other session is interested.
  pub remove_session_lem :
      (w : Interests Cid) (s : ℕ) (j : Cid) (t : ℕ)
      → Map.HasKeys w
      → (interest (remove_session w s).0 j t ≡ (if s == t then none else interest w j t))
        × (Set.contains (remove_session w s).1 j ≡ leaves_idle (Map.get w j) s)
  unfolding remove_session Map.get
  remove_session_lem w s j t h =
      let drop = λ (sessions : Map ℕ Bool). Map.remove sessions s in
      let left = Map.map_values drop w in
      let sessions : Map ℕ Bool = Map.get_or w j [] in
      ground (
        arith,
        contains-idle_keys left j (rw (Map.keys-map_values drop w) h),
        Map.get-map_values drop w j,
        interest-remove_all left (idle_keys left) j t,
        Map.get-remove sessions s t,
        leaves_idle-none (Map.get w j) s t,
      )
