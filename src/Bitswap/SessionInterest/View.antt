-- ===== src/Bitswap/SessionInterest/View.antt =====
-- Which session is interested in which key, after each method.
use rust_ipfs.Base.{
  ℕ, Bool, true, false, ◌&&◌, ◌≡◌, refl, Option, none, some, List, [], ◌∷◌, arith, if◌then◌else◌,
  retain, Eq, nat_eq, ◌==◌, is_some,
}
use rust_ipfs.Base.Map
use rust_ipfs.Base.Map.{Map}
use rust_ipfs.Base.Set
use rust_ipfs.Bitswap.SessionInterest.{
  Interests, record_session_interest, unwant, remove_session_wants, is_wanted_by,
  filter_session_interested,
}

abbrev pub is_true : Option Bool → Bool
is_true none = false
is_true (some b) = b

module _ {Cid : Type 0} ⦃e : Eq Cid⦄ where
  -- `none` where the session is not interested, else whether it still wants the block.
  abbrev pub interest : Interests Cid → Cid → ℕ → Option Bool
  interest wants key session = Map.get (Map.get_or wants key []) session

  record-step :
      (w : Interests Cid) (s : ℕ) (k j : Cid) (t : ℕ)
      → interest (Map.insert w k (Map.insert (Map.get_or w k []) s true)) j t
        ≡ (if (k == j) && (s == t) then some true else interest w j t)
  record-step w s k j t =
      let sessions : Map ℕ Bool = Map.get_or w k [] in
      ground (
        arith,
        Map.get-insert w k (Map.insert sessions s true) j,
        Map.get-insert sessions s true t,
        Map.get_same w k j,
      )

  -- Asking for keys makes the session want exactly these keys in addition, and changes nothing for
  -- other sessions and other keys.
  pub interest-record :
      (w : Interests Cid) (s : ℕ) (ks : List Cid) (j : Cid) (t : ℕ)
      → interest (record_session_interest w s ks) j t
        ≡ (if Set.contains ks j && (s == t) then some true else interest w j t)
  unfolding record_session_interest Set.contains
  interest-record w s [] j t = refl
  interest-record w s (k ∷ ks) j t = ground (
    arith,
    record-step w s k j t,
    interest-record (Map.insert w k (Map.insert (Map.get_or w k []) s true)) s ks j t,
  )

  interest-unwant :
      (w : Interests Cid) (s : ℕ) (k j : Cid) (t : ℕ)
      → interest (unwant w s k) j t
        ≡ (if (k == j) && (s == t) && is_some (interest w j t) then some false else interest w j t)
  unfolding unwant Map.get
  interest-unwant w s k j t =
      let sessions : Map ℕ Bool = Map.get_or w k [] in
      ground (
        arith,
        Map.get-insert w k (Map.insert sessions s false) j,
        Map.get-insert sessions s false t,
        Map.get_same w k j,
        Map.get_same sessions s t,
      )

  -- When blocks arrive the session wants their keys no more, but stays interested in those that it
  -- was interested in; nothing changes for other sessions and other keys.
  pub interest-remove_session_wants :
      (w : Interests Cid) (s : ℕ) (ks : List Cid) (j : Cid) (t : ℕ)
      → interest (remove_session_wants w s ks) j t ≡ (
          if Set.contains ks j && (s == t) && is_some (interest w j t)
          then some false
          else interest w j t)
  unfolding remove_session_wants Set.contains
  interest-remove_session_wants w s [] j t = refl
  interest-remove_session_wants w s (k ∷ ks) j t =
      ground
        (arith, interest-unwant w s k j t, interest-remove_session_wants (unwant w s k) s ks j t)

  -- The sets of keys are filtered for those that the session still wants: a key whose block has
  -- arrived, in which the session is interested but which it no longer wants, is left out.
  pub filter_session_interested_lem :
      (w : Interests Cid) (s : ℕ) (keys : List Cid) (sets : List (List Cid)) (j : Cid)
      → (filter_session_interested w s (keys ∷ sets)
          ≡ retain (is_wanted_by w s) keys ∷ filter_session_interested w s sets)
        × (Set.contains (retain (is_wanted_by w s) keys) j
            ≡ (is_true (interest w j s) && Set.contains keys j))
  unfolding filter_session_interested is_wanted_by Map.get
  filter_session_interested_lem w s keys sets j =
      (refl, ground (arith, Set.contains-retain (is_wanted_by w s) keys j))
