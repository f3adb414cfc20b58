-- ===== src/Bitswap/SessionInterest.antt =====
-- packages/beetle-bitswap-next/src/client/session_interest_manager.rs: which session is interested
-- in which content id, and whether it still wants the block. Each method holds the lock from its
-- first line to its last, so it is one step on the map.
pub mod View
pub mod Removal
pub mod Splitting
pub mod Tests
use rust_ipfs.Base.{
  ℕ, zero, suc, ◌+◌, ◌-◌, ◌≤◌, ◌<◌, Bool, true, false, not, ◌&&◌, ◌||◌, ◌≡◌, refl, sym, ap, subst,
  ◌∙◌, ◌⊎◌, inl, inr, ◌↔◌, ◌≢◌, Option, none, some, List, [], ◌∷◌, ◌++◌, map, arith, if◌then◌else◌,
  All, length, length-append, is_empty, retain, ltb, leb, Eq, nat_eq, ◌==◌, ==_iff, ==_refl,
  Option-cases, Bool-cases, is_some,
}
use rust_ipfs.Base.Map
use rust_ipfs.Base.Map.{Map}
use rust_ipfs.Base.Set

-- Content ids to sessions to "still wanted".
abbrev pub Interests : Type 0 → Type 0
Interests Cid = Map Cid (Map ℕ Bool)

-- Some session has `true` for the key.
unfoldable pub any_true : List Bool → Bool
any_true [] = false
any_true (b ∷ bs) = b || any_true bs

-- The keys whose map of sessions is empty.
unfoldable pub idle_keys : {Cid : Type 0} → Interests Cid → List Cid
idle_keys [] = []
idle_keys ((key, sessions) ∷ wants) =
    if is_empty sessions then key ∷ idle_keys wants else idle_keys wants

-- The sessions of one key, gathered into a set.
unfoldable pub with_sessions : List ℕ → Option (Map ℕ Bool) → List ℕ
unfolding Map.keys Set.extend
with_sessions found none = found
with_sessions found (some sessions) = Set.extend found (Map.keys sessions)

module _ {Cid : Type 0} ⦃e : Eq Cid⦄ where
  unfoldable pub record_session_interest : Interests Cid → ℕ → List Cid → Interests Cid
  record_session_interest wants session [] = wants
  record_session_interest wants session (key ∷ keys) =
      record_session_interest
        (Map.insert wants key (Map.insert (Map.get_or wants key []) session true)) session keys

  -- The loop that drops the session from each key collects the keys that it leaves idle.
  unfoldable pub remove_session : Interests Cid → ℕ → Interests Cid × List Cid
  unfolding idle_keys Map.map_values
  remove_session wants session =
      let left = Map.map_values (λ sessions. Map.remove sessions session) wants in
      let deleted_keys = idle_keys left in (Map.remove_all left deleted_keys, deleted_keys)

  -- Marks the key as no longer wanted by the session, if it was interested.
  unfoldable pub unwant : Interests Cid → ℕ → Cid → Interests Cid
  unwant wants session key = elim (Map.get wants key) [
    | none ↦ wants
    | some sessions ↦ elim (Map.get sessions session) [
      | none ↦ wants
      | some wanted ↦
          if wanted then Map.insert wants key (Map.insert sessions session false) else wants
    ]
  ]

  unfoldable pub remove_session_wants : Interests Cid → ℕ → List Cid → Interests Cid
  unfolding unwant
  remove_session_wants wants session [] = wants
  remove_session_wants wants session (key ∷ keys) =
      remove_session_wants (unwant wants session key) session keys

  -- One round of the loop of `remove_session_interested`.
  unfoldable pub lose_interest : Interests Cid × List Cid → ℕ → Cid → Interests Cid × List Cid
  lose_interest (wants, deleted) session key = elim (Map.get wants key) [
    | none ↦ (wants, deleted)
    | some sessions ↦
        let left = Map.remove sessions session in
        (Map.insert wants key left, if is_empty left then deleted ++ key ∷ [] else deleted)
  ]

  unfoldable pub lose_interest_all :
      Interests Cid × List Cid → ℕ → List Cid → Interests Cid × List Cid
  unfolding lose_interest
  lose_interest_all state session [] = state
  lose_interest_all state session (key ∷ keys) =
      lose_interest_all (lose_interest state session key) session keys

  unfoldable pub remove_session_interested : Interests Cid → ℕ → List Cid → Interests Cid × List Cid
  unfolding lose_interest_all
  remove_session_interested wants session keys =
      let (left, deleted_keys) = lose_interest_all (wants, []) session keys in
      (Map.remove_all left deleted_keys, deleted_keys)

  -- `wants.get(key)` and then `wants.get(&session).copied().unwrap_or_default()`
  unfoldable pub is_wanted_by : Interests Cid → ℕ → Cid → Bool
  is_wanted_by wants session key = elim (Map.get wants key) [
    | none ↦ false
    | some sessions ↦ Map.get_or sessions session false
  ]

  unfoldable pub filter_session_interested : Interests Cid → ℕ → List (List Cid) → List (List Cid)
  unfolding is_wanted_by
  filter_session_interested wants session key_sets =
      map (retain (is_wanted_by wants session)) key_sets

  unfoldable pub is_wanted : Interests Cid → Cid → Bool
  unfolding any_true Map.values
  is_wanted wants key = elim (Map.get wants key) [
    | none ↦ false
    | some sessions ↦ any_true (Map.values sessions)
  ]

  -- The first loop of `split_wanted_unwanted`.
  unfoldable pub wanted_keys : Interests Cid → List Cid → List Cid → List Cid
  unfolding is_wanted
  wanted_keys wants found [] = found
  wanted_keys wants found (cid ∷ cids) =
      wanted_keys wants (if is_wanted wants cid then Set.insert found cid else found) cids

  -- A block is its content id and its bytes.
  unfoldable pub split_wanted_unwanted {ℓ} :
      {Bytes : Type ℓ}
      → Interests Cid
      → List (Cid × Bytes)
      → List (Cid × Bytes) × List (Cid × Bytes)
  unfolding wanted_keys
  split_wanted_unwanted wants blocks =
      let keys = wanted_keys wants [] (map (λ b. b.0) blocks) in
      (retain (λ b. Set.contains keys b.0) blocks, retain (λ b. not (Set.contains keys b.0)) blocks)

  unfoldable pub add_interested : Interests Cid → List ℕ → List Cid → List ℕ
  unfolding with_sessions
  add_interested wants found [] = found
  add_interested wants found (key ∷ keys) =
      add_interested wants (with_sessions found (Map.get wants key)) keys

  unfoldable pub interested_sessions : Interests Cid → List Cid → List Cid → List Cid → List ℕ
  unfolding add_interested
  interested_sessions wants blocks haves dont_haves =
      add_interested wants [] (blocks ++ haves ++ dont_haves)
