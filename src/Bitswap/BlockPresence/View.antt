-- ===== src/Bitswap/BlockPresence/View.antt =====
-- What is known of a peer and a block, after each method.
use rust_ipfs.Base.{
  Bool, true, false, ◌&&◌, ◌≡◌, refl, ◌↔◌, Option, none, some, List, [], ◌∷◌, arith, if◌then◌else◌,
  All, Eq, nat_eq, ◌==◌, is_some,
}
use rust_ipfs.Base.Map
use rust_ipfs.Base.Map.{Map}
use rust_ipfs.Base.Set
use rust_ipfs.Bitswap.BlockPresence.{
  Presence, update_block_presence, update_all, receive_from, peer_has_block,
  peer_does_not_have_block, none_has, all_dont_have, all_peers_do_not_have_block, has_key,
}

-- What is known once a peer has said `present`: a HAVE stays.
abbrev pub learn : Option Bool → Bool → Option Bool
learn (some true) present = some true
learn _ present = some present

module _ {Peer : Type 0} ⦃p : Eq Peer⦄ where
  none_has-All :
      (ps : Map Peer Bool) (peers : List Peer)
      → (none_has ps peers ≡ true) ↔ All (λ q. Map.get ps q ≡ some false) peers
  unfolding none_has
  none_has-All ps [] = (λ _. tt, λ _. refl)
  none_has-All ps (q ∷ peers) = ground (arith, none_has-All ps peers)

  none_has_iff :
      (o : Option (Map Peer Bool)) (peers : List Peer)
      → ((elim o [ none ↦ false | some ps ↦ none_has ps peers ]) ≡ true) ↔ (
          (is_some o ≡ true)
          × All (λ q. Map.get (elim o [ none ↦ [] | some ps ↦ ps ]) q ≡ some false) peers)
  none_has_iff none peers = (λ h. cc, λ h. cc (h.0))
  none_has_iff (some ps) peers =
      (λ h. (refl, (none_has-All ps peers).0 h), λ h. (none_has-All ps peers).1 h.1)

module _ {Cid Peer : Type 0} ⦃c : Eq Cid⦄ ⦃p : Eq Peer⦄ where
  -- `some true` after a HAVE, `some false` after a DONT_HAVE only.
  abbrev pub known : Presence Cid Peer → Cid → Peer → Option Bool
  known presence cid peer = Map.get (Map.get_or presence cid []) peer

  known-update_block_presence :
      (m : Presence Cid Peer) (q : Peer) (k : Cid) (b : Bool) (j : Cid) (r : Peer)
      → known (update_block_presence m q k b) j r
        ≡ (if (k == j) && (q == r) then learn (known m j r) b else known m j r)
  unfolding update_block_presence
  known-update_block_presence m q k b j r =
      let entry : Map Peer Bool = Map.get_or m k [] in
      ground (
        arith,
        Map.get-insert m k entry j,
        Map.get-insert m k (Map.insert entry q b) j,
        Map.get-insert entry q b r,
        Map.get_same m k j,
        Map.get_same entry q r,
      )

  known-update_all :
      (m : Presence Cid Peer) (q : Peer) (ks : List Cid) (b : Bool) (j : Cid) (r : Peer)
      → known (update_all m q ks b) j r
        ≡ (if Set.contains ks j && (q == r) then learn (known m j r) b else known m j r)
  unfolding update_all Set.contains
  known-update_all m q [] b j r = refl
  known-update_all m q (k ∷ ks) b j r = ground (
    arith,
    known-update_all (update_block_presence m q k b) q ks b j r,
    known-update_block_presence m q k b j r,
  )

  -- After a message from a peer with HAVEs and DONT_HAVEs: for this peer and a listed key, a HAVE of
  -- this message or an earlier one is kept, else the DONT_HAVE is; nothing else changes.
  pub known-receive_from :
      (m : Presence Cid Peer) (q : Peer) (haves dont_haves : List Cid) (j : Cid) (r : Peer)
      → known (receive_from m q haves dont_haves) j r ≡ (
          if q == r
          then (if Set.contains haves j
              then some true
              else if Set.contains dont_haves j
              then learn (known m j r) false
              else known m j r)
          else known m j r)
  unfolding receive_from
  known-receive_from m q haves dont_haves j r = ground (
    arith,
    known-update_all m q haves true j r,
    known-update_all (update_all m q haves true) q dont_haves false j r,
  )

  -- The two answers, in terms of what is known of the peer.
  pub presence_answers :
      (m : Presence Cid Peer) (q : Peer) (k : Cid)
      → ((peer_has_block m q k ≡ true) ↔ (known m k q ≡ some true))
        × ((peer_does_not_have_block m q k ≡ true) ↔ (known m k q ≡ some false))
  unfolding peer_has_block peer_does_not_have_block Map.get
  presence_answers m q k = ground arith

  all_dont_have_iff :
      (m : Presence Cid Peer) (peers : List Peer) (j : Cid)
      → (all_dont_have m peers j ≡ true)
        ↔ ((has_key m j ≡ true) × All (λ q. known m j q ≡ some false) peers)
  unfolding all_dont_have has_key Map.contains_key
  all_dont_have_iff m peers j = none_has_iff (Map.get m j) peers

  -- The keys that are returned are those of the given ones that are tracked and that every given
  -- peer is known not to have.
  pub all_peers_do_not_have_block_lem :
      (m : Presence Cid Peer) (peers : List Peer) (keys : List Cid) (j : Cid)
      → (Set.contains (all_peers_do_not_have_block m peers keys) j ≡ true) ↔ (
          (Set.contains keys j ≡ true)
          × (has_key m j ≡ true)
          × All (λ q. known m j q ≡ some false) peers)
  unfolding all_peers_do_not_have_block
  all_peers_do_not_have_block_lem m peers keys j =
      ground
        (arith, Set.contains-retain (all_dont_have m peers) keys j, all_dont_have_iff m peers j)
