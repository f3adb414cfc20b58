-- ===== src/Bitswap/PeerWants/View.antt =====
-- The wants and the reverse index as tests on a peer and a content id.
use rust_ipfs.Base.{Bool, not, ◌&&◌, ◌||◌, ◌≡◌, List, [], ◌∷◌, arith, Eq, nat_eq, ◌==◌}
use rust_ipfs.Base.Map
use rust_ipfs.Base.Map.{Map}
use rust_ipfs.Base.Set
use rust_ipfs.Bitswap.PeerWants.{
  PeerWant, Manager, no_wants, reverse_index_remove, index_remove_all, index_insert,
}

module _ {Cid Peer : Type 0} ⦃c : Eq Cid⦄ ⦃p : Eq Peer⦄ where
  -- The wants of a peer; those of a peer that is not tracked are empty.
  abbrev pub wants_of : Manager Cid Peer → Peer → PeerWant Cid
  wants_of s q = Map.get_or s.peer_wants q no_wants

  -- The reverse index names the peer for the content id.
  abbrev pub names : Map Cid (List Peer) → Cid → Peer → Bool
  names index d q = Set.contains (Map.get_or index d []) q

  pub names-index_insert :
      (m : Map Cid (List Peer)) (d : Cid) (q : Peer) (j : Cid) (r : Peer)
      → names (index_insert m d q) j r ≡ (((d == j) && (q == r)) || names m j r)
  unfolding index_insert
  names-index_insert m d q j r =
      let peers : List Peer = Map.get_or m d [] in
      ground (
        arith,
        Map.get-insert m d (Set.insert peers q) j,
        Map.get_same m d j,
        Set.contains-insert peers q r,
      )

  pub names-reverse_index_remove :
      (m : Map Cid (List Peer)) (d : Cid) (q : Peer) (j : Cid) (r : Peer)
      → names (reverse_index_remove m d q) j r ≡ (not ((d == j) && (q == r)) && names m j r)
  unfolding reverse_index_remove Set.contains
  names-reverse_index_remove m d q j r =
      let peers : List Peer = Map.get_or m d [] in
      ground (
        arith,
        Map.get-insert m d (Set.remove peers q) j,
        Map.get-remove m d j,
        Map.get_same m d j,
        Set.contains-remove peers q r,
      )

  pub names-index_remove_all :
      (m : Map Cid (List Peer)) (ds : List Cid) (q : Peer) (j : Cid) (r : Peer)
      → names (index_remove_all m ds q) j r ≡ (not (Set.contains ds j && (q == r)) && names m j r)
  unfolding index_remove_all Set.contains
  names-index_remove_all m [] q j r = ground arith
  names-index_remove_all m (d ∷ ds) q j r = ground (
    arith,
    names-reverse_index_remove m d q j r,
    names-index_remove_all (reverse_index_remove m d q) ds q j r,
  )
