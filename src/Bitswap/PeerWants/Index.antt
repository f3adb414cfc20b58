-- ===== src/Bitswap/PeerWants/Index.antt =====
-- The state that every method keeps: each peer is tracked once, and the reverse index is right.
use rust_ipfs.Base.{refl, List, [], ◌∷◌, arith, if◌then◌else◌, is_empty, retain, Eq, nat_eq}
use rust_ipfs.Base.Map
use rust_ipfs.Base.Map.{Map}
use rust_ipfs.Base.Set
use rust_ipfs.Bitswap.PeerWants.{
  PeerWant, Manager, no_wants, add_peer, remove_peer, broadcast, send_wants, cancel_wants,
  cancel_all, send_cancels, cancel_peers, index_remove_all, send_blocks, send_haves,
}
use rust_ipfs.Bitswap.PeerWants.View.{wants_of, names-index_remove_all}
use rust_ipfs.Bitswap.PeerWants.Sending.{send_wants_state}
use rust_ipfs.Bitswap.PeerWants.Cancelling.{IsIndexed, send_cancels_lem}

module _ {Cid Peer : Type 0} ⦃c : Eq Cid⦄ ⦃p : Eq Peer⦄ where
  unfoldable pub empty : Manager Cid Peer
  empty = record { peer_wants = []; want_peers = []; broadcast_wants = [] }

  pub record IsValid (s : Manager Cid Peer) : Type 0 where
    pub distinct : Map.HasKeys s.peer_wants
    pub indexed : IsIndexed s

  empty-IsValid : IsValid empty
  unfolding empty Map.keys Map.get Set.contains
  empty-IsValid = record { distinct = tt; indexed = λ j r. refl }

  add_peer-IsValid : (s : Manager Cid Peer) (q : Peer) → IsValid s → IsValid (add_peer s q).0
  unfolding add_peer Map.contains_key Set.contains
  add_peer-IsValid s q v = record {
    distinct = ground (arith, Map.insert-HasKeys s.peer_wants q no_wants v.distinct);
    indexed = λ j r. ground (
      arith,
      v.indexed j r,
      Map.get-insert s.peer_wants q no_wants r,
      Map.get_same s.peer_wants q r,
    );
  }

  remove_peer-IsValid : (s : Manager Cid Peer) (q : Peer) → IsValid s → IsValid (remove_peer s q)
  unfolding remove_peer Set.contains
  remove_peer-IsValid s q v = record {
    distinct = ground (arith, Map.remove-HasKeys s.peer_wants q v.distinct);
    indexed = λ j r.
        let w = wants_of s q in
        ground (
          arith,
          v.indexed j r,
          Map.get-remove s.peer_wants q r,
          Map.get_same s.peer_wants q r,
          names-index_remove_all (index_remove_all s.want_peers w.want_blocks q) w.want_haves q j r,
          names-index_remove_all s.want_peers w.want_blocks q j r,
        );
  }

  broadcast-IsValid :
      (s : Manager Cid Peer) (haves : List Cid) (queues : List Peer)
      → IsValid s
      → IsValid (broadcast s haves queues).0
  unfolding broadcast
  broadcast-IsValid s haves queues v = record { distinct = v.distinct; indexed = v.indexed }

  send_wants-HasKeys :
      (s : Manager Cid Peer) (q : Peer) (blocks haves : List Cid)
      → Map.HasKeys s.peer_wants
      → Map.HasKeys (send_wants s q blocks haves).0.peer_wants
  unfolding send_wants
  send_wants-HasKeys s q blocks haves h =
      let first = send_blocks q blocks (wants_of s q) s.want_peers [] in
      let second = send_haves s.broadcast_wants q haves first.0 first.1 [] in
      ground (arith, Map.insert-HasKeys s.peer_wants q second.0 h)

  send_wants-IsValid :
      (s : Manager Cid Peer) (q : Peer) (blocks haves : List Cid)
      → IsValid s
      → IsValid (send_wants s q blocks haves).0
  send_wants-IsValid s q blocks haves v = record {
    distinct = send_wants-HasKeys s q blocks haves v.distinct;
    indexed = λ j r. ground (arith, v.indexed j r, send_wants_state s q blocks haves j r);
  }

  cancel_all-HasKeys :
      (bs bc cids : List Cid) (queues peers : List Peer) (m : Map Peer (PeerWant Cid))
      → Map.HasKeys m
      → Map.HasKeys (cancel_all bs bc cids queues peers m).0
  unfolding cancel_all
  cancel_all-HasKeys bs bc cids queues [] m h = h
  cancel_all-HasKeys bs bc cids queues (q ∷ peers) m h =
      let w = Map.get_or m q no_wants in
      let left = (cancel_wants bs cids w bc).0 in
      ground (
        arith,
        cancel_all-HasKeys bs bc cids queues peers m h,
        cancel_all-HasKeys bs bc cids queues peers (Map.insert m q left),
        Map.insert-HasKeys m q left h,
      )

  send_cancels-HasKeys :
      (s : Manager Cid Peer) (cids : List Cid) (queues : List Peer)
      → Map.HasKeys s.peer_wants
      → Map.HasKeys (send_cancels s cids queues).0.peer_wants
  unfolding send_cancels
  send_cancels-HasKeys s cids queues h =
      let bs = s.broadcast_wants in
      let bc = Set.extend [] (retain (Set.contains bs) cids) in
      let peers =
        if is_empty bc then cancel_peers s.want_peers cids [] else Map.keys s.peer_wants in
      ground (arith, cancel_all-HasKeys bs bc cids queues peers s.peer_wants h)

  send_cancels-IsValid :
      (s : Manager Cid Peer) (cids : List Cid) (queues : List Peer)
      → IsValid s
      → IsValid (send_cancels s cids queues).0
  send_cancels-IsValid s cids queues v = record {
    distinct = send_cancels-HasKeys s cids queues v.distinct;
    indexed = λ j r. ground (arith, v.indexed j r, send_cancels_lem s cids queues j r v.indexed);
  }

  -- The managers that calls lead to.
  pub data Reach : Manager Cid Peer → Type 0 where
    start : Reach empty
    added : {s : Manager Cid Peer} (q : Peer) → Reach s → Reach (add_peer s q).0
    removed : {s : Manager Cid Peer} (q : Peer) → Reach s → Reach (remove_peer s q)
    broadcasted :
        {s : Manager Cid Peer} (haves : List Cid) (queues : List Peer)
        → Reach s
        → Reach (broadcast s haves queues).0
    sent :
        {s : Manager Cid Peer} (q : Peer) (blocks haves : List Cid)
        → Reach s
        → Reach (send_wants s q blocks haves).0
    cancelled :
        {s : Manager Cid Peer} (cids : List Cid) (queues : List Peer)
        → Reach s
        → Reach (send_cancels s cids queues).0

  -- Whatever calls were made, each peer is tracked once, and the reverse index names a peer for a
  -- content id exactly where the peer is tracked with an outstanding want-block or want-have for it.
  pub Reach-IsValid : {s : Manager Cid Peer} → Reach s → IsValid s
  Reach-IsValid start = empty-IsValid
  Reach-IsValid (added {s} q r) = add_peer-IsValid s q (Reach-IsValid r)
  Reach-IsValid (removed {s} q r) = remove_peer-IsValid s q (Reach-IsValid r)
  Reach-IsValid (broadcasted {s} haves queues r) =
      broadcast-IsValid s haves queues (Reach-IsValid r)
  Reach-IsValid (sent {s} q blocks haves r) = send_wants-IsValid s q blocks haves (Reach-IsValid r)
  Reach-IsValid (cancelled {s} cids queues r) = send_cancels-IsValid s cids queues (Reach-IsValid r)
