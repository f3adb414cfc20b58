-- ===== src/Bitswap/PeerWants/Cancelling.antt =====
-- `send_cancels`: which peers are told, and what is left.
use rust_ipfs.Base.{
  Bool, true, false, not, ◌&&◌, ◌||◌, ◌≡◌, refl, ◌∙◌, inl, inr, some, List, [], ◌∷◌, ◌++◌, arith,
  if◌then◌else◌, is_empty, retain, Eq, nat_eq, ◌==◌, Option-cases, is_some,
}
use rust_ipfs.Base.Map
use rust_ipfs.Base.Map.{Map}
use rust_ipfs.Base.Set
use rust_ipfs.Bitswap.PeerWants.{
  PeerWant, Manager, Message, cancels, wants, broadcast_want_haves, no_wants, is_sent, cancel_wants,
  cancel_peers, cancel_all, send_cancels,
}
use rust_ipfs.Bitswap.PeerWants.View.{wants_of, names}

module _ {Cid : Type 0} ⦃c : Eq Cid⦄ where
  cancel_wants_lem :
      (bs cids : List Cid) (w : PeerWant Cid) (out : List Cid) (j : Cid)
      → let (w', out') = cancel_wants bs cids w out in
        (Set.contains w'.want_blocks j
          ≡ (not (Set.contains cids j) && Set.contains w.want_blocks j))
        × (Set.contains w'.want_haves j
            ≡ (not (Set.contains cids j) && Set.contains w.want_haves j))
        × (Set.contains out' j ≡ (
            Set.contains out j
            || (Set.contains cids j && (is_sent w j && not (Set.contains bs j)))))
  unfolding cancel_wants Set.contains
  cancel_wants_lem bs [] w out j = ground arith
  cancel_wants_lem bs (d ∷ cids) w out j = ground (
    arith,
    cancel_wants_lem bs cids
        (if is_sent w d
          then (record {
            want_blocks = Set.remove w.want_blocks d;
            want_haves = Set.remove w.want_haves d;
          })
          else w)
        (if is_sent w d && not (Set.contains bs d) then Set.insert out d else out) j,
    Set.contains-remove w.want_blocks d j,
    Set.contains-remove w.want_haves d j,
    Set.contains_same w.want_haves d j,
    Set.contains_same w.want_blocks d j,
    Set.contains_same bs d j,
    Set.contains-insert out d j,
  )

module _ {Cid Peer : Type 0} ⦃c : Eq Cid⦄ ⦃p : Eq Peer⦄ where
  contains-cancel_peers_old :
      (m : Map Cid (List Peer)) (cids : List Cid) (peers : List Peer) (r : Peer)
      → Set.contains peers r ≡ true
      → Set.contains (cancel_peers m cids peers) r ≡ true
  unfolding cancel_peers
  contains-cancel_peers_old m [] peers r h = h
  contains-cancel_peers_old m (d ∷ cids) peers r h =
      let named : List Peer = Map.get_or m d [] in
      contains-cancel_peers_old m cids (Set.extend peers named) r
        (ground (arith, Set.contains-extend peers named r))

  contains-cancel_peers :
      (m : Map Cid (List Peer)) (cids : List Cid) (peers : List Peer) (j : Cid) (r : Peer)
      → Set.contains cids j ≡ true
      → names m j r ≡ true
      → Set.contains (cancel_peers m cids peers) r ≡ true
  unfolding cancel_peers Set.contains
  contains-cancel_peers m [] peers j r h k = cc
  contains-cancel_peers m (d ∷ cids) peers j r h k =
      let named : List Peer = Map.get_or m d [] in
      ground (
        arith,
        contains-cancel_peers m cids (Set.extend peers named) j r,
        contains-cancel_peers_old m cids (Set.extend peers named) r,
        Set.contains-extend peers named r,
        Map.get_same m d j,
      )

  cancel_all_state :
      (bs bc cids : List Cid) (queues peers : List Peer) (m : Map Peer (PeerWant Cid)) (j : Cid)
      (r : Peer)
      → let left = (cancel_all bs bc cids queues peers m).0 in
        let cancelled = Set.contains peers r && Set.contains cids j in
        (Map.contains_key left r ≡ Map.contains_key m r)
        × (Set.contains (Map.get_or left r no_wants).want_blocks j
            ≡ (not cancelled && Set.contains (Map.get_or m r no_wants).want_blocks j))
        × (Set.contains (Map.get_or left r no_wants).want_haves j
            ≡ (not cancelled && Set.contains (Map.get_or m r no_wants).want_haves j))
  unfolding cancel_all Set.contains Map.contains_key
  cancel_all_state bs bc cids queues [] m j r = ground arith
  cancel_all_state bs bc cids queues (q ∷ peers) m j r =
      let w = Map.get_or m q no_wants in
      let left = (cancel_wants bs cids w bc).0 in
      ground (
        arith,
        cancel_all_state bs bc cids queues peers m j r,
        cancel_all_state bs bc cids queues peers (Map.insert m q left) j r,
        cancel_wants_lem bs cids w bc j,
        Map.get-insert m q left r,
        Map.get_same m q r,
      )

  -- The peer is told to cancel the content id.
  pub told : List (Peer × Message Cid) → Peer → Cid → Bool
  told [] r j = false
  told ((q, cancels ds) ∷ out) r j = ((q == r) && Set.contains ds j) || told out r j
  told ((q, wants ds es) ∷ out) r j = told out r j
  told ((q, broadcast_want_haves ds) ∷ out) r j = told out r j

  told_nil : (r : Peer) (j : Cid) → told [] r j ≡ false
  unfolding told
  told_nil r j = refl

  -- One message in front, where there is something to cancel and a queue.
  told-cons :
      (queues : List Peer) (q : Peer) (ds : List Cid) (out : List (Peer × Message Cid)) (r : Peer)
      (j : Cid)
      → told
          ((if not (is_empty ds) && Set.contains queues q then (q, cancels ds) ∷ [] else []) ++ out)
          r
          j
        ≡ (((q == r) && (Set.contains queues r && Set.contains ds j)) || told out r j)
  unfolding told Set.contains
  told-cons queues q ds out r j = ground (arith, Set.contains_same queues q r)

  told-cancel_one :
      (bs bc cids : List Cid) (queues : List Peer) (q : Peer) (peers : List Peer)
      (m : Map Peer (PeerWant Cid)) (w : PeerWant Cid) (j : Cid) (r : Peer) (rest : Bool)
      → Map.get m q ≡ some w
      → (let m' = Map.insert m q (cancel_wants bs cids w bc).0 in
          rest ≡ (
            (Set.contains peers r && (Set.contains queues r && is_some (Map.get m' r)))
            && (Set.contains bc j
                || (Set.contains cids j
                    && (is_sent (Map.get_or m' r no_wants) j && not (Set.contains bs j))))))
      → (((q == r) && (Set.contains queues r && Set.contains (cancel_wants bs cids w bc).1 j))
          || rest)
        ≡ ((((q == r) || Set.contains peers r) && (Set.contains queues r && is_some (Map.get m r)))
            && (Set.contains bc j
                || (Set.contains cids j
                    && (is_sent (Map.get_or m r no_wants) j && not (Set.contains bs j)))))
  told-cancel_one bs bc cids queues q peers m w j r rest found h = ground (
    arith,
    cancel_wants_lem bs cids w bc j,
    Map.get-insert m q (cancel_wants bs cids w bc).0 r,
    Map.get_same m q r,
  )

  told-cancel_all :
      (bs bc cids : List Cid) (queues peers : List Peer) (m : Map Peer (PeerWant Cid)) (j : Cid)
      (r : Peer)
      → told (cancel_all bs bc cids queues peers m).1 r j ≡ (
          (Set.contains peers r && (Set.contains queues r && is_some (Map.get m r)))
          && (Set.contains bc j
              || (Set.contains cids j
                  && (is_sent (Map.get_or m r no_wants) j && not (Set.contains bs j)))))
  unfolding cancel_all Set.contains
  told-cancel_all bs bc cids queues [] m j r = told_nil r j
  told-cancel_all bs bc cids queues (q ∷ peers) m j r = elim (Option-cases (Map.get m q)) [
    | inl gone ↦
        rw (gone, cancel_all)
          (ground (arith, told-cancel_all bs bc cids queues peers m j r, Map.get_same m q r))
    | inr (w, found) ↦
        let (left, ds) = cancel_wants bs cids w bc in
        let rest = cancel_all bs bc cids queues peers (Map.insert m q left) in
        rw (found, cancel_all)
          (told-cons queues q ds rest.1 r j
            ∙ told-cancel_one bs bc cids queues q peers m w j r (told rest.1 r j) found
                (told-cancel_all bs bc cids queues peers (Map.insert m q left) j r))
  ]

  -- The reverse index names a peer for a content id exactly where the want was sent to it.
  abbrev pub IsIndexed : Manager Cid Peer → Type 0
  IsIndexed s = (j : Cid) (r : Peer) → names s.want_peers j r ≡ is_sent (wants_of s r) j

  -- On a state whose reverse index is right: after `send_cancels` the same peers are tracked, and each
  -- has the want-blocks and the want-haves that it had, less the cancelled content ids. The reverse
  -- index names for the others whom it named, and nobody for those; the others that were broadcast
  -- still are, and those are not. A peer is told to cancel a content id exactly where it is tracked,
  -- has a queue, and the cancelled content id was broadcast or was sent to it.
  pub send_cancels_lem :
      (s : Manager Cid Peer) (cids : List Cid) (queues : List Peer) (j : Cid) (r : Peer)
      → IsIndexed s
      → let (s', out) = send_cancels s cids queues in
        let stays = not (Set.contains cids j) in
        (Map.contains_key s'.peer_wants r ≡ Map.contains_key s.peer_wants r)
        × (Set.contains (wants_of s' r).want_blocks j
            ≡ (stays && Set.contains (wants_of s r).want_blocks j))
        × (Set.contains (wants_of s' r).want_haves j
            ≡ (stays && Set.contains (wants_of s r).want_haves j))
        × (names s'.want_peers j r ≡ (stays && names s.want_peers j r))
        × (Set.contains s'.broadcast_wants j ≡ (stays && Set.contains s.broadcast_wants j))
        × (told out r j ≡ (
            (Set.contains cids j && (Map.contains_key s.peer_wants r && Set.contains queues r))
            && (Set.contains s.broadcast_wants j || is_sent (wants_of s r) j)))
  unfolding send_cancels Set.contains Map.contains_key told
  send_cancels_lem s cids queues j r indexed =
      let bs = s.broadcast_wants in
      let bc = Set.extend [] (retain (Set.contains bs) cids) in
      let peers =
        if is_empty bc then cancel_peers s.want_peers cids [] else Map.keys s.peer_wants in
      ground (
        arith,
        indexed j r,
        cancel_all_state bs bc cids queues peers s.peer_wants j r,
        told-cancel_all bs bc cids queues peers s.peer_wants j r,
        contains-cancel_peers s.want_peers cids [] j r,
        Map.contains-keys s.peer_wants r,
        Map.get-remove_all s.want_peers cids j,
        Set.contains-difference bs bc j,
        Set.contains-extend [] (retain (Set.contains bs) cids) j,
        Set.contains-retain (Set.contains bs) cids j,
      )
