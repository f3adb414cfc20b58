-- ===== src/Bitswap/PeerWants/Sending.antt =====
-- `send_wants`: what is sent, and what is recorded as sent.
use rust_ipfs.Base.{
  Bool, true, not, ◌&&◌, ◌||◌, ◌≡◌, List, [], ◌∷◌, ◌++◌, arith, if◌then◌else◌, is_empty, Eq, nat_eq,
  ◌==◌,
}
use rust_ipfs.Base.Map
use rust_ipfs.Base.Map.{Map}
use rust_ipfs.Base.Set
use rust_ipfs.Bitswap.PeerWants.{
  PeerWant, Manager, wants, is_sent, index_insert, send_blocks, send_haves, send_wants,
}
use rust_ipfs.Bitswap.PeerWants.View.{wants_of, names, names-index_insert}

module _ {Cid Peer : Type 0} ⦃c : Eq Cid⦄ ⦃p : Eq Peer⦄ where
  -- The content id is asked for as a want-block and was not sent as one.
  send_blocks_lem :
      (q : Peer) (ds : List Cid) (w : PeerWant Cid) (m : Map Cid (List Peer)) (flt : List Cid)
      (j : Cid) (r : Peer)
      → let (w', m', flt') = send_blocks q ds w m flt in
        let new = Set.contains ds j && not (Set.contains w.want_blocks j) in
        (Set.contains w'.want_blocks j ≡ (Set.contains w.want_blocks j || new))
        × (Set.contains w'.want_haves j ≡ (not new && Set.contains w.want_haves j))
        × (names m' j r ≡ (((q == r) && new) || names m j r))
        × (Set.contains flt' j ≡ (Set.contains flt j || new))
  unfolding send_blocks Set.contains
  send_blocks_lem q [] w m flt j r = ground arith
  send_blocks_lem q (d ∷ ds) w m flt j r =
      let old = Set.contains w.want_blocks d in
      ground (
        arith,
        send_blocks_lem q ds
            (if old then w else (record {
              want_blocks = Set.insert w.want_blocks d;
              want_haves = Set.remove w.want_haves d;
            }))
            (if old then m else index_insert m d q) (if old then flt else flt ++ d ∷ []) j r,
        Set.contains-insert w.want_blocks d j,
        Set.contains-remove w.want_haves d j,
        Set.contains_same w.want_blocks d j,
        Set.contains-append flt (d ∷ []) j,
        names-index_insert m d q j r,
      )

  send_haves_lem :
      (bs : List Cid) (q : Peer) (ds : List Cid) (w : PeerWant Cid) (m : Map Cid (List Peer))
      (flt : List Cid) (j : Cid) (r : Peer)
      → let (w', m', flt') = send_haves bs q ds w m flt in
        let new = Set.contains ds j && (not (Set.contains bs j) && not (is_sent w j)) in
        (w'.want_blocks ≡ w.want_blocks)
        × (Set.contains w'.want_haves j ≡ (Set.contains w.want_haves j || new))
        × (names m' j r ≡ (((q == r) && new) || names m j r))
        × (Set.contains flt' j ≡ (Set.contains flt j || new))
  unfolding send_haves Set.contains
  send_haves_lem bs q [] w m flt j r = ground arith
  send_haves_lem bs q (d ∷ ds) w m flt j r =
      let skip = Set.contains bs d || is_sent w d in
      ground (
        arith,
        send_haves_lem bs q ds
            (if skip then w else record w { want_haves = Set.insert w.want_haves d })
            (if skip then m else index_insert m d q) (if skip then flt else flt ++ d ∷ []) j r,
        Set.contains-insert w.want_haves d j,
        Set.contains_same w.want_haves d j,
        Set.contains_same w.want_blocks d j,
        Set.contains_same bs d j,
        Set.contains-append flt (d ∷ []) j,
        names-index_insert m d q j r,
      )

  -- The content ids that a call sends to a peer as want-blocks, and those that it sends as
  -- want-haves.
  abbrev pub is_new_block : Manager Cid Peer → Peer → List Cid → Cid → Bool
  is_new_block s q want_blocks j =
      Set.contains want_blocks j && not (Set.contains (wants_of s q).want_blocks j)

  abbrev pub is_new_have : Manager Cid Peer → Peer → List Cid → List Cid → Cid → Bool
  is_new_have s q want_blocks want_haves j =
      Set.contains want_haves j
      && (not (Set.contains s.broadcast_wants j)
          && (not (is_sent (wants_of s q) j) && not (Set.contains want_blocks j)))

  -- To a tracked peer goes at most one message. It asks as want-blocks for exactly those of the given
  -- content ids that were not sent to it as want-blocks, and as want-haves for those that are not
  -- broadcast, were not sent to it, and are not among the want-blocks of the call; where neither is
  -- left, nothing is sent.
  pub send_wants_out :
      (s : Manager Cid Peer) (q : Peer) (want_blocks want_haves : List Cid)
      → Map.contains_key s.peer_wants q ≡ true
      → (blocks : List Cid) × (haves : List Cid) × ((send_wants s q want_blocks want_haves).1 ≡ (
          if not (is_empty blocks) || not (is_empty haves)
          then (q, wants blocks haves) ∷ []
          else []))
        × ((j : Cid)
            → (Set.contains blocks j ≡ is_new_block s q want_blocks j)
              × (Set.contains haves j ≡ is_new_have s q want_blocks want_haves j))
  unfolding send_wants Map.contains_key Set.contains
  send_wants_out s q want_blocks want_haves h =
      let w = wants_of s q in
      let first = send_blocks q want_blocks w s.want_peers [] in
      let second = send_haves s.broadcast_wants q want_haves first.0 first.1 [] in
      (
        first.2,
        second.2,
        ground arith,
        λ j. ground (
          arith,
          send_blocks_lem q want_blocks w s.want_peers [] j q,
          send_haves_lem s.broadcast_wants q want_haves first.0 first.1 [] j q,
        ),
      )

  -- What `send_wants` records: where the peer is tracked, its new wants, in its wants and in the
  -- reverse index (a new want-block takes the place of a want-have), and nothing else.
  pub send_wants_state :
      (s : Manager Cid Peer) (q : Peer) (want_blocks want_haves : List Cid) (j : Cid) (r : Peer)
      → let s' = (send_wants s q want_blocks want_haves).0 in
        let tracked = Map.contains_key s.peer_wants q && (q == r) in
        let block = tracked && is_new_block s q want_blocks j in
        let have = tracked && is_new_have s q want_blocks want_haves j in
        (Set.contains (wants_of s' r).want_blocks j
          ≡ (block || Set.contains (wants_of s r).want_blocks j))
        × (Set.contains (wants_of s' r).want_haves j
            ≡ (have || (not block && Set.contains (wants_of s r).want_haves j)))
        × (names s'.want_peers j r ≡ (block || (have || names s.want_peers j r)))
        × (s'.broadcast_wants ≡ s.broadcast_wants)
        × (Map.contains_key s'.peer_wants r ≡ Map.contains_key s.peer_wants r)
  unfolding send_wants Map.contains_key Set.contains
  send_wants_state s q want_blocks want_haves j r =
      let w = wants_of s q in
      let first = send_blocks q want_blocks w s.want_peers [] in
      let second = send_haves s.broadcast_wants q want_haves first.0 first.1 [] in
      ground (
        arith,
        Map.get-insert s.peer_wants q second.0 r,
        Map.get_same s.peer_wants q r,
        send_blocks_lem q want_blocks w s.want_peers [] j r,
        send_haves_lem s.broadcast_wants q want_haves first.0 first.1 [] j r,
      )
