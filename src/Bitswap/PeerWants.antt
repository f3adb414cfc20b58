-- ===== src/Bitswap/PeerWants.antt =====
-- packages/beetle-bitswap-next/src/client/peer_want_manager.rs: which want-haves and want-blocks
-- were sent to which peer. What goes to a message queue is returned, in order, with its peer; the
-- peers that have a queue are an argument. Log lines and the gauges, which are not implemented,
-- leave no trace.
pub mod View
pub mod Queries
pub mod Sending
pub mod Cancelling
pub mod Index
pub mod Tests
use rust_ipfs.Base.{
  ℕ, zero, suc, ◌+◌, ◌-◌, ◌*◌, ◌/◌, ◌≤◌, ◌<◌, Bool, true, false, not, ◌&&◌, ◌||◌, ◌≡◌, refl, sym,
  ap, subst, ◌∙◌, ◌⊎◌, inl, inr, ◌↔◌, ◌≢◌, Option, none, some, List, [], ◌∷◌, ◌++◌, map, arith,
  if◌then◌else◌, All, length, length-append, is_empty, retain, ltb, leb, Eq, nat_eq, list_eq,
  nat_beq, get_elem?, ◌==◌, ==_iff, ==_refl, Option-cases, Bool-cases, if_elim, is_some,
}
use rust_ipfs.Base.Map
use rust_ipfs.Base.Map.{Map}
use rust_ipfs.Base.Set

pub record PeerWant (Cid : Type 0) : Type 0 where
  pub want_blocks : List Cid
  pub want_haves : List Cid

pub record Manager (Cid Peer : Type 0) : Type 0 where
  pub peer_wants : Map Peer (PeerWant Cid)
  -- The reverse index of the wants in `peer_wants`.
  pub want_peers : Map Cid (List Peer)
  pub broadcast_wants : List Cid

-- The calls of a message queue: `add_broadcast_want_haves`, `add_wants` and `add_cancels`.
pub data Message (Cid : Type 0) : Type 0 where
  broadcast_want_haves : List Cid → Message Cid
  wants : List Cid → List Cid → Message Cid
  cancels : List Cid → Message Cid

abbrev pub no_wants : {Cid : Type 0} → PeerWant Cid
no_wants = record { want_blocks = []; want_haves = [] }

module _ {Cid : Type 0} ⦃c : Eq Cid⦄ where
  -- The want was sent as a want-block or as a want-have.
  abbrev pub is_sent : PeerWant Cid → Cid → Bool
  is_sent w cid = Set.contains w.want_blocks cid || Set.contains w.want_haves cid

  -- The loop of the macro `send!` over the cancels: what is left of the peer's wants, and what is to
  -- be cancelled.
  unfoldable pub cancel_wants :
      List Cid → List Cid → PeerWant Cid → List Cid → PeerWant Cid × List Cid
  cancel_wants broadcast_wants [] w to_cancel = (w, to_cancel)
  cancel_wants broadcast_wants (cid ∷ cids) w to_cancel =
      cancel_wants broadcast_wants cids
        (if is_sent w cid
          then (record {
            want_blocks = Set.remove w.want_blocks cid;
            want_haves = Set.remove w.want_haves cid;
          })
          else w)
        (if is_sent w cid && not (Set.contains broadcast_wants cid)
          then Set.insert to_cancel cid
          else to_cancel)

module _ {Cid Peer : Type 0} ⦃c : Eq Cid⦄ ⦃p : Eq Peer⦄ where
  unfoldable pub add_peer : Manager Cid Peer → Peer → Manager Cid Peer × List (Peer × Message Cid)
  add_peer s peer = if Map.contains_key s.peer_wants peer then (s, []) else (
    record s { peer_wants = Map.insert s.peer_wants peer no_wants },
    if is_empty s.broadcast_wants then [] else (peer, broadcast_want_haves s.broadcast_wants) ∷ [],
  )

  unfoldable pub reverse_index_remove : Map Cid (List Peer) → Cid → Peer → Map Cid (List Peer)
  reverse_index_remove index cid peer = elim (Map.get index cid) [
    | none ↦ index
    | some peers ↦
        if is_empty (Set.remove peers peer)
        then Map.remove index cid
        else Map.insert index cid (Set.remove peers peer)
  ]

  unfoldable pub index_remove_all : Map Cid (List Peer) → List Cid → Peer → Map Cid (List Peer)
  unfolding reverse_index_remove
  index_remove_all index [] peer = index
  index_remove_all index (cid ∷ cids) peer =
      index_remove_all (reverse_index_remove index cid peer) cids peer

  unfoldable pub remove_peer : Manager Cid Peer → Peer → Manager Cid Peer
  unfolding index_remove_all
  remove_peer s peer = elim (Map.get s.peer_wants peer) [
    | none ↦ s
    | some w ↦ record s {
      peer_wants = Map.remove s.peer_wants peer;
      want_peers =
          index_remove_all (index_remove_all s.want_peers w.want_blocks peer) w.want_haves peer;
    }
  ]

  -- What each peer that has a queue has not been sent yet.
  unfoldable pub unsent_to :
      Map Peer (PeerWant Cid) → List Peer → List Cid → List (Peer × Message Cid)
  unsent_to [] queues unsent = []
  unsent_to ((peer, w) ∷ others) queues unsent =
      let fresh = retain (λ cid. not (is_sent w cid)) unsent in
      (if not (is_empty fresh) && Set.contains queues peer
        then (peer, broadcast_want_haves fresh) ∷ []
        else [])
      ++ unsent_to others queues unsent

  unfoldable pub broadcast :
      Manager Cid Peer → List Cid → List Peer → Manager Cid Peer × List (Peer × Message Cid)
  unfolding unsent_to
  broadcast s want_haves queues =
      let unsent = Set.difference want_haves s.broadcast_wants in
      (
        record s { broadcast_wants = Set.extend s.broadcast_wants unsent },
        unsent_to s.peer_wants queues unsent,
      )

  -- `want_peers.entry(cid).or_default().insert(peer)`
  unfoldable pub index_insert : Map Cid (List Peer) → Cid → Peer → Map Cid (List Peer)
  index_insert index cid peer = Map.insert index cid (Set.insert (Map.get_or index cid []) peer)

  -- The loops of `send_wants`: the peer's wants, the index, and the wants that are to be sent.
  unfoldable pub send_blocks :
      Peer
      → List Cid
      → PeerWant Cid
      → Map Cid (List Peer)
      → List Cid
      → PeerWant Cid × Map Cid (List Peer) × List Cid
  unfolding index_insert
  send_blocks peer [] w index flt = (w, index, flt)
  send_blocks peer (cid ∷ cids) w index flt =
      let old = Set.contains w.want_blocks cid in
      send_blocks peer cids
        (if old then w else (record {
          want_blocks = Set.insert w.want_blocks cid;
          want_haves = Set.remove w.want_haves cid;
        }))
        (if old then index else index_insert index cid peer) (if old then flt else flt ++ cid ∷ [])

  unfoldable pub send_haves :
      List Cid
      → Peer
      → List Cid
      → PeerWant Cid
      → Map Cid (List Peer)
      → List Cid
      → PeerWant Cid × Map Cid (List Peer) × List Cid
  unfolding index_insert
  send_haves broadcast_wants peer [] w index flt = (w, index, flt)
  send_haves broadcast_wants peer (cid ∷ cids) w index flt =
      let skip = Set.contains broadcast_wants cid || is_sent w cid in
      send_haves broadcast_wants peer cids
        (if skip then w else record w { want_haves = Set.insert w.want_haves cid })
        (if skip then index else index_insert index cid peer)
        (if skip then flt else flt ++ cid ∷ [])

  unfoldable pub send_wants :
      Manager Cid Peer → Peer → List Cid → List Cid → Manager Cid Peer × List (Peer × Message Cid)
  unfolding send_blocks send_haves
  send_wants s peer want_blocks want_haves = elim (Map.get s.peer_wants peer) [
    | none ↦ (s, [])
    | some w ↦
        let (w', index, blocks) = send_blocks peer want_blocks w s.want_peers [] in
        let (w'', index', haves) = send_haves s.broadcast_wants peer want_haves w' index [] in
        (
          record s { peer_wants = Map.insert s.peer_wants peer w''; want_peers = index' },
          if not (is_empty blocks) || not (is_empty haves)
              then (peer, wants blocks haves) ∷ []
              else [],
        )
  ]

  -- The peers that the index names for one of the cancels.
  unfoldable pub cancel_peers : Map Cid (List Peer) → List Cid → List Peer → List Peer
  cancel_peers index [] peers = peers
  cancel_peers index (cid ∷ cids) peers =
      cancel_peers index cids (Set.extend peers (Map.get_or index cid []))

  -- The macro `send!` for each of the peers; one that is not tracked is passed over.
  unfoldable pub cancel_all :
      List Cid
      → List Cid
      → List Cid
      → List Peer
      → List Peer
      → Map Peer (PeerWant Cid)
      → Map Peer (PeerWant Cid) × List (Peer × Message Cid)
  unfolding cancel_wants
  cancel_all broadcast_wants broadcast_cancels cids queues [] peer_wants = (peer_wants, [])
  cancel_all broadcast_wants broadcast_cancels cids queues (peer ∷ peers) peer_wants =
      elim (Map.get peer_wants peer) [
        | none ↦ cancel_all broadcast_wants broadcast_cancels cids queues peers peer_wants
        | some w ↦
            let (left, to_cancel) = cancel_wants broadcast_wants cids w broadcast_cancels in
            let (rest, out) =
              cancel_all broadcast_wants broadcast_cancels cids queues peers
                (Map.insert peer_wants peer left) in
            (
              rest,
              (if not (is_empty to_cancel) && Set.contains queues peer
                    then (peer, cancels to_cancel) ∷ []
                    else [])
                  ++ out,
            )
      ]

  -- A cancel of a broadcast want goes to all peers, others only to peers that the index names.
  unfoldable pub send_cancels :
      Manager Cid Peer → List Cid → List Peer → Manager Cid Peer × List (Peer × Message Cid)
  unfolding cancel_peers cancel_all
  send_cancels s cids queues =
      let broadcast_cancels = Set.extend [] (retain (Set.contains s.broadcast_wants) cids) in
      let peers =
        if is_empty broadcast_cancels
        then cancel_peers s.want_peers cids []
        else Map.keys s.peer_wants in
      let (left, out) =
        cancel_all s.broadcast_wants broadcast_cancels cids queues peers s.peer_wants in
      if is_empty cids then (s, []) else (
        record {
          peer_wants = left;
          want_peers = Map.remove_all s.want_peers cids;
          broadcast_wants = Set.difference s.broadcast_wants broadcast_cancels;
        },
        out,
      )
