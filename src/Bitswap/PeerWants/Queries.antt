-- ===== src/Bitswap/PeerWants/Queries.antt =====
-- packages/beetle-bitswap-next/src/client/peer_want_manager.rs: what is asked of the wants and of
-- the reverse index.
use rust_ipfs.Base.{
  ℕ, ◌+◌, Bool, ◌||◌, none, some, List, [], ◌∷◌, if◌then◌else◌, ltb, Eq, nat_eq, list_eq,
}
use rust_ipfs.Base.Map
use rust_ipfs.Base.Map.{Map}
use rust_ipfs.Base.Set
use rust_ipfs.Bitswap.PeerWants.{PeerWant, Manager}

pub record WantPeerCounts : Type 0 where
  pub want_block : ℕ
  pub want_have : ℕ
  pub is_broadcast : Bool

unfoldable pub wanted : WantPeerCounts → Bool
wanted c = ltb 0 c.want_block || (ltb 0 c.want_have || c.is_broadcast)

module _ {Cid : Type 0} ⦃c : Eq Cid⦄ where
  unfoldable pub gather : (PeerWant Cid → List Cid) → List (PeerWant Cid) → List Cid → List Cid
  gather field [] found = found
  gather field (w ∷ ws) found = gather field ws (Set.extend found (field w))

module _ {Cid Peer : Type 0} ⦃c : Eq Cid⦄ ⦃p : Eq Peer⦄ where
  unfoldable pub count_peers : Map Peer (PeerWant Cid) → Cid → List Peer → ℕ × ℕ
  count_peers peer_wants cid [] = (0, 0)
  count_peers peer_wants cid (peer ∷ peers) =
      let (blocks, haves) = count_peers peer_wants cid peers in
      elim (Map.get peer_wants peer) [
        | none ↦ (blocks, haves)
        | some w ↦
            if Set.contains w.want_blocks cid
            then (blocks + 1, haves)
            else if Set.contains w.want_haves cid
            then (blocks, haves + 1)
            else (blocks, haves)
      ]

  unfoldable pub want_peer_counts : Manager Cid Peer → Cid → WantPeerCounts
  unfolding count_peers
  want_peer_counts s cid =
      let (blocks, haves) = count_peers s.peer_wants cid (Map.get_or s.want_peers cid []) in
      record {
        want_block = blocks;
        want_have = haves;
        is_broadcast = Set.contains s.broadcast_wants cid;
      }

  unfoldable pub get_want_blocks : Manager Cid Peer → List Cid
  unfolding gather Map.values
  get_want_blocks s = gather (λ w. w.want_blocks) (Map.values s.peer_wants) []

  unfoldable pub get_want_haves : Manager Cid Peer → List Cid
  unfolding gather Map.values
  get_want_haves s =
      Set.extend (gather (λ w. w.want_haves) (Map.values s.peer_wants) []) s.broadcast_wants

  unfoldable pub get_wants : Manager Cid Peer → List Cid
  get_wants s = Set.extend (Set.extend [] s.broadcast_wants) (Map.keys s.want_peers)
