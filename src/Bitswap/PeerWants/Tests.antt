-- ===== src/Bitswap/PeerWants/Tests.antt =====
-- Runs of the peer want manager, with numbers as content ids and peers.
use rust_ipfs.Base.{ℕ, true, false, ◌≡◌, refl, [], ◌∷◌, nat_eq}
use rust_ipfs.Base.Map
use rust_ipfs.Base.Map.{Map}
use rust_ipfs.Base.Set
use rust_ipfs.Bitswap.PeerWants.{Manager, cancels, add_peer, broadcast, send_wants, send_cancels}
use rust_ipfs.Bitswap.PeerWants.Queries.{want_peer_counts, get_wants, wanted}
use rust_ipfs.Bitswap.PeerWants.View.{wants_of, names}
use rust_ipfs.Bitswap.PeerWants.Cancelling.{IsIndexed, told, send_cancels_lem}
use rust_ipfs.Bitswap.PeerWants.Index.{empty, IsValid, Reach, Reach-IsValid}

-- Two peers; 7 is broadcast, 5 is a want-block and 6 a want-have of the first peer.
abbrev manager : Manager ℕ ℕ
manager = record {
  peer_wants =
      (1, record { want_blocks = 5 ∷ []; want_haves = 6 ∷ [] })
      ∷ (2, record { want_blocks = []; want_haves = [] })
      ∷ [];
  want_peers = (5, 1 ∷ []) ∷ (6, 1 ∷ []) ∷ [];
  broadcast_wants = 7 ∷ [];
}

manager-Reach : Reach manager
unfolding empty add_peer broadcast send_wants Map.get Map.contains_key Map.insert Set.contains
    Set.extend Set.difference Set.remove
manager-Reach =
    Reach.sent 1 (5 ∷ []) (6 ∷ 7 ∷ [])
      (Reach.added 2 (Reach.added 1 (Reach.broadcasted (7 ∷ []) [] Reach.start)))

cancels_5 : send_cancels manager (5 ∷ []) (1 ∷ 2 ∷ []) ≡ (
  record manager {
    peer_wants =
        (1, record { want_blocks = []; want_haves = 6 ∷ [] })
        ∷ (2, record { want_blocks = []; want_haves = [] })
        ∷ [];
    want_peers = (6, 1 ∷ []) ∷ [];
  },
  (1, cancels (5 ∷ [])) ∷ [],
)
unfolding send_cancels Set.extend Map.remove_all Set.difference Map.get Map.insert Set.remove
cancels_5 = refl

counts_6 : wanted (want_peer_counts manager 6) ≡ true
unfolding want_peer_counts wanted Map.get Set.contains
counts_6 = refl

all_wants : get_wants manager ≡ 6 ∷ 5 ∷ 7 ∷ []
unfolding get_wants Set.extend Map.keys
all_wants = refl

manager-IsIndexed : IsIndexed manager
manager-IsIndexed = (Reach-IsValid manager-Reach).indexed

Reach-IsValid_example : IsValid manager
Reach-IsValid_example = Reach-IsValid manager-Reach

send_cancels_lem_example :
    let (s', out) = send_cancels manager (5 ∷ []) (1 ∷ 2 ∷ []) in
    (Map.contains_key s'.peer_wants 1 ≡ true)
    × (Set.contains (wants_of s' 1).want_blocks 5 ≡ false)
    × (Set.contains (wants_of s' 1).want_haves 5 ≡ false)
    × (names s'.want_peers 5 1 ≡ false)
    × (Set.contains s'.broadcast_wants 5 ≡ false)
    × (told out 1 5 ≡ true)
unfolding Set.contains Map.contains_key Map.get
send_cancels_lem_example = send_cancels_lem manager (5 ∷ []) (1 ∷ 2 ∷ []) 5 1 manager-IsIndexed
