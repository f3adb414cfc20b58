-- ===== src/Bitswap/BlockPresence/Tests.antt =====
-- Runs of the block presence manager, with numbers as content ids and peers.
use rust_ipfs.Base.{ℕ, true, false, ◌≡◌, refl, some, [], ◌∷◌, nat_eq}
use rust_ipfs.Base.Map
use rust_ipfs.Base.Map.{Map}
use rust_ipfs.Base.Set
use rust_ipfs.Bitswap.BlockPresence.{Presence, receive_from}
use rust_ipfs.Bitswap.BlockPresence.View.{known, known-receive_from}

-- Peer 1 has 5 and lacks 6, peer 2 lacks both.
abbrev presence : Presence ℕ ℕ
presence = (5, (1, true) ∷ (2, false) ∷ []) ∷ (6, (1, false) ∷ (2, false) ∷ []) ∷ []

received : receive_from (receive_from [] 1 (5 ∷ []) (6 ∷ [])) 2 [] (5 ∷ 6 ∷ []) ≡ presence
unfolding receive_from Map.get Map.insert
received = refl

known-receive_from_example : known (receive_from presence 1 (6 ∷ []) (5 ∷ [])) 5 1 ≡ some true
unfolding Set.contains Map.get
known-receive_from_example = known-receive_from presence 1 (6 ∷ []) (5 ∷ []) 5 1
