-- ===== src/Bitswap/SessionWants/Tests.antt =====
-- Runs of a session's wants, with numbers as content ids.
use rust_ipfs.Base.{
  ℕ, ◌+◌, ◌≤◌, true, false, ◌≡◌, refl, ◌⊎◌, none, some, List, [], ◌∷◌, length, nat_eq,
}
use rust_ipfs.Base.Map
use rust_ipfs.Base.Map.{Map}
use rust_ipfs.Base.Set
use rust_ipfs.Bitswap.CidQueue
use rust_ipfs.Bitswap.CidQueue.{CidQueue}
use rust_ipfs.Bitswap.SessionWants.{
  SessionWants, new, blocks_requested, get_next_wants, wants_sent, blocks_received,
}
use rust_ipfs.Bitswap.SessionWants.Live.{IsValid}
use rust_ipfs.Bitswap.SessionWants.Reachable.{Run, blocks_received_returns}
use rust_ipfs.Bitswap.SessionWants.Received.{
  is_live, is_queued, blocks_received_lem, get_next_wants-wants_sent,
}

-- Two keys wait; 1 is live.
abbrev session : SessionWants ℕ
session = record {
  to_fetch = record { elements = 1 ∷ 2 ∷ 3 ∷ []; set = 3 ∷ 2 ∷ [] };
  live_wants = (1, 10) ∷ [];
  live_wants_order = 1 ∷ [];
  broadcast_limit = 1;
}

session-Run : Run session
unfolding wants_sent Map.contains_key blocks_requested new CidQueue.has Set.contains CidQueue.push
    Set.insert CidQueue.remove Map.insert Set.remove
session-Run = Run.sent 10 (1 ∷ []) (Run.requested (1 ∷ 2 ∷ 3 ∷ []) (Run.start 1))

blocks_received_returns_example :
    (r : SessionWants ℕ × List ℕ × ℕ) × (blocks_received session 14 (1 ∷ 9 ∷ []) ≡ some r)
    × IsValid r.0
    × ((length r.0.live_wants_order ≤ length r.0.live_wants + 32)
        ⊎ ((j : ℕ)
            → Set.contains r.0.live_wants_order j ≡ true
            → Map.contains_key r.0.live_wants j ≡ true))
blocks_received_returns_example = blocks_received_returns session 14 (1 ∷ 9 ∷ []) session-Run

abbrev after : SessionWants ℕ × List ℕ × ℕ
after = (record session { live_wants = [] }, 1 ∷ [], 4)

received_1 : blocks_received session 14 (1 ∷ 9 ∷ []) ≡ some after
unfolding blocks_received Map.contains_key Map.remove CidQueue.has Set.contains CidQueue.remove
    Set.remove
received_1 = refl

blocks_received_lem_example :
    (is_live after.0 1 ≡ false) × (is_queued after.0 1 ≡ false) × (Set.contains after.1 1 ≡ true)
unfolding Set.contains Map.contains_key
blocks_received_lem_example = blocks_received_lem session 14 (1 ∷ 9 ∷ []) after 1 received_1

get_next_wants-wants_sent_example : get_next_wants (wants_sent session 20 (2 ∷ [])) 30 ≡ none
unfolding Map.get CidQueue.has Set.contains
get_next_wants-wants_sent_example = get_next_wants-wants_sent session 20 30 2 refl refl refl
