-- ===== src/Bitswap/WantsUpdate/Tests.antt =====
-- Runs of updates of a queue's wants, with numbers as content ids.
use rust_ipfs.Base.{ℕ, ◌≡◌, refl, [], ◌∷◌, arith, nat_eq, list_eq}
use rust_ipfs.Base.Map
use rust_ipfs.Base.Map.{Map}
use rust_ipfs.Base.Set
use rust_ipfs.Base.Int.{pos}
use rust_ipfs.Bitswap.Wantlist
use rust_ipfs.Bitswap.Wantlist.{Wantlist, WantType, Entry, block, have, entry}
use rust_ipfs.Bitswap.RecallWantlist
use rust_ipfs.Bitswap.RecallWantlist.{RecallWantlist, Wants}
use rust_ipfs.Bitswap.WantsUpdate.{
  wants, cancels, signal_work, cancel_pending, handle_wants_update, transfer_rebroadcast_wants,
  no_wants,
}
use rust_ipfs.Bitswap.WantsUpdate.Cancels.{IsApart, update-IsApart}

-- 1 was sent as a want-have in a broadcast, 2 is pending for the peer, 3 is to be cancelled.
abbrev queue : Wants ℕ
queue = record {
  bcst_wants = record no_wants {
    sent = record { set = (1, entry 1 (pos 9) have) ∷ []; cached = [] };
  };
  peer_wants = record no_wants {
    pending = record { set = (2, entry 2 (pos 8) block) ∷ []; cached = [] };
  };
  cancels = 3 ∷ [];
  priority = pos 7;
}

cancelled :
    (handle_wants_update queue (cancels (1 ∷ 2 ∷ []))).1
    ≡ cancel_pending (1 ∷ 2 ∷ []) ∷ signal_work ∷ []
unfolding handle_wants_update Wantlist.contains Map.contains_key RecallWantlist.remove
    Wantlist.remove Map.remove
cancelled = refl

queue-IsApart : IsApart queue
unfolding Set.contains Wantlist.get Map.get
queue-IsApart j = ground arith

update-IsApart_example :
    IsApart (handle_wants_update queue (wants (3 ∷ []) (4 ∷ []))).0
    × IsApart (transfer_rebroadcast_wants queue).0
update-IsApart_example = update-IsApart queue (wants (3 ∷ []) (4 ∷ [])) queue-IsApart
