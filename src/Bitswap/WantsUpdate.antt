-- ===== src/Bitswap/WantsUpdate.antt =====
-- packages/beetle-bitswap-next/src/client/message_queue.rs: how updates and rebroadcasts change the
-- wants of a peer's queue. The calls of the timeout manager and the signals for work are returned;
-- the priority falls without end.
pub mod Cancels
pub mod Tests
use rust_ipfs.Base.{
  Bool, true, false, ◌&&◌, ◌||◌, List, [], ◌∷◌, if◌then◌else◌, is_empty, Eq, nat_eq, list_eq,
}
use rust_ipfs.Base.Set
use rust_ipfs.Base.Int.{ℤ, negsuc, ◌+ℤ◌}
use rust_ipfs.Bitswap.Wantlist
use rust_ipfs.Bitswap.Wantlist.{WantType, block, have}
use rust_ipfs.Bitswap.RecallWantlist
use rust_ipfs.Bitswap.RecallWantlist.{RecallWantlist, Wants}

pub data WantsUpdate (Cid : Type 0) : Type 0 where
  broadcast_want_haves : List Cid → WantsUpdate Cid
  wants : List Cid → List Cid → WantsUpdate Cid
  cancels : List Cid → WantsUpdate Cid

pub data Effect (Cid : Type 0) : Type 0 where
  signal_work : Effect Cid
  cancel_pending : List Cid → Effect Cid

abbrev pub no_wants : {Cid : Type 0} → RecallWantlist Cid
no_wants = record {
  pending = record { set = []; cached = [] };
  sent = record { set = []; cached = [] };
  sent_times = [];
}

-- The wants of a new queue.
unfoldable pub new : {Cid : Type 0} → ℤ → Wants Cid
new max_priority = record {
  bcst_wants = no_wants;
  peer_wants = no_wants;
  cancels = [];
  priority = max_priority;
}

module _ {Cid : Type 0} ⦃e : Eq Cid⦄ where
  -- A new want-have or want-block clears a pending cancel.
  unfoldable pub add_broadcast : Wants Cid → Cid → Wants Cid
  add_broadcast w cid = record w {
    bcst_wants = RecallWantlist.add w.bcst_wants cid w.priority have;
    priority = w.priority +ℤ negsuc 0;
    cancels = Set.remove w.cancels cid;
  }

  unfoldable pub add_broadcasts : Wants Cid → List Cid → Wants Cid
  unfolding add_broadcast
  add_broadcasts w [] = w
  add_broadcasts w (cid ∷ want_haves) = add_broadcasts (add_broadcast w cid) want_haves

  unfoldable pub add_want : Wants Cid → WantType → Cid → Wants Cid
  add_want w want_type cid = record w {
    peer_wants = RecallWantlist.add w.peer_wants cid w.priority want_type;
    priority = w.priority +ℤ negsuc 0;
    cancels = Set.remove w.cancels cid;
  }

  unfoldable pub add_wants : Wants Cid → WantType → List Cid → Wants Cid
  unfolding add_want
  add_wants w want_type [] = w
  add_wants w want_type (cid ∷ cids) = add_wants (add_want w want_type cid) want_type cids

  -- The want was sent, to this peer alone or in a broadcast.
  abbrev pub was_sent : Wants Cid → Cid → Bool
  was_sent w cid =
      Wantlist.contains w.bcst_wants.sent cid || Wantlist.contains w.peer_wants.sent cid

  unfoldable pub cancel_want : Wants Cid → Cid → Wants Cid
  cancel_want w cid = record w {
    bcst_wants = RecallWantlist.remove w.bcst_wants cid;
    peer_wants = RecallWantlist.remove w.peer_wants cid;
    cancels = if was_sent w cid then Set.insert w.cancels cid else w.cancels;
  }

  -- The loop over the cancels: the wants, and whether there is work.
  unfoldable pub cancel_wants : Wants Cid → List Cid → Bool → Wants Cid × Bool
  unfolding cancel_want
  cancel_wants w [] work_ready = (w, work_ready)
  cancel_wants w (cid ∷ cids) work_ready =
      cancel_wants (cancel_want w cid) cids (was_sent w cid || work_ready)

  unfoldable pub handle_wants_update : Wants Cid → WantsUpdate Cid → Wants Cid × List (Effect Cid)
  unfolding add_broadcasts add_wants cancel_wants
  handle_wants_update w (broadcast_want_haves want_haves) =
      (add_broadcasts w want_haves, signal_work ∷ [])
  handle_wants_update w (wants want_blocks want_haves) =
      (add_wants (add_wants w have want_haves) block want_blocks, signal_work ∷ [])
  handle_wants_update w (cancels cids) =
      let (left, work_ready) = cancel_wants w cids false in
      (left, cancel_pending cids ∷ (if work_ready then signal_work ∷ [] else []))

  unfoldable pub transfer_rebroadcast_wants : Wants Cid → Wants Cid × Bool
  transfer_rebroadcast_wants w =
      if is_empty w.bcst_wants.sent.set && is_empty w.peer_wants.sent.set then (w, false) else (
        record w {
          bcst_wants = record w.bcst_wants {
            pending = Wantlist.extend w.bcst_wants.pending w.bcst_wants.sent;
          };
          peer_wants = record w.peer_wants {
            pending = Wantlist.extend w.peer_wants.pending w.peer_wants.sent;
          };
        },
        true,
      )
