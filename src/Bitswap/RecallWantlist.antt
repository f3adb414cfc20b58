-- ===== src/Bitswap/RecallWantlist.antt =====
-- packages/beetle-bitswap-next/src/client/message_queue/wantlist.rs: the pending and the sent wants
-- of one peer, and when they were sent. An instant is a number.
pub mod Laws
pub mod Tests
use rust_ipfs.Base.{
  ℕ, zero, suc, ◌+◌, ◌-◌, ◌≤◌, ◌<◌, Bool, true, false, not, ◌&&◌, ◌||◌, ◌≡◌, refl, sym, ap, subst,
  ◌∙◌, ◌⊎◌, inl, inr, ◌↔◌, ◌≢◌, Option, none, some, List, [], ◌∷◌, ◌++◌, map, arith, if◌then◌else◌,
  All, length, length-append, is_empty, retain, ltb, leb, Eq, ◌==◌, ==_iff, ==_refl, Option-cases,
  Bool-cases, is_some,
}
use rust_ipfs.Base.Map
use rust_ipfs.Base.Map.{Map}
use rust_ipfs.Base.Set
use rust_ipfs.Base.Int.{ℤ}
use rust_ipfs.Bitswap.Wantlist
use rust_ipfs.Bitswap.Wantlist.{Wantlist, WantType, Entry}

pub record RecallWantlist (Cid : Type 0) : Type 0 where
  pub pending : Wantlist Cid
  pub sent : Wantlist Cid
  pub sent_times : Map Cid ℕ

pub record Wants (Cid : Type 0) : Type 0 where
  pub bcst_wants : RecallWantlist Cid
  pub peer_wants : RecallWantlist Cid
  pub cancels : List Cid
  pub priority : ℤ

module _ {Cid : Type 0} where
  unfoldable pub pending_work_count : Wants Cid → ℕ
  unfolding Wantlist.len
  pending_work_count w =
      Wantlist.len w.bcst_wants.pending + Wantlist.len w.peer_wants.pending + length w.cancels

  unfoldable pub has_pending_work : Wants Cid → Bool
  unfolding pending_work_count
  has_pending_work w = ltb 0 (pending_work_count w)

module _ {Cid : Type 0} ⦃e : Eq Cid⦄ where
  unfoldable pub add : RecallWantlist Cid → Cid → ℤ → WantType → RecallWantlist Cid
  add r cid priority want_type = record r {
    pending = (Wantlist.add r.pending cid priority want_type).0;
  }

  unfoldable pub remove : RecallWantlist Cid → Cid → RecallWantlist Cid
  remove r cid = record {
    pending = (Wantlist.remove r.pending cid).0;
    sent = (Wantlist.remove r.sent cid).0;
    sent_times = Map.remove r.sent_times cid;
  }

  unfoldable pub remove_type : RecallWantlist Cid → Cid → WantType → RecallWantlist Cid
  remove_type r cid want_type = record {
    pending = (Wantlist.remove_type r.pending cid want_type).0;
    sent = (Wantlist.remove_type r.sent cid want_type).0;
    sent_times =
        if is_some (Wantlist.remove_type r.sent cid want_type).1
        then Map.remove r.sent_times cid
        else r.sent_times;
  }

  -- False where the want was not pending to begin with.
  unfoldable pub mark_sent : RecallWantlist Cid → Entry Cid → RecallWantlist Cid × Bool
  mark_sent r want =
      let (pending, found) = Wantlist.remove_type r.pending want.cid want.want_type in
      if is_some found
      then (
        record r {
          pending = pending;
          sent = (Wantlist.add r.sent want.cid want.priority want.want_type).0;
        },
        true,
      )
      else (record r { pending = pending }, false)

  unfoldable pub clear_sent_at : RecallWantlist Cid → Cid → RecallWantlist Cid
  clear_sent_at r cid = record r { sent_times = Map.remove r.sent_times cid }

  unfoldable pub sent_at : RecallWantlist Cid → Cid → ℕ → RecallWantlist Cid
  sent_at r cid at =
      if not (Wantlist.contains r.sent cid)
      then record r { sent_times = Map.insert r.sent_times cid at }
      else r
