-- ===== src/Bitswap/Ledger.antt =====
-- packages/beetle-bitswap-next/src/server/ledger.rs: the want list that the server keeps for a peer.
-- A mutable reference to the list is a function that changes it.
use rust_ipfs.Base.{Option, List, Eq, nat_eq, list_eq}
use rust_ipfs.Base.Int.{ℤ}
use rust_ipfs.Bitswap.Wantlist
use rust_ipfs.Bitswap.Wantlist.{Wantlist, WantType, Entry}

pub record Ledger (Cid Peer : Type 0) : Type 0 where
  pub partner : Peer
  pub wantlist : Wantlist Cid

module _ {Cid Peer : Type 0} where
  unfoldable pub new : Peer → Ledger Cid Peer
  unfolding Wantlist.empty
  new partner = record { partner = partner; wantlist = Wantlist.empty }

  -- `wantlist_mut`
  unfoldable pub with_wantlist : Ledger Cid Peer → (Wantlist Cid → Wantlist Cid) → Ledger Cid Peer
  with_wantlist l change = record l { wantlist = change l.wantlist }

  unfoldable pub clear_wantlist : Ledger Cid Peer → Ledger Cid Peer
  unfolding Wantlist.clear
  clear_wantlist l = record l { wantlist = Wantlist.clear l.wantlist }

  unfoldable pub entries : Ledger Cid Peer → Ledger Cid Peer × List (Entry Cid)
  unfolding Wantlist.entries
  entries l = let (left, out) = Wantlist.entries l.wantlist in (record l { wantlist = left }, out)

module _ {Cid Peer : Type 0} ⦃e : Eq Cid⦄ where
  unfoldable pub wants : Ledger Cid Peer → Cid → ℤ → WantType → Ledger Cid Peer
  unfolding Wantlist.add
  wants l cid priority want_type = record l {
    wantlist = (Wantlist.add l.wantlist cid priority want_type).0;
  }

  unfoldable pub cancel_want : Ledger Cid Peer → Cid → Ledger Cid Peer × Option (Entry Cid)
  unfolding Wantlist.remove
  cancel_want l cid =
      let (left, removed) = Wantlist.remove l.wantlist cid in
      (record l { wantlist = left }, removed)

  unfoldable pub wantlist_get : Ledger Cid Peer → Cid → Option (Entry Cid)
  unfolding Wantlist.get
  wantlist_get l cid = Wantlist.get l.wantlist cid
