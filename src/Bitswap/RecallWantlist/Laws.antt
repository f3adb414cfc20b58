-- ===== src/Bitswap/RecallWantlist/Laws.antt =====
-- How a want moves from pending to sent, and when its time is recorded.
use rust_ipfs.Base.{
  ℕ, true, ◌&&◌, ◌≡◌, none, some, arith, if◌then◌else◌, leb, Eq, nat_eq, ◌==◌, ==_refl, is_some,
}
use rust_ipfs.Base.Map
use rust_ipfs.Base.Map.{Map}
use rust_ipfs.Bitswap.Wantlist
use rust_ipfs.Bitswap.Wantlist.{Entry, entry}
use rust_ipfs.Bitswap.Wantlist.Merging.{rank, stronger, get-add, get-remove_type}
use rust_ipfs.Bitswap.RecallWantlist.{RecallWantlist, remove, mark_sent, sent_at}

module _ {Cid : Type 0} ⦃e : Eq Cid⦄ where
  -- A want that is marked as sent was pending at no greater strength, is pending no more, is among
  -- the sent wants at least as strongly as it was sent, and no other content id moves. A want that
  -- is refused changes neither list.
  pub mark_sent_lem :
      (r : RecallWantlist Cid) (n : Entry Cid) (j : Cid)
      → let (r', done) = mark_sent r n in
        (done ≡ (
          is_some (Wantlist.get r.pending n.cid)
          && leb (rank (Wantlist.get r.pending n.cid)) (rank (some n))))
        × (Wantlist.get r'.pending j
            ≡ (if done && (n.cid == j) then none else Wantlist.get r.pending j))
        × (Wantlist.get r'.sent j ≡ (
            if done && (n.cid == j)
            then stronger (Wantlist.get r.sent j) n
            else Wantlist.get r.sent j))
  unfolding mark_sent entry Wantlist.get
  mark_sent_lem r n j = ground (
    arith,
    get-remove_type r.pending n.cid n.want_type j,
    get-add r.sent n.cid n.priority n.want_type j,
    Map.get_same r.sent.set n.cid j,
  )

  -- A cancelled want is in neither list, has no time, and no other content id changes.
  pub remove_lem :
      (r : RecallWantlist Cid) (c j : Cid)
      → (Wantlist.get (remove r c).pending j ≡ (if c == j then none else Wantlist.get r.pending j))
        × (Wantlist.get (remove r c).sent j ≡ (if c == j then none else Wantlist.get r.sent j))
        × (Map.get (remove r c).sent_times j ≡ (if c == j then none else Map.get r.sent_times j))
  unfolding remove Wantlist.remove Wantlist.get
  remove_lem r c j = (
    Map.get-remove r.pending.set c j,
    Map.get-remove r.sent.set c j,
    Map.get-remove r.sent_times c j,
  )

  -- The time of a want that was just marked as sent is not recorded: after a `mark_sent` that
  -- answers true, `sent_at` for its content id changes nothing, whatever the time.
  pub sent_at-mark_sent :
      (r : RecallWantlist Cid) (n : Entry Cid) (t : ℕ)
      → (mark_sent r n).1 ≡ true
      → sent_at (mark_sent r n).0 n.cid t ≡ (mark_sent r n).0
  unfolding sent_at Wantlist.contains Map.contains_key Wantlist.get
  sent_at-mark_sent r n t h = ground (arith, mark_sent_lem r n n.cid, ==_refl n.cid)
