-- ===== src/Bitswap/WantsUpdate/Cancels.antt =====
-- What is told to be cancelled is wanted no more.
use rust_ipfs.Base.{
  Bool, false, not, ◌&&◌, ◌||◌, ◌≡◌, List, [], ◌∷◌, arith, Eq, nat_eq, list_eq, ◌==◌, ==_iff,
  is_some,
}
use rust_ipfs.Base.Map
use rust_ipfs.Base.Map.{Map}
use rust_ipfs.Base.Set
use rust_ipfs.Base.Int.{ℤ}
use rust_ipfs.Bitswap.Wantlist
use rust_ipfs.Bitswap.Wantlist.{Wantlist, WantType, Entry, block, have, entry}
use rust_ipfs.Bitswap.Wantlist.Merging.{get-add, get-extend}
use rust_ipfs.Bitswap.RecallWantlist
use rust_ipfs.Bitswap.RecallWantlist.{RecallWantlist, Wants}
use rust_ipfs.Bitswap.RecallWantlist.Laws.{remove_lem}
use rust_ipfs.Bitswap.WantsUpdate.{
  WantsUpdate, broadcast_want_haves, wants, cancels, add_broadcast, add_broadcasts, add_want,
  add_wants, was_sent, cancel_want, cancel_wants, handle_wants_update, transfer_rebroadcast_wants,
}

module _ {Cid : Type 0} ⦃e : Eq Cid⦄ where
  abbrev pub has : Wantlist Cid → Cid → Bool
  has l j = is_some (Wantlist.get l j)

  -- The list wants the content id, or has sent it.
  abbrev pub tracks : RecallWantlist Cid → Cid → Bool
  tracks r j = has r.pending j || has r.sent j

  -- No content id that is to be cancelled is wanted, be it pending or sent.
  abbrev pub IsApart : Wants Cid → Type 0
  IsApart w =
      (j : Cid)
      → (Set.contains w.cancels j && (tracks w.bcst_wants j || tracks w.peer_wants j)) ≡ false

  tracks-add :
      (r : RecallWantlist Cid) (c : Cid) (p : ℤ) (t : WantType) (j : Cid)
      → tracks (RecallWantlist.add r c p t) j ≡ (c == j || tracks r j)
  unfolding RecallWantlist.add
  tracks-add r c p t j = ground (arith, get-add r.pending c p t j, ==_iff c j)

  tracks-remove :
      (r : RecallWantlist Cid) (c j : Cid)
      → (tracks (RecallWantlist.remove r c) j ≡ (not (c == j) && tracks r j))
        × (has (RecallWantlist.remove r c).sent j ≡ (not (c == j) && has r.sent j))
  tracks-remove r c j = ground (arith, remove_lem r c j)

  add_broadcasts-IsApart :
      (w : Wants Cid) (cids : List Cid) → IsApart w → IsApart (add_broadcasts w cids)
  unfolding add_broadcasts add_broadcast
  add_broadcasts-IsApart w [] v = v
  add_broadcasts-IsApart w (c ∷ cids) v = add_broadcasts-IsApart (add_broadcast w c) cids λ j.
      ground
        (arith, v j, tracks-add w.bcst_wants c w.priority have j, Set.contains-remove w.cancels c j)

  add_wants-IsApart :
      (w : Wants Cid) (t : WantType) (cids : List Cid) → IsApart w → IsApart (add_wants w t cids)
  unfolding add_wants add_want
  add_wants-IsApart w t [] v = v
  add_wants-IsApart w t (c ∷ cids) v = add_wants-IsApart (add_want w t c) t cids λ j.
      ground
        (arith, v j, tracks-add w.peer_wants c w.priority t j, Set.contains-remove w.cancels c j)

  cancel_want_lem :
      (w : Wants Cid) (c j : Cid)
      → let w' = cancel_want w c in
        (tracks w'.bcst_wants j ≡ (not (c == j) && tracks w.bcst_wants j))
        × (tracks w'.peer_wants j ≡ (not (c == j) && tracks w.peer_wants j))
        × (was_sent w' j ≡ (not (c == j) && was_sent w j))
        × (Set.contains w'.cancels j ≡ (Set.contains w.cancels j || ((c == j) && was_sent w j)))
  unfolding cancel_want Wantlist.contains Map.contains_key Wantlist.get
  cancel_want_lem w c j = ground (
    arith,
    tracks-remove w.bcst_wants c j,
    tracks-remove w.peer_wants c j,
    Set.contains-insert w.cancels c j,
    Map.get_same w.bcst_wants.sent.set c j,
    Map.get_same w.peer_wants.sent.set c j,
  )

  -- After a cancel of some content ids none of them is wanted, pending or sent, and those of them that
  -- were sent are to be cancelled, in addition to what was to be cancelled before.
  pub cancel_wants_lem :
      (w : Wants Cid) (cids : List Cid) (work : Bool) (j : Cid)
      → let w' = (cancel_wants w cids work).0 in
        (tracks w'.bcst_wants j ≡ (not (Set.contains cids j) && tracks w.bcst_wants j))
        × (tracks w'.peer_wants j ≡ (not (Set.contains cids j) && tracks w.peer_wants j))
        × (Set.contains w'.cancels j
            ≡ (Set.contains w.cancels j || (Set.contains cids j && was_sent w j)))
  unfolding cancel_wants Set.contains
  cancel_wants_lem w [] work j = ground arith
  cancel_wants_lem w (c ∷ cids) work j = ground (
    arith,
    cancel_want_lem w c j,
    cancel_wants_lem (cancel_want w c) cids (was_sent w c || work) j,
  )

  handle_wants_update-IsApart :
      (w : Wants Cid) (u : WantsUpdate Cid) → IsApart w → IsApart (handle_wants_update w u).0
  unfolding handle_wants_update
  handle_wants_update-IsApart w (broadcast_want_haves cids) v = add_broadcasts-IsApart w cids v
  handle_wants_update-IsApart w (wants blocks haves) v =
      add_wants-IsApart (add_wants w have haves) block blocks (add_wants-IsApart w have haves v)
  handle_wants_update-IsApart w (cancels cids) v =
      λ j. ground (arith, v j, cancel_wants_lem w cids false j)

  transfer-IsApart : (w : Wants Cid) → IsApart w → IsApart (transfer_rebroadcast_wants w).0
  unfolding transfer_rebroadcast_wants
  transfer-IsApart w v = λ j. ground (
    arith,
    v j,
    get-extend w.bcst_wants.pending w.bcst_wants.sent j,
    get-extend w.peer_wants.pending w.peer_wants.sent j,
  )

  -- Where no content id that is to be cancelled is wanted, pending or sent, this is still so after any
  -- update of the wants and after the transfer for a rebroadcast.
  pub update-IsApart :
      (w : Wants Cid) (u : WantsUpdate Cid)
      → IsApart w
      → IsApart (handle_wants_update w u).0 × IsApart (transfer_rebroadcast_wants w).0
  update-IsApart w u v = (handle_wants_update-IsApart w u v, transfer-IsApart w v)
