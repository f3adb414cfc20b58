-- ===== src/Bitswap/Message/Building.antt =====
-- Every message that calls build is valid, and no call on an entry takes a flag back.
use rust_ipfs.Base.{
  ℕ, Bool, false, not, ◌&&◌, ◌||◌, ◌≡◌, inl, inr, Option, none, some, arith, Eq, nat_eq, list_eq,
  nat_beq, ◌==◌, Option-cases, is_some,
}
use rust_ipfs.Base.Map
use rust_ipfs.Base.Map.{Map}
use rust_ipfs.Base.Int.{ℤ}
use rust_ipfs.Bitswap.Wantlist.{WantType, is_block}
use rust_ipfs.Bitswap.Message.{
  BlockPresenceType, Entry, Block, BitswapMessage, merge_entry, new, clear, verify_blocks,
  set_pending_bytes, remove, add_full_entry, add_block, add_block_presence,
}
use rust_ipfs.Bitswap.Message.Invariant.{
  IsValid, new-IsValid, clear-IsValid, verify_blocks-IsValid, remove-IsValid,
  add_full_entry-IsValid, add_block-IsValid, add_block_presence-IsValid,
}

abbrev pub cancels : {Cid : Type 0} → Option (Entry Cid) → Bool
cancels none = false
cancels (some n) = n.cancel

abbrev pub asks_dont_have : {Cid : Type 0} → Option (Entry Cid) → Bool
asks_dont_have none = false
asks_dont_have (some n) = n.send_dont_have

abbrev pub asks_block : {Cid : Type 0} → Option (Entry Cid) → Bool
asks_block none = false
asks_block (some n) = is_block n.want_type

module _ {Cid Bytes : Type 0} ⦃e : Eq Cid⦄ where
  -- The messages that calls build, whatever the outcome of hash checks and the sizes of entries.
  pub data Reach : BitswapMessage Cid Bytes → Type 0 where
    start : (full : Bool) → Reach (new full)
    cleared : {m : BitswapMessage Cid Bytes} (full : Bool) → Reach m → Reach (clear m full)
    verified :
        {m : BitswapMessage Cid Bytes} (verify : Block Cid Bytes → Option Bool)
        → Reach m
        → Reach (verify_blocks verify m)
    counted :
        {m : BitswapMessage Cid Bytes} (bytes : ℤ) → Reach m → Reach (set_pending_bytes m bytes)
    removed : {m : BitswapMessage Cid Bytes} (c : Cid) → Reach m → Reach (remove m c)
    entered :
        {m : BitswapMessage Cid Bytes} (len : Entry Cid → ℕ) (c : Cid) (p : ℤ) (stops : Bool)
        (t : WantType) (send : Bool)
        → Reach m
        → Reach (add_full_entry len m c p stops t send).0
    with_block :
        {m : BitswapMessage Cid Bytes} (b : Block Cid Bytes) → Reach m → Reach (add_block m b)
    with_presence :
        {m : BitswapMessage Cid Bytes} (c : Cid) (t : BlockPresenceType)
        → Reach m
        → Reach (add_block_presence m c t)

  -- Whatever calls were made on a message, each content id has at most one entry, one block and one
  -- presence, and none has both a block and a presence.
  pub Reach-IsValid_message : {m : BitswapMessage Cid Bytes} → Reach m → IsValid m
  unfolding set_pending_bytes
  Reach-IsValid_message (start full) = new-IsValid full
  Reach-IsValid_message (cleared {m} full r) = clear-IsValid m full
  Reach-IsValid_message (verified {m} verify r) =
      verify_blocks-IsValid verify m (Reach-IsValid_message r)
  Reach-IsValid_message (counted bytes r) =
      let v = Reach-IsValid_message r in
      record {
        distinct_blocks = v.distinct_blocks;
        distinct_presences = v.distinct_presences;
        distinct_wants = v.distinct_wants;
        apart = v.apart;
      }
  Reach-IsValid_message (removed {m} c r) = remove-IsValid m c (Reach-IsValid_message r)
  Reach-IsValid_message (entered {m} len c p stops t send r) =
      add_full_entry-IsValid len m c p stops t send (Reach-IsValid_message r)
  Reach-IsValid_message (with_block {m} b r) = add_block-IsValid m b (Reach-IsValid_message r)
  Reach-IsValid_message (with_presence {m} c t r) =
      add_block_presence-IsValid m c t (Reach-IsValid_message r)

  -- Adding an entry takes nothing back: afterwards the content id has an entry, which cancels, asks
  -- for a DONT_HAVE and asks for the block exactly where the new or the old one does; the entries of
  -- other content ids stay. Only a new entry adds to the encoded size.
  pub add_full_entry_lem :
      (len : Entry Cid → ℕ) (m : BitswapMessage Cid Bytes) (c : Cid) (p : ℤ) (stops : Bool)
      (t : WantType) (send : Bool) (j : Cid)
      → let (m', size) = add_full_entry len m c p stops t send in
        let old = Map.get m.wantlist j in
        let got = Map.get m'.wantlist j in
        (is_some got ≡ (c == j || is_some old))
        × (cancels got ≡ (((c == j) && stops) || cancels old))
        × (asks_dont_have got ≡ (((c == j) && send) || asks_dont_have old))
        × (asks_block got ≡ (((c == j) && is_block t) || asks_block old))
        × ((is_some (Map.get m.wantlist c) && not (nat_beq size 0)) ≡ false)
  unfolding add_full_entry merge_entry
  add_full_entry_lem len m c p stops t send j =
      let fresh : Entry Cid = record {
        cid = c;
        priority = p;
        want_type = t;
        cancel = stops;
        send_dont_have = send;
      } in
      elim (Option-cases (Map.get m.wantlist c)) [
        | inl gone ↦
            rw (gone, add_full_entry)
              (ground
                (arith, gone, Map.get-insert m.wantlist c fresh j, Map.get_same m.wantlist c j))
        | inr (old, found) ↦
            rw (found, add_full_entry)
              (ground (
                arith,
                found,
                Map.get-insert m.wantlist c (merge_entry old p stops t send) j,
                Map.get_same m.wantlist c j,
              ))
      ]
