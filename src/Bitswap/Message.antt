-- ===== src/Bitswap/Message.antt =====
-- packages/beetle-bitswap-next/src/message.rs and src/block.rs: a message as it is put together. The
-- sizes of encoded parts, which the protobuf crate computes, and the check of a block's hash are
-- parameters. The `data` of a block is called `bytes`.
pub mod Invariant
pub mod Building
pub mod Tests
use rust_ipfs.Base.{
  ℕ, zero, suc, ◌+◌, ◌-◌, ◌*◌, ◌/◌, ◌≤◌, ◌<◌, Bool, true, false, not, ◌&&◌, ◌||◌, ◌≡◌, refl, sym,
  ap, subst, ◌∙◌, ◌⊎◌, inl, inr, ◌↔◌, ◌≢◌, Option, none, some, List, [], ◌∷◌, ◌++◌, map, arith,
  if◌then◌else◌, All, length, length-append, is_empty, retain, ltb, leb, Eq, nat_eq, list_eq,
  nat_beq, get_elem?, ◌==◌, ==_iff, ==_refl, Option-cases, Bool-cases, if_elim, is_some,
}
use rust_ipfs.Base.Map
use rust_ipfs.Base.Map.{Map}
use rust_ipfs.Base.Set
use rust_ipfs.Base.Int.{ℤ, pos}
use rust_ipfs.Bitswap.Wantlist.{WantType, block, have, is_block}

pub data BlockPresenceType : Type 0 where
  present absent : BlockPresenceType

abbrev pub is_present : BlockPresenceType → Bool
is_present present = true
is_present absent = false

pub record BlockPresence (Cid : Type 0) : Type 0 where
  pub cid : Cid
  pub typ : BlockPresenceType

pub record Entry (Cid : Type 0) : Type 0 where
  pub cid : Cid
  pub priority : ℤ
  pub want_type : WantType
  pub cancel : Bool
  pub send_dont_have : Bool

pub record Block (Cid Bytes : Type 0) : Type 0 where
  pub cid : Cid
  pub bytes : Bytes

pub record BitswapMessage (Cid Bytes : Type 0) : Type 0 where
  pub full : Bool
  pub wantlist : Map Cid (Entry Cid)
  pub blocks : Map Cid (Block Cid Bytes)
  pub block_presences : Map Cid BlockPresenceType
  pub pending_bytes : ℤ

abbrev same_type : WantType → WantType → Bool
same_type a b = if is_block a then is_block b else not (is_block b)

-- What a second entry for the same content id does to the first one.
unfoldable pub merge_entry : {Cid : Type 0} → Entry Cid → ℤ → Bool → WantType → Bool → Entry Cid
merge_entry entry priority cancel want_type send_dont_have = record entry {
  priority = if same_type entry.want_type want_type then priority else entry.priority;
  cancel = if cancel then cancel else entry.cancel;
  send_dont_have = if send_dont_have then send_dont_have else entry.send_dont_have;
  want_type =
      if is_block want_type && not (is_block entry.want_type) then want_type else entry.want_type;
}

-- `get_block_presence_by_type`
unfoldable pub presences_of :
    {Cid : Type 0} → (BlockPresenceType → Bool) → Map Cid BlockPresenceType → List Cid
presences_of typ [] = []
presences_of typ ((c, t) ∷ presences) =
    let rest = presences_of typ presences in if typ t then c ∷ rest else rest

unfoldable pub presences_len :
    {Cid : Type 0} → (BlockPresence Cid → ℕ) → Map Cid BlockPresenceType → ℕ
presences_len f [] = 0
presences_len f ((c, t) ∷ presences) = f (record { cid = c; typ = t }) + presences_len f presences

module _ {Cid Bytes : Type 0} where
  unfoldable pub new : Bool → BitswapMessage Cid Bytes
  new full = record {
    full = full;
    wantlist = [];
    blocks = [];
    block_presences = [];
    pending_bytes = pos 0;
  }

  unfoldable pub clear : BitswapMessage Cid Bytes → Bool → BitswapMessage Cid Bytes
  clear m full = record {
    full = full;
    wantlist = [];
    blocks = [];
    block_presences = [];
    pending_bytes = pos 0;
  }

  -- `retain` over the blocks, with the outcome of `verify_hash`.
  unfoldable pub keep_valid :
      (Block Cid Bytes → Option Bool) → Map Cid (Block Cid Bytes) → Map Cid (Block Cid Bytes)
  keep_valid verify_hash [] = []
  keep_valid verify_hash ((c, b) ∷ blocks) =
      let rest = keep_valid verify_hash blocks in
      elim (verify_hash b) [ none ↦ rest | some valid ↦ if valid then (c, b) ∷ rest else rest ]

  unfoldable pub verify_blocks :
      (Block Cid Bytes → Option Bool) → BitswapMessage Cid Bytes → BitswapMessage Cid Bytes
  unfolding keep_valid
  verify_blocks verify_hash m = record m { blocks = keep_valid verify_hash m.blocks }

  unfoldable pub is_empty_message : BitswapMessage Cid Bytes → Bool
  is_empty_message m = is_empty m.blocks && (is_empty m.wantlist && is_empty m.block_presences)

  unfoldable pub haves : BitswapMessage Cid Bytes → List Cid
  unfolding presences_of
  haves m = presences_of is_present m.block_presences

  unfoldable pub dont_haves : BitswapMessage Cid Bytes → List Cid
  unfolding presences_of
  dont_haves m = presences_of (λ t. not (is_present t)) m.block_presences

  unfoldable pub set_pending_bytes : BitswapMessage Cid Bytes → ℤ → BitswapMessage Cid Bytes
  set_pending_bytes m bytes = record m { pending_bytes = bytes }

  -- The lengths of the blocks' data, and the encoded lengths of presences and entries.
  unfoldable pub encoded_len :
      (Bytes → ℕ) → (BlockPresence Cid → ℕ) → (Entry Cid → ℕ) → BitswapMessage Cid Bytes → ℕ
  unfolding Map.total presences_len
  encoded_len bytes_len presence_len entry_len m =
      Map.total (λ b. bytes_len b.bytes) m.blocks
      + presences_len presence_len m.block_presences
      + Map.total entry_len m.wantlist

module _ {Cid Bytes : Type 0} ⦃e : Eq Cid⦄ where
  unfoldable pub remove : BitswapMessage Cid Bytes → Cid → BitswapMessage Cid Bytes
  remove m cid = record m { wantlist = Map.remove m.wantlist cid }

  unfoldable pub add_full_entry :
      (Entry Cid → ℕ)
      → BitswapMessage Cid Bytes
      → Cid
      → ℤ
      → Bool
      → WantType
      → Bool
      → BitswapMessage Cid Bytes × ℕ
  unfolding merge_entry
  add_full_entry entry_len m cid priority cancel want_type send_dont_have =
      elim (Map.get m.wantlist cid) [
        | some entry ↦ (
          record m {
            wantlist =
                Map.insert m.wantlist cid
                  (merge_entry entry priority cancel want_type send_dont_have);
          },
          0,
        )
        | none ↦
            let entry : Entry Cid = record {
              cid = cid;
              priority = priority;
              want_type = want_type;
              cancel = cancel;
              send_dont_have = send_dont_have;
            } in
            (record m { wantlist = Map.insert m.wantlist cid entry }, entry_len entry)
      ]

  unfoldable pub cancel :
      (Entry Cid → ℕ) → BitswapMessage Cid Bytes → Cid → BitswapMessage Cid Bytes × ℕ
  unfolding add_full_entry
  cancel entry_len m cid = add_full_entry entry_len m cid (pos 0) true block false

  unfoldable pub add_entry :
      (Entry Cid → ℕ)
      → BitswapMessage Cid Bytes
      → Cid
      → ℤ
      → WantType
      → Bool
      → BitswapMessage Cid Bytes × ℕ
  unfolding add_full_entry
  add_entry entry_len m cid priority want_type send_dont_have =
      add_full_entry entry_len m cid priority false want_type send_dont_have

  unfoldable pub add_block : BitswapMessage Cid Bytes → Block Cid Bytes → BitswapMessage Cid Bytes
  add_block m b = record m {
    block_presences = Map.remove m.block_presences b.cid;
    blocks = Map.insert m.blocks b.cid b;
  }

  unfoldable pub add_block_presence :
      BitswapMessage Cid Bytes → Cid → BlockPresenceType → BitswapMessage Cid Bytes
  add_block_presence m cid typ =
      if Map.contains_key m.blocks cid
      then m
      else record m { block_presences = Map.insert m.block_presences cid typ }

  unfoldable pub add_have : BitswapMessage Cid Bytes → Cid → BitswapMessage Cid Bytes
  unfolding add_block_presence
  add_have m cid = add_block_presence m cid present

  unfoldable pub add_dont_have : BitswapMessage Cid Bytes → Cid → BitswapMessage Cid Bytes
  unfolding add_block_presence
  add_dont_have m cid = add_block_presence m cid absent
