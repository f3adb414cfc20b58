-- ===== src/Bitswap/Message/Invariant.antt =====
-- The messages that calls can build, and what a second entry for a content id changes.
use rust_ipfs.Base.{
  ℕ, Bool, false, ◌&&◌, ◌≡◌, refl, inl, inr, Option, [], ◌∷◌, arith, Eq, nat_eq, list_eq,
  Option-cases, Bool-cases,
}
use rust_ipfs.Base.Map
use rust_ipfs.Base.Map.{Map}
use rust_ipfs.Base.Int.{ℤ}
use rust_ipfs.Bitswap.Wantlist.{WantType}
use rust_ipfs.Bitswap.Message.{
  BlockPresenceType, Entry, Block, BitswapMessage, new, clear, keep_valid, verify_blocks, remove,
  add_full_entry, add_block, add_block_presence,
}

module _ {Cid Bytes : Type 0} ⦃e : Eq Cid⦄ where
  pub record IsValid (m : BitswapMessage Cid Bytes) : Type 0 where
    pub distinct_blocks : Map.HasKeys m.blocks
    pub distinct_presences : Map.HasKeys m.block_presences
    pub distinct_wants : Map.HasKeys m.wantlist
    -- No content id has both a block and a presence.
    pub apart :
        (j : Cid) → (Map.contains_key m.blocks j && Map.contains_key m.block_presences j) ≡ false

  get-keep_valid_absent :
      (verify : Block Cid Bytes → Option Bool) (m : Map Cid (Block Cid Bytes)) (j : Cid)
      → Map.contains_key m j ≡ false
      → Map.contains_key (keep_valid verify m) j ≡ false
  unfolding keep_valid Map.contains_key Map.get
  get-keep_valid_absent verify [] j h = h
  get-keep_valid_absent verify ((c, b) ∷ m) j h = ground (arith, get-keep_valid_absent verify m j)

  keep_valid-HasKeys :
      (verify : Block Cid Bytes → Option Bool) (m : Map Cid (Block Cid Bytes))
      → Map.HasKeys m
      → Map.HasKeys (keep_valid verify m)
  unfolding keep_valid Map.keys Map.contains_key
  keep_valid-HasKeys verify [] h = h
  keep_valid-HasKeys verify ((c, b) ∷ m) h = ground (
    arith,
    keep_valid-HasKeys verify m h.1,
    get-keep_valid_absent verify m c,
    Map.contains-keys m c,
    Map.contains-keys (keep_valid verify m) c,
  )

  pub new-IsValid : (full : Bool) → IsValid (new full)
  unfolding new Map.keys Map.contains_key Map.get
  new-IsValid full = record {
    distinct_blocks = tt;
    distinct_presences = tt;
    distinct_wants = tt;
    apart = λ j. refl;
  }

  pub clear-IsValid : (m : BitswapMessage Cid Bytes) (full : Bool) → IsValid (clear m full)
  unfolding clear Map.keys Map.contains_key Map.get
  clear-IsValid m full = record {
    distinct_blocks = tt;
    distinct_presences = tt;
    distinct_wants = tt;
    apart = λ j. refl;
  }

  pub verify_blocks-IsValid :
      (verify : Block Cid Bytes → Option Bool) (m : BitswapMessage Cid Bytes)
      → IsValid m
      → IsValid (verify_blocks verify m)
  unfolding verify_blocks
  verify_blocks-IsValid verify m v = record {
    distinct_blocks = keep_valid-HasKeys verify m.blocks v.distinct_blocks;
    distinct_presences = v.distinct_presences;
    distinct_wants = v.distinct_wants;
    apart = λ j. ground (arith, v.apart j, get-keep_valid_absent verify m.blocks j);
  }

  pub remove-IsValid : (m : BitswapMessage Cid Bytes) (c : Cid) → IsValid m → IsValid (remove m c)
  unfolding remove
  remove-IsValid m c v = record {
    distinct_blocks = v.distinct_blocks;
    distinct_presences = v.distinct_presences;
    distinct_wants = Map.remove-HasKeys m.wantlist c v.distinct_wants;
    apart = v.apart;
  }

  pub add_full_entry-IsValid :
      (len : Entry Cid → ℕ) (m : BitswapMessage Cid Bytes) (c : Cid) (p : ℤ) (cancels : Bool)
      (t : WantType) (send : Bool)
      → IsValid m
      → IsValid (add_full_entry len m c p cancels t send).0
  unfolding add_full_entry
  add_full_entry-IsValid len m c p cancels t send v =
      let keeps = λ (n : Entry Cid). Map.insert-HasKeys m.wantlist c n v.distinct_wants in
      elim (Option-cases (Map.get m.wantlist c)) [
        | inl gone ↦
            rw (gone, add_full_entry)
              (record {
                distinct_blocks = v.distinct_blocks;
                distinct_presences = v.distinct_presences;
                distinct_wants = keeps _;
                apart = v.apart;
              })
        | inr (old, found) ↦
            rw (found, add_full_entry)
              (record {
                distinct_blocks = v.distinct_blocks;
                distinct_presences = v.distinct_presences;
                distinct_wants = keeps _;
                apart = v.apart;
              })
      ]

  pub add_block-IsValid :
      (m : BitswapMessage Cid Bytes) (b : Block Cid Bytes) → IsValid m → IsValid (add_block m b)
  unfolding add_block Map.contains_key
  add_block-IsValid m b v = record {
    distinct_blocks = Map.insert-HasKeys m.blocks b.cid b v.distinct_blocks;
    distinct_presences = Map.remove-HasKeys m.block_presences b.cid v.distinct_presences;
    distinct_wants = v.distinct_wants;
    apart = λ j. ground (
      arith,
      v.apart j,
      Map.get-insert m.blocks b.cid b j,
      Map.get-remove m.block_presences b.cid j,
    );
  }

  pub add_block_presence-IsValid :
      (m : BitswapMessage Cid Bytes) (c : Cid) (t : BlockPresenceType)
      → IsValid m
      → IsValid (add_block_presence m c t)
  unfolding add_block_presence Map.contains_key
  add_block_presence-IsValid m c t v = elim (Bool-cases (Map.contains_key m.blocks c)) [
    | inl there ↦ rw (there, add_block_presence) v
    | inr absent_block ↦
        rw (absent_block, add_block_presence)
          (record {
            distinct_blocks = v.distinct_blocks;
            distinct_presences = Map.insert-HasKeys m.block_presences c t v.distinct_presences;
            distinct_wants = v.distinct_wants;
            apart = λ j. ground (
              arith,
              v.apart j,
              absent_block,
              Map.get_same m.blocks c j,
              Map.get-insert m.block_presences c t j,
            );
          })
  ]
