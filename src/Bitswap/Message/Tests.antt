-- ===== src/Bitswap/Message/Tests.antt =====
-- Runs of messages, with numbers as content ids and data.
use rust_ipfs.Base.{ℕ, true, false, not, ◌≡◌, refl, [], ◌∷◌, nat_eq, list_eq, nat_beq, is_some}
use rust_ipfs.Base.Map
use rust_ipfs.Base.Map.{Map}
use rust_ipfs.Base.Int.{pos}
use rust_ipfs.Bitswap.Wantlist.{block, have}
use rust_ipfs.Bitswap.Message.{
  present, absent, Entry, BitswapMessage, new, dont_haves, add_full_entry, add_block,
  add_block_presence, add_have,
}
use rust_ipfs.Bitswap.Message.Invariant.{IsValid}
use rust_ipfs.Bitswap.Message.Building.{
  cancels, asks_dont_have, asks_block, Reach, Reach-IsValid_message, add_full_entry_lem,
}

-- A have for 4 gives way to the block; 5 is wanted, and then cancelled.
abbrev message : BitswapMessage ℕ ℕ
message = record {
  full = true;
  wantlist =
      (
        5,
        record {
          cid = 5;
          priority = pos 2;
          want_type = block;
          cancel = true;
          send_dont_have = true;
        },
      )
      ∷ [];
  blocks = (4, record { cid = 4; bytes = 44 }) ∷ [];
  block_presences = (6, absent) ∷ [];
  pending_bytes = pos 0;
}

abbrev entry_len : Entry ℕ → ℕ
entry_len n = 9

message-Reach : Reach message
unfolding add_full_entry Map.get add_block_presence Map.contains_key add_block Map.insert new
    Map.remove
message-Reach = Reach.entered entry_len 5 (pos 0) true block false (
    Reach.entered entry_len 5 (pos 2) false have true (
      Reach.with_presence 6 absent (
        Reach.with_block (record { cid = 4; bytes = 44 })
          (Reach.with_presence 4 present (Reach.start true)))))

lacks : dont_haves message ≡ 6 ∷ []
unfolding dont_haves
lacks = refl

blocked : add_have message 4 ≡ message
unfolding add_have Map.contains_key
blocked = refl

Reach-IsValid_message_example : IsValid message
Reach-IsValid_message_example = Reach-IsValid_message message-Reach

add_full_entry_lem_example :
    let (m', size) = add_full_entry entry_len message 5 (pos 7) false have false in
    let got = Map.get m'.wantlist 5 in
    (is_some got ≡ true)
    × (cancels got ≡ true)
    × (asks_dont_have got ≡ true)
    × (asks_block got ≡ true)
    × (not (nat_beq size 0) ≡ false)
unfolding Map.get
add_full_entry_lem_example = add_full_entry_lem entry_len message 5 (pos 7) false have false 5
