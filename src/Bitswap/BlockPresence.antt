-- ===== src/Bitswap/BlockPresence.antt =====
-- packages/beetle-bitswap-next/src/client/block_presence_manager.rs: which peer has said that it
-- has, or does not have, which block. Each method is one step under the lock.
pub mod View
pub mod Tests
use rust_ipfs.Base.{
  ℕ, zero, suc, ◌+◌, ◌-◌, ◌≤◌, ◌<◌, Bool, true, false, not, ◌&&◌, ◌||◌, ◌≡◌, refl, sym, ap, subst,
  ◌∙◌, ◌⊎◌, inl, inr, ◌↔◌, ◌≢◌, Option, none, some, List, [], ◌∷◌, ◌++◌, map, arith, if◌then◌else◌,
  All, length, length-append, is_empty, retain, ltb, leb, Eq, ◌==◌, ==_iff, ==_refl, Option-cases,
  Bool-cases, is_some,
}
use rust_ipfs.Base.Map
use rust_ipfs.Base.Map.{Map}
use rust_ipfs.Base.Set

-- Content ids to peers to "has the block".
abbrev pub Presence : Type 0 → Type 0 → Type 0
Presence Cid Peer = Map Cid (Map Peer Bool)

-- The loop of `all_dont_have` over the peers.
unfoldable pub none_has : {Peer : Type 0} ⦃p : Eq Peer⦄ → Map Peer Bool → List Peer → Bool
none_has ps [] = true
none_has ps (peer ∷ peers) = elim (Map.get ps peer) [
  | none ↦ false
  | some has ↦ if has then false else none_has ps peers
]

module _ {Cid Peer : Type 0} ⦃c : Eq Cid⦄ ⦃p : Eq Peer⦄ where
  -- A HAVE is not changed to a DONT_HAVE. `or_default` leaves an entry for the key behind.
  unfoldable pub update_block_presence : Presence Cid Peer → Peer → Cid → Bool → Presence Cid Peer
  update_block_presence presence peer key present =
      let entry = Map.get_or presence key [] in
      if Map.get_or entry peer false
      then Map.insert presence key entry
      else Map.insert presence key (Map.insert entry peer present)

  unfoldable pub update_all : Presence Cid Peer → Peer → List Cid → Bool → Presence Cid Peer
  unfolding update_block_presence
  update_all presence peer [] present = presence
  update_all presence peer (key ∷ keys) present =
      update_all (update_block_presence presence peer key present) peer keys present

  unfoldable pub receive_from : Presence Cid Peer → Peer → List Cid → List Cid → Presence Cid Peer
  unfolding update_all
  receive_from presence peer haves dont_haves =
      update_all (update_all presence peer haves true) peer dont_haves false

  unfoldable pub peer_has_block : Presence Cid Peer → Peer → Cid → Bool
  peer_has_block presence peer cid = elim (Map.get presence cid) [
    | none ↦ false
    | some list ↦ elim (Map.get list peer) [ none ↦ false | some have ↦ have ]
  ]

  unfoldable pub peer_does_not_have_block : Presence Cid Peer → Peer → Cid → Bool
  peer_does_not_have_block presence peer cid = elim (Map.get presence cid) [
    | none ↦ false
    | some list ↦ elim (Map.get list peer) [ none ↦ false | some have ↦ not have ]
  ]

  unfoldable pub all_dont_have : Presence Cid Peer → List Peer → Cid → Bool
  unfolding none_has
  all_dont_have presence peers key = elim (Map.get presence key) [
    | none ↦ false
    | some ps ↦ none_has ps peers
  ]

  unfoldable pub all_peers_do_not_have_block : Presence Cid Peer → List Peer → List Cid → List Cid
  unfolding all_dont_have
  all_peers_do_not_have_block presence peers keys = retain (all_dont_have presence peers) keys

  unfoldable pub remove_keys : Presence Cid Peer → List Cid → Presence Cid Peer
  remove_keys presence [] = presence
  remove_keys presence (key ∷ keys) = remove_keys (Map.remove presence key) keys

  unfoldable pub has_key : Presence Cid Peer → Cid → Bool
  has_key presence cid = Map.contains_key presence cid
