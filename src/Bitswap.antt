-- ===== src/Bitswap.antt =====
-- packages/beetle-bitswap-next: one module for each part of the bitswap engine.
pub mod Wantlist
pub mod Message
pub mod WantsUpdate
pub mod Ledger
pub mod RecallWantlist
pub mod SessionInterest
pub mod BlockPresence
pub mod CidQueue
pub mod SessionWants
pub mod PeerWants
