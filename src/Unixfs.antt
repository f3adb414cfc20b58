-- ===== src/Unixfs.antt =====
-- unixfs/src: files as trees of blocks.
pub mod Nodes
pub mod Collector
pub mod Adder
pub mod Reader
pub mod Visit
pub mod Tests
