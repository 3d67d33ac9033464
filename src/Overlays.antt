-- ===== src/Overlays.antt =====
-- The overlay rules together (sidestr-core/src/overlays.rs): the mint policy that lets the pool and
-- the markets rule create assets, and the order in which a producer takes its mempool.
pub mod Policy
pub mod Sequence
pub mod Partition
pub mod Production
