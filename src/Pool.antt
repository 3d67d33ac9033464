-- ===== src/Pool.antt =====
-- The constant-product pool rule (sidestr-core/src/pool.rs).
pub mod Transition
pub mod View
pub mod Rule
pub mod Root
pub mod Value
pub mod Life
pub mod Invariant
