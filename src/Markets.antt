-- ===== src/Markets.antt =====
-- The binary prediction markets (sidestr-core/src/markets.rs).
pub mod State
pub mod Actions
pub mod View
pub mod Rule
pub mod Solvency
pub mod Life
