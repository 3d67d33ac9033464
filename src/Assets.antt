-- ===== src/Assets.antt =====
-- The assets rule (sidestr-core/src/assets.rs): what each unspent output carries.
pub mod Carry
pub mod Check
pub mod View
pub mod Rule
pub mod Supply
pub mod Conservation
pub mod Blocks
pub mod Verdict
pub mod Commit
pub mod Spent
