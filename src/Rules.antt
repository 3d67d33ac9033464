-- ===== src/Rules.antt =====
-- Transaction validation and spending (sidestr-core/src/rules.rs).
pub mod Verdict
pub mod Transaction
pub mod Utxo
pub mod Spending
pub mod Inputs
pub mod Reads
pub mod Value
pub mod Distinct
