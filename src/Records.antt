-- ===== src/Records.antt =====
-- Records (sidestr-core/src/records.rs): the texts that a transaction carries in `OP_RETURN`
-- outputs, and the grammar of those that the overlay rules read.
pub mod Script
pub mod Grammar
pub mod Market
pub mod Classify
pub mod RoundTrip
