-- ===== src/Blocks.antt =====
-- The block's own encodings (sidestr-core/src/block.rs).
pub mod Witness
pub mod RoundTrip
pub mod Height
pub mod HeightTrip
