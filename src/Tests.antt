-- ===== src/Tests.antt =====
-- A small chain to run the definitions on, and each theorem at an input of it.
pub mod Chain
pub mod Runs
pub mod Witnesses
pub mod Overlays
mod Rules
mod Blocks
mod Hitch
