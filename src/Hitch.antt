-- ===== src/Hitch.antt =====
-- The payment channel between two peers: sidestr-hitch/src/protocol/{wire,machine}.rs.
pub mod Data
pub mod Transition
pub mod Conservation
pub mod Messages
pub mod Machine
pub mod Reads
pub mod Internals
pub mod Proposing
pub mod Answering
pub mod Agreeing
pub mod Closing
pub mod Recovery
pub mod Steps
pub mod Sound
pub mod Signed
pub mod Held
pub mod Preserved
pub mod Publishable
pub mod Confirmed
pub mod Enforceable
pub mod Preimages
pub mod Received
pub mod Acknowledged
pub mod Shown
pub mod Guarded
pub mod Moves
pub mod Syncs
pub mod Revocation
pub mod Opening
pub mod Htlcs
pub mod Total
pub mod Funded
pub mod Adopted
pub mod Conserved
pub mod Balanced
pub mod Discreet
pub mod Reconciled
pub mod Agreed
