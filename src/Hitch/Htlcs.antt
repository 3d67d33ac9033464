-- ===== src/Hitch/Htlcs.antt =====
-- When a hash-locked payment is settled and when it comes back (`next_state` of
-- sidestr-hitch/src/protocol/machine.rs).
use sidestr_rs.Base.{ℕ, ◌+◌, ◌≤◌, ◌<◌, ◌≡◌, false, ◌⊎◌, Option, some, List, ok, arith}
use sidestr_rs.Base.Map.{contains_key, nat_ord}
use sidestr_rs.Hitch.Data.{
  Side, side_a, side_b, other, same_side, ProtocolHtlc, ProtocolState, settle, fail, Text,
}
use sidestr_rs.Hitch.Transition.{Reading, balance, take_htlc, next_state}

module _ (sha : ℕ → ℕ) (m : Reading) where
  -- An HTLC is settled only by the side that did not offer it, with a preimage of its hash and before
  -- its expiry; it is taken out and its amount goes to that side.
  pub next_state-settle :
      (s : ProtocolState) (id preimage : ℕ) (sender : Side) (height : ℕ) {h : ProtocolHtlc}
      {rest : List ProtocolHtlc} {s' : ProtocolState}
      → take_htlc id s.htlcs ≡ some (h, rest)
      → next_state sha m s (settle id preimage) sender height ≡ ok s'
      → (same_side h.from sender ≡ false)
        × (sha preimage ≡ h.hash)
        × (height < h.expiry)
        × (s'.htlcs ≡ rest)
        × (balance s' sender ≡ balance s sender + h.amount)
        × (balance s' (other sender) ≡ balance s (other sender))
  unfolding next_state
  next_state-settle s id preimage side_a height found e = ground arith
  next_state-settle s id preimage side_b height found e = ground arith

  -- An HTLC is failed by the side that did not offer it, or by the other once it has expired and no
  -- preimage of it is known; it is taken out and its amount goes back to the side that offered it.
  pub next_state-fail :
      (s : ProtocolState) (id : ℕ) (reason : Option Text) (sender : Side) (height : ℕ)
      {h : ProtocolHtlc} {rest : List ProtocolHtlc} {s' : ProtocolState}
      → take_htlc id s.htlcs ≡ some (h, rest)
      → next_state sha m s (fail id reason) sender height ≡ ok s'
      → ((same_side h.from sender ≡ false)
          ⊎ ((h.expiry ≤ height) × (contains_key h.hash m.preimages ≡ false)))
        × (s'.htlcs ≡ rest)
        × (balance s' h.from ≡ balance s h.from + h.amount)
        × (balance s' (other h.from) ≡ balance s (other h.from))
  unfolding next_state
  next_state-fail s id reason sender height found e = ground arith
