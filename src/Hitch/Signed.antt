-- ===== src/Hitch/Signed.antt =====
-- The other side's signatures of a channel's commitments (sidestr-hitch/src/protocol/machine.rs).
use sidestr_rs.Base.{ℕ, ◌≡◌, refl, true, ok}
use sidestr_rs.Base.Map.{lookup, nat_ord}
use sidestr_rs.Hitch.Data.{Side, side_a, side_b, same_side, ProtocolState}
use sidestr_rs.Hitch.Machine.{Crypto, Channel, Machine}
use sidestr_rs.Hitch.Reads.{commitment_at, verifies}

same_side_self : (side : Side) → same_side side side ≡ true
same_side_self side_a = refl
same_side_self side_b = refl

module _ (k : Crypto) (c : Channel) where
  -- A signature of this side's commitment of a state.
  abbrev pub Signs : Machine → ℕ → ProtocolState → ℕ → Type 0
  Signs m n s sig =
      (tx : ℕ) × (commitment_at k c m m.role n s ≡ ok tx) × (verifies k c m tx sig ≡ true)

  -- The commitment reads the role, the other side's base and the secret of its state.
  pub Signs-kept :
      (m m' : Machine) (n : ℕ) (s : ProtocolState) (sig : ℕ)
      → m'.role ≡ m.role
      → m'.their_revocation_base ≡ m.their_revocation_base
      → lookup n m'.my_revocation ≡ lookup n m.my_revocation
      → Signs m n s sig
      → Signs m' n s sig
  Signs-kept m m' n s sig role base secret (tx, made, good) = (
    tx,
    rw role (rw (same_side_self m.role, base, secret) (rw (same_side_self m.role) at made)),
    rw role good,
  )
