-- ===== src/Hitch/Held.antt =====
-- What the steps of a channel leave as it was of what it holds
-- (sidestr-hitch/src/protocol/machine.rs).
use sidestr_rs.Base.{ℕ, ◌≡◌, arith}
use sidestr_rs.Hitch.Machine.{Crypto, Context, Machine}
use sidestr_rs.Hitch.Internals.{announce_dropped, finalise, take_their_reveal}
use sidestr_rs.Hitch.Proposing.{resend_update}
use sidestr_rs.Hitch.Answering.{take_buffered_update}
use sidestr_rs.Hitch.Sound.{pending_is_next}

-- What most steps leave as it was.
abbrev pub SameHeld : Machine → Machine → Type 0
SameHeld m m' =
    (m'.states ≡ m.states)
    × (m'.signed_alternatives ≡ m.signed_alternatives)
    × (m'.signatures ≡ m.signatures)
    × (m'.state_number ≡ m.state_number)
    × (m'.my_revocation ≡ m.my_revocation)
    × (m'.role ≡ m.role)
    × (m'.their_revocation_base ≡ m.their_revocation_base)
    × (m'.preimages ≡ m.preimages)
    × (pending_is_next m' ≡ pending_is_next m)

pub announce_dropped-SameHeld : (m : Machine) → SameHeld m (announce_dropped m)
unfolding announce_dropped
announce_dropped-SameHeld m = ground arith

pub take_their_reveal-SameHeld :
    (k : Crypto) (index reveal : ℕ) (m : Machine)
    → SameHeld m (take_their_reveal k index reveal m).1
take_their_reveal-SameHeld k index reveal m = ground arith

pub finalise-SameHeld : (m : Machine) → SameHeld m (finalise m).1
unfolding finalise announce_dropped
finalise-SameHeld m = ground arith

pub resend_update-SameHeld : (m : Machine) (ctx : Context) → SameHeld m (resend_update m ctx).0
resend_update-SameHeld m ctx = ground arith

pub take_buffered_update-SameHeld : (m : Machine) → SameHeld m (take_buffered_update m).0
take_buffered_update-SameHeld m = ground arith
