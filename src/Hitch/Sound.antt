-- ===== src/Hitch/Sound.antt =====
-- What holds of a channel between any two calls: its pending update is the next state's, and a
-- channel that can still change has published no close (`ChannelMachine` of
-- sidestr-hitch/src/protocol/machine.rs).
use sidestr_rs.Base.{
  ◌⊎◌, inl, inr, Bool-cases, ℕ, ◌+◌, ◌≡◌, Bool, true, false, ◌||◌, not, none, some, ◌==◌, arith,
}
use sidestr_rs.Hitch.Data.{ChannelStatus, funding, open_channel, closing_asked, force_closing}
use sidestr_rs.Hitch.Messages.{Reason}
use sidestr_rs.Hitch.Machine.{Crypto, Machine}
use sidestr_rs.Hitch.Reads.{is_some}
use sidestr_rs.Hitch.Internals.{drop_pending, announce_dropped, take_their_reveal, finalise}

abbrev can_change : ChannelStatus → Bool
can_change open_channel = true
can_change closing_asked = true
can_change funding = true
can_change s = false

abbrev pub pending_is_next : Machine → Bool
pending_is_next m = elim m.pending [ none ↦ true | some p ↦ p.n == m.state_number + 1 ]

abbrev pub is_unclosed : Machine → Bool
is_unclosed m = not (can_change m.status) || not (is_some m.close)

abbrev pub IsSound : Machine → Type 0
IsSound m = (pending_is_next m ≡ true) × (is_unclosed m ≡ true)

-- A machine whose commitment is published stays so, with the close it published.
abbrev pub is_forced : ChannelStatus → Bool
is_forced force_closing = true
is_forced s = false

abbrev pub StaysShut : Machine → Machine → Type 0
StaysShut m m' =
    (is_forced m.status ≡ false) ⊎ ((is_forced m'.status ≡ true) × (m'.close ≡ m.close))

-- What most steps leave as it was.
abbrev pub SameCore : Machine → Machine → Type 0
SameCore m m' =
    (m'.state_number ≡ m.state_number)
    × (m'.my_revocation ≡ m.my_revocation)
    × (m'.status ≡ m.status)
    × (m'.close ≡ m.close)

pub drop_pending-SameCore :
    (m : Machine) (why : Reason)
    → SameCore m (drop_pending why m) × ((drop_pending why m).pending ≡ none)
unfolding drop_pending
drop_pending-SameCore m why = ground arith

pub announce_dropped-SameCore :
    (m : Machine) → SameCore m (announce_dropped m) × ((announce_dropped m).pending ≡ m.pending)
unfolding announce_dropped
announce_dropped-SameCore m = ground arith

pub take_their_reveal-SameCore :
    (k : Crypto) (index reveal : ℕ) (m : Machine)
    → SameCore m (take_their_reveal k index reveal m).1
      × ((take_their_reveal k index reveal m).1.pending ≡ m.pending)
take_their_reveal-SameCore k index reveal m = ground arith

pub finalise-SameCore :
    (m : Machine) → SameCore m (finalise m).1 × ((finalise m).1.pending ≡ m.pending)
unfolding finalise announce_dropped
finalise-SameCore m = ground arith

-- A machine with the same core and the same pending update, or none, is as sound.
pub SameCore-IsSound :
    (m m' : Machine) → SameCore m m' → m'.pending ≡ m.pending → IsSound m → IsSound m'
SameCore-IsSound m m' same p sound = ground arith

pub SameCore-IsSound-none :
    (m m' : Machine) → SameCore m m' → m'.pending ≡ none → IsSound m → IsSound m'
SameCore-IsSound-none m m' same p sound = ground arith

pub SameCore-StaysShut : (m m' : Machine) → SameCore m m' → StaysShut m m'
SameCore-StaysShut m m' same = elim (Bool-cases (is_forced m.status)) [
  | inl forced ↦ inr (rw (same.2) forced, same.3)
  | inr open_still ↦ inl open_still
]

pub SameCore-trans : (m m' m'' : Machine) → SameCore m m' → SameCore m' m'' → SameCore m m''
SameCore-trans m m' m'' same same' = ground arith
