-- ===== src/Hitch/Transition.antt =====
-- `ChannelMachine::next_state` of sidestr-hitch/src/protocol/machine.rs, with what it reads of the
-- machine as arguments.
use sidestr_rs.Base.{
  ℕ, ◌+◌, Bool, false, ◌||◌, ◌&&◌, not, Option, none, some, List, [], ◌∷◌, ◌++◌, ◌==◌, ltb, leb,
  if◌then◌else◌, any, u32_max, u64_max, checked_add, checked_sub, saturating_add, Result, ok, ok_or,
  fail_if, ◌>>=◌, ◌>>◌,
}
use sidestr_rs.Base.Map.{Map, contains_key, nat_ord}
use sidestr_rs.Hitch.Data.{
  Side, side_a, side_b, other, same_side, ProtocolHtlc, OfferedHtlc, Update, pay, add, settle, fail,
  ProtocolState, ProtocolError, negative_balance, balance_overflow, funder_fee, no_such_htlc,
  offerer_cannot_settle, wrong_preimage, htlc_expired, offerer_fail_before_expiry, known_preimage,
  bad_htlc_id, expiry_too_soon, duplicate_payment_hash, expiry_margin,
}

-- `ProtocolState::balance`, and a state with another balance of one side.
abbrev pub balance : ProtocolState → Side → ℕ
balance s side_a = s.balance_a
balance s side_b = s.balance_b

abbrev pub with_balance : ProtocolState → Side → ℕ → ProtocolState
with_balance s side_a n = record s { balance_a = n }
with_balance s side_b n = record s { balance_b = n }

abbrev pub subtract_balance : ProtocolState → Side → ℕ → Result ProtocolError ProtocolState
subtract_balance s side amount = do
  n ← ok_or negative_balance (checked_sub (balance s side) amount)
  ok (with_balance s side n)

abbrev pub add_balance : ProtocolState → Side → ℕ → Result ProtocolError ProtocolState
add_balance s side amount = do
  n ← ok_or balance_overflow (checked_add u64_max (balance s side) amount)
  ok (with_balance s side n)

-- The largest id of a list of HTLCs, 0 if there is none.
abbrev pub max_id : List ProtocolHtlc → ℕ
max_id [] = 0
max_id (h ∷ hs) = let m = max_id hs in if leb h.id m then m else h.id

-- The first HTLC with an id, and the others in their order.
abbrev put_back :
    ProtocolHtlc
    → Option (ProtocolHtlc × List ProtocolHtlc)
    → Option (ProtocolHtlc × List ProtocolHtlc)
put_back h none = none
put_back h (some (g, hs)) = some (g, h ∷ hs)

unfoldable pub take_htlc : ℕ → List ProtocolHtlc → Option (ProtocolHtlc × List ProtocolHtlc)
take_htlc id [] = none
take_htlc id (h ∷ hs) = if h.id == id then some (h, hs) else put_back h (take_htlc id hs)

abbrev pub has_hash : ℕ → List ProtocolHtlc → Bool
has_hash hash hs = any (λ h. h.hash == hash) hs

abbrev pub is_hash : ℕ → Option ℕ → Bool
is_hash hash none = false
is_hash hash (some h) = h == hash

-- What `next_state` reads of the machine: the funder's fee, the delay, the next id's lower bound,
-- the hash that a pending `add` locks and the preimages known; `sha` is SHA-256.
pub record Reading : Type 0 where
  pub fee : ℕ
  pub delay : ℕ
  pub htlc_seq : ℕ
  pub pending_hash : Option ℕ
  pub preimages : Map ℕ ℕ

module _ (sha : ℕ → ℕ) (m : Reading) where
  -- `next_htlc_id`
  abbrev pub next_htlc_id : ProtocolState → ℕ
  next_htlc_id s =
      let above = max_id s.htlcs + 1 in if leb above m.htlc_seq then m.htlc_seq else above

  abbrev pub locked : OfferedHtlc → Side → ProtocolHtlc
  locked h sender = record {
    id = h.id;
    from = sender;
    amount = h.amount;
    hash = h.hash;
    expiry = h.expiry;
    route = h.route;
  }

  abbrev pub add_htlc : ProtocolState → OfferedHtlc → Side → ℕ → Result ProtocolError ProtocolState
  add_htlc s h sender height = do
    fail_if (not (h.id == next_htlc_id s)) bad_htlc_id
    fail_if
        (leb h.expiry
          (saturating_add u32_max (saturating_add u32_max height m.delay) expiry_margin))
        expiry_too_soon
    fail_if (has_hash h.hash s.htlcs || is_hash h.hash m.pending_hash) duplicate_payment_hash
    paid ← subtract_balance s sender h.amount
    ok (record paid { htlcs = s.htlcs ++ locked h sender ∷ [] })

  abbrev pub settle_htlc : ProtocolState → ℕ → ℕ → Side → ℕ → Result ProtocolError ProtocolState
  settle_htlc s id preimage sender height = do
    (h, rest) ← ok_or no_such_htlc (take_htlc id s.htlcs)
    fail_if (same_side h.from sender) offerer_cannot_settle
    fail_if (not (sha preimage == h.hash)) wrong_preimage
    fail_if (leb h.expiry height) htlc_expired
    add_balance (record s { htlcs = rest }) sender h.amount

  abbrev pub fail_htlc : ProtocolState → ℕ → Side → ℕ → Result ProtocolError ProtocolState
  fail_htlc s id sender height = do
    (h, rest) ← ok_or no_such_htlc (take_htlc id s.htlcs)
    fail_if (same_side h.from sender && ltb height h.expiry) offerer_fail_before_expiry
    fail_if (same_side h.from sender && contains_key h.hash m.preimages) known_preimage
    add_balance (record s { htlcs = rest }) h.from h.amount

  abbrev pub change : ProtocolState → Update → Side → ℕ → Result ProtocolError ProtocolState
  change s (pay amount memo) sender height = do
    paid ← subtract_balance s sender amount
    add_balance paid (other sender) amount
  change s (add htlc memo) sender height = add_htlc s htlc sender height
  change s (settle id preimage) sender height = settle_htlc s id preimage sender height
  change s (fail id reason) sender height = fail_htlc s id sender height

  -- A commitment with no fee cannot be mined.
  unfoldable pub next_state : ProtocolState → Update → Side → ℕ → Result ProtocolError ProtocolState
  unfolding take_htlc
  next_state current update sender height = do
    state ← change current update sender height
    fail_if (ltb state.balance_a m.fee) funder_fee
    ok state
