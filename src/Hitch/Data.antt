-- ===== src/Hitch/Data.antt =====
-- The data of a channel: `Update`, `ProtocolHtlc` of sidestr-hitch/src/protocol/wire.rs,
-- `ProtocolState`, `PendingUpdate` and their kin of machine.rs, and `ProtocolError` of mod.rs.
use sidestr_rs.Base.{
  ℕ, ◌-◌, Bool, true, false, ◌||◌, Option, none, some, List, ltb, leb, length, not, Result, fail_if,
  ◌>>◌,
}

pub data Side : Type 0 where
  side_a side_b : Side

-- `Side::other`
abbrev pub other : Side → Side
other side_a = side_b
other side_b = side_a

abbrev pub same_side : Side → Side → Bool
same_side side_a side_a = true
same_side side_a side_b = false
same_side side_b side_a = false
same_side side_b side_b = true

-- A text by its UTF-16 code units; keys, hashes, secrets and signatures are numbers.
abbrev pub Text : Type 0
Text = List ℕ

-- A route is the node it leads to.
pub record OfferedHtlc : Type 0 where
  pub id : ℕ
  pub amount : ℕ
  pub hash : ℕ
  pub expiry : ℕ
  pub route : Option ℕ

pub record ProtocolHtlc : Type 0 where
  pub id : ℕ
  pub from : Side
  pub amount : ℕ
  pub hash : ℕ
  pub expiry : ℕ
  pub route : Option ℕ

pub data Update : Type 0 where
  pay : ℕ → Option Text → Update
  add : OfferedHtlc → Option Text → Update
  settle : ℕ → ℕ → Update
  fail : ℕ → Option Text → Update

pub record ProtocolState : Type 0 where
  pub balance_a : ℕ
  pub balance_b : ℕ
  pub htlcs : List ProtocolHtlc

-- `Bound`
pub data Bound : Type 0 where
  bound_state bound_pending bound_alt bound_chain : Bound

pub data ChannelStatus : Type 0 where
  funding open_channel closing_asked closing force_closing closed_mine closed_theirs : ChannelStatus
  closed_theirs_alt punishing settling closed_coop closed punished spent_unknown : ChannelStatus

-- The errors of the modelled operations; `transaction_error` is any error of the channel's
-- transactions and signatures, `panicked` the index of a key that is missing.
pub data ProtocolError : Type 0 where
  malformed wrong_channel missing_proof pending_update no_pending awaiting_revocation :
      ProtocolError
  in_flight bad_signature bad_revocation stale_chain zero_amount memo_too_long : ProtocolError
  htlc_too_small bad_expiry bad_htlc_id expiry_too_soon duplicate_payment_hash : ProtocolError
  negative_balance balance_overflow funder_fee no_such_htlc offerer_cannot_settle : ProtocolError
  wrong_preimage htlc_expired offerer_fail_before_expiry known_preimage unfunded : ProtocolError
  not_open wrong_channel_key : ProtocolError
  wrong_status : ChannelStatus → ProtocolError
  unexpected_state : ℕ → ℕ → ProtocolError
  missing_reveal missing_revocation_key missing_state missing_signature too_much : ℕ → ProtocolError
  hash_bound : Bound → ProtocolError
  transaction_error : ℕ → ProtocolError
  panicked : ProtocolError

-- `MIN_HTLC`, `EXPIRY_MARGIN`, `MEMO_MAX`, `MAX_SATS`, `MAX_EXPIRY`, `CLOSE_DEPTH` and
-- `RESYNC_INTERVAL`
abbrev pub min_htlc : ℕ
min_htlc = 1_000

abbrev pub expiry_margin : ℕ
expiry_margin = 12

abbrev pub memo_max : ℕ
memo_max = 140

abbrev pub max_sats : ℕ
max_sats = 2_100_000_000_000_000

abbrev pub max_expiry : ℕ
max_expiry = 500_000_000

abbrev pub close_depth : ℕ
close_depth = 6

abbrev pub resync_interval : ℕ
resync_interval = 30

-- `Update::added_hash`
abbrev pub added_hash : Update → Option ℕ
added_hash (pay amount memo) = none
added_hash (add htlc memo) = some htlc.hash
added_hash (settle htlc_id preimage) = none
added_hash (fail htlc_id reason) = none

abbrev pub text_ok : Option Text → Bool
text_ok none = true
text_ok (some t) = leb (length t) memo_max

abbrev pub within : ℕ → ℕ → ℕ → Bool
within lo hi n = not (ltb n lo || ltb hi n)

-- `Update::well_formed`
unfoldable pub update_well_formed : Update → Result ProtocolError (Unit {0})
update_well_formed (pay amount memo) =
    fail_if (not (text_ok memo)) malformed >> fail_if (not (within 1 max_sats amount)) malformed
update_well_formed (add htlc memo) =
    fail_if (not (text_ok memo)) malformed
    >> fail_if
        (ltb htlc.id 1
          || not (within min_htlc max_sats htlc.amount)
          || not (within 1 (max_expiry - 1) htlc.expiry))
        malformed
update_well_formed (settle htlc_id preimage) = fail_if (ltb htlc_id 1) malformed
update_well_formed (fail htlc_id reason) = fail_if (ltb htlc_id 1 || not (text_ok reason)) malformed
