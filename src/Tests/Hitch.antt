-- ===== src/Tests/Hitch.antt =====
-- A channel between two peers, and its theorems at an exchange of messages.
use sidestr_rs.Base.{
  ℕ, ◌+◌, ◌≤◌, ◌<◌, ◌≡◌, ◌⊎◌, refl, true, false, ◌==◌, none, some, List, [], ◌∷◌, ◌++◌, Result, ok,
  err,
}
use sidestr_rs.Base.Map.{contains_key, nat_ord, insert}
use sidestr_rs.Hitch.Data.{
  Side, side_a, side_b, other, same_side, update_well_formed, ProtocolHtlc, ProtocolState,
  ProtocolError, settle, fail, funding, force_closing,
}
use sidestr_rs.Hitch.Messages.{AckMessage}
use sidestr_rs.Hitch.Machine.{Crypto, Channel, Context, Machine}
use sidestr_rs.Hitch.Reads.{missing_reveals, reading}
use sidestr_rs.Hitch.Internals.{drop_pending, announce_dropped}
use sidestr_rs.Hitch.Transition.{Reading, balance, take_htlc, next_state}
use sidestr_rs.Hitch.Conservation.{value, next_state-value}
use sidestr_rs.Hitch.Htlcs.{next_state-settle, next_state-fail}
use sidestr_rs.Hitch.Proposing.{propose, sign_update}
use sidestr_rs.Hitch.Agreeing.{receive_ack, confirm_pending, confirmed}
use sidestr_rs.Hitch.Closing.{force_close}
use sidestr_rs.Hitch.Recovery.{resync, position}
use sidestr_rs.Hitch.Steps.{
  Call, call_confirm_funding, call_pay, call_receive_ack, call_resync, call_settle_htlc, run,
}
use sidestr_rs.Hitch.Sound.{IsSound}
use sidestr_rs.Hitch.Shown.{ShowsOnly}
use sidestr_rs.Hitch.Opening.{Keys, Theirs, new_machine, new_machine-IsPublishable}
use sidestr_rs.Hitch.Total.{IsFunded}
use sidestr_rs.Hitch.Balanced.{run-IsFunded}
use sidestr_rs.Hitch.Publishable.{IsPublishable}
use sidestr_rs.Hitch.Enforceable.{run-IsPublishable, force_close-returns}
use sidestr_rs.Hitch.Preimages.{settle_htlc-binds}
use sidestr_rs.Hitch.Revocation.{IsPast, IsBelow, run-IsSound, run-IsPast, force_close-IsBelow}

-- A public key is its secret and 1000; a proof of possession is always good.
abbrev crypto : Crypto
crypto = record {
  public = λ s. s + 1_000;
  is_secret = λ s. true;
  sha = λ s. s + 7;
  pop_sign = λ s id side n aux. s + n;
  pop_verify = λ point proof id side n. true;
  revocation_pub = λ point s. ok (point + s);
}

abbrev channel_key : Side → ℕ
channel_key side_a = 1_001
channel_key side_b = 1_002

-- A signature of a transaction by a key is their sum.
abbrev channel : Channel
channel = record {
  fee = 100;
  delay = 10;
  key = channel_key;
  commitment = λ n owner rev s. ok (n + rev);
  cooperative_close = λ s. ok 5;
  sign_funding = λ tx secret aux. ok (tx + secret + 1_000);
  verify_funding = λ tx key sig. sig == tx + key;
  funding_witness = λ tx mine theirs. ok tx;
  txid = λ tx. tx;
}

abbrev deposit : ProtocolState
deposit = record { balance_a = 50_000; balance_b = 20_000; htlcs = [] }

abbrev keys : Keys
keys = record { channel = 1; revocation_base = 10; revocation_zero = 20; revocation_one = 21 }

abbrev theirs : Theirs
theirs = record {
  revocation_base = 1_030;
  revocation_zero = 1_040;
  revocation_one = 1_041;
  signature_zero = 2_052;
}

abbrev start : Machine
start = record {
  id = 9;
  role = side_a;
  channel_key = 1;
  status = funding;
  funded_height = none;
  state_number = 0;
  states = (0, deposit) ∷ [];
  my_revocation_base = 10;
  their_revocation_base = 1_030;
  my_revocation = (0, 20) ∷ (1, 21) ∷ [];
  their_revocation = [];
  their_revocation_public = (0, 1_040) ∷ (1, 1_041) ∷ [];
  signatures = (0, 2_052) ∷ [];
  pending = none;
  awaiting = none;
  buffered = none;
  signed_alternatives = [];
  dropped = none;
  preimages = [];
  htlc_seq = 1;
  coop_txid = none;
  close = none;
  spend = none;
  outputs = [];
  last_sync_at = none;
  peer_ahead = none;
  events = [];
}

new_start : new_machine crypto channel 9 side_a deposit keys theirs ≡ ok start
unfolding new_machine
new_start = refl

abbrev context : Context
context = record { height = 100; now = 1_000; aux = 0; stale = false }

-- The other side acknowledges a payment of 500: its commitment's signature, its secret of state 0.
abbrev acknowledged : AckMessage
acknowledged = record {
  id = 9;
  n = 1;
  sig = 2_054;
  reveal = 40;
  next_rev = 1_042;
  next_rev_pop = 0;
}

abbrev exchange : List Call
exchange =
    call_confirm_funding 90
    ∷ call_pay 500 none 22 context
    ∷ call_receive_ack acknowledged
    ∷ call_resync context true
    ∷ []

exchanged : (run crypto channel start exchange).0.state_number ≡ 1
unfolding propose sign_update missing_reveals next_state receive_ack confirm_pending confirmed
    update_well_formed insert resync position
exchanged = refl

run-IsSound_example : IsSound (run crypto channel start exchange).0
run-IsSound_example = run-IsSound crypto channel start exchange (refl, refl)

run-IsPast_example :
    (start.state_number ≤ (run crypto channel start exchange).0.state_number)
    × ShowsOnly (IsPast (run crypto channel start exchange).0) (run crypto channel start exchange).1
run-IsPast_example = run-IsPast crypto channel start exchange (refl, refl)

abbrev agreed : Machine
agreed = (run crypto channel start exchange).0

abbrev machine_of : Result ProtocolError (Machine × ℕ) → Machine
machine_of (ok (m, tx)) = m
machine_of (err e) = start

abbrev published : Machine
published = machine_of (force_close crypto channel agreed none context)

publishes : force_close crypto channel agreed none context ≡ ok (published, 1_052)
unfolding propose sign_update missing_reveals next_state receive_ack confirm_pending confirmed
    update_well_formed insert resync position force_close announce_dropped drop_pending
publishes = refl

abbrev afterwards : List Call
afterwards = call_receive_ack acknowledged ∷ call_resync context true ∷ []

force_close-IsBelow_example :
    ShowsOnly
      (IsBelow agreed.state_number (run crypto channel published afterwards).0)
      ((run crypto channel start exchange).1 ++ (run crypto channel published afterwards).1)
force_close-IsBelow_example =
    force_close-IsBelow crypto channel start exchange afterwards context (refl, refl) publishes

-- What the machine's `next_state` reads, with a preimage of hash 77 known.
abbrev known_reading : Reading
known_reading = record {
  fee = 100;
  delay = 10;
  htlc_seq = 1;
  pending_hash = none;
  preimages = (77, 70) ∷ [];
}

abbrev htlc : ProtocolHtlc
htlc = record { id = 4; from = side_b; amount = 2_000; hash = 55; expiry = 300; route = none }

abbrev locked : ProtocolState
locked = record { balance_a = 50_000; balance_b = 18_000; htlcs = htlc ∷ [] }

abbrev settled : ProtocolState
settled = record { balance_a = 52_000; balance_b = 18_000; htlcs = [] }

settles : next_state crypto.sha known_reading locked (settle 4 48) side_a 200 ≡ ok settled
unfolding next_state take_htlc
settles = refl

fails : next_state crypto.sha known_reading locked (fail 4 none) side_b 300 ≡ ok deposit
unfolding next_state take_htlc
fails = refl

found : take_htlc 4 locked.htlcs ≡ some (htlc, [])
unfolding take_htlc
found = refl

next_state-value_example : (value settled ≡ value locked) × (100 ≤ settled.balance_a)
next_state-value_example =
    next_state-value crypto.sha known_reading locked (settle 4 48) side_a 200 settles

next_state-settle_example :
    (same_side side_b side_a ≡ false)
    × (crypto.sha 48 ≡ 55)
    × (200 < 300)
    × (settled.htlcs ≡ [])
    × (balance settled side_a ≡ balance locked side_a + 2_000)
    × (balance settled (other side_a) ≡ balance locked (other side_a))
next_state-settle_example =
    next_state-settle crypto.sha known_reading locked 4 48 side_a 200 found settles

next_state-fail_example :
    ((same_side side_b side_b ≡ false)
      ⊎ ((300 ≤ 300) × (contains_key 55 known_reading.preimages ≡ false)))
    × (deposit.htlcs ≡ [])
    × (balance deposit side_b ≡ balance locked side_b + 2_000)
    × (balance deposit (other side_b) ≡ balance locked (other side_b))
next_state-fail_example =
    next_state-fail crypto.sha known_reading locked 4 none side_b 300 found fails

run-IsFunded_example : IsFunded 70_000 (run crypto channel start exchange).0
run-IsFunded_example = run-IsFunded 70_000 crypto channel start exchange ((refl, tt), tt)

run-IsPublishable_example : IsPublishable crypto channel (run crypto channel start exchange).0
run-IsPublishable_example =
    run-IsPublishable crypto channel start exchange
      (new_machine-IsPublishable crypto channel 9 side_a deposit keys theirs new_start)

force_close-returns_example :
    (closed : Machine) × (tx : ℕ) × (force_close crypto channel
        (run crypto channel start exchange).0
        none
        context
      ≡ ok (closed, tx))
    × (closed.status ≡ force_closing)
unfolding propose sign_update missing_reveals next_state receive_ack confirm_pending confirmed
    update_well_formed insert resync position
force_close-returns_example =
    force_close-returns crypto channel 9 side_a deposit keys theirs exchange context new_start refl
      refl (λ tx key aux. (tx + key + 1_000, refl)) (λ tx mine other. (tx, refl))

-- An HTLC that this side offered, locked by the hash of 48.
abbrev offered : ProtocolHtlc
offered = record { id = 4; from = side_a; amount = 2_000; hash = 55; expiry = 300; route = none }

abbrev offering : ProtocolState
offering = record { balance_a = 48_000; balance_b = 20_000; htlcs = offered ∷ [] }

found_offered : take_htlc 4 offering.htlcs ≡ some (offered, [])
unfolding take_htlc
found_offered = refl

-- A settlement that is refused, and calls after it.
abbrev tried : List Call
tried = call_settle_htlc 4 48 22 context ∷ exchange

settle_htlc-binds_example : ¬ (
    next_state crypto.sha
      (reading crypto channel (run crypto channel start tried).0)
      offering
      (fail 4 none)
      (run crypto channel start tried).0.role
      400
    ≡ ok deposit)
unfolding propose sign_update missing_reveals next_state receive_ack confirm_pending confirmed
    update_well_formed insert resync position
settle_htlc-binds_example =
    settle_htlc-binds crypto channel start 4 48 22 context exchange offering 4 none 400
      found_offered refl refl
