-- ===== src/Hitch/Proposing.antt =====
-- A peer's own updates: `confirm_funding` to `resend_update` of `ChannelMachine`
-- (sidestr-hitch/src/protocol/machine.rs).
use sidestr_rs.Base.{
  ℕ, ◌+◌, ◌-◌, ◌%◌, ◌^◌, Bool, true, false, ◌&&◌, not, Option, none, some, [], ◌∷◌, ◌==◌, ltb, leb,
  first, u32_max, saturating_add, Result, ok, err, ◌>>=◌, ◌>>◌, fail_if, if◌then◌else◌,
}
use sidestr_rs.Base.Map.{insert, contains_key, nat_ord}
use sidestr_rs.Hitch.Data.{
  Side, side_a, side_b, other, Text, OfferedHtlc, ProtocolState, Update, pay, add, settle, fail,
  ChannelStatus, funding, open_channel, ProtocolError, not_open, pending_update,
  awaiting_revocation, missing_reveal, missing_revocation_key, memo_too_long, stale_chain,
  hash_bound, zero_amount, too_much, htlc_too_small, bad_expiry, text_ok, within, min_htlc,
  max_expiry, memo_max, update_well_formed,
}
use sidestr_rs.Hitch.Transition.{balance, next_htlc_id, next_state}
use sidestr_rs.Hitch.Messages.{UpdateMessage}
use sidestr_rs.Hitch.Machine.{Crypto, Channel, Context, Machine}
use sidestr_rs.Hitch.Reads.{
  is_some, current_state, missing_reveals, bound, my_secret, reading, commitment_at, sign, my_pop,
}
use sidestr_rs.Hitch.Internals.{or_insert, remember_preimage}

abbrev pub is_open : ChannelStatus → Bool
is_open open_channel = true
is_open s = false

abbrev opened : ChannelStatus → ChannelStatus
opened funding = open_channel
opened s = s

abbrev pub confirm_funding : ℕ → Machine → Machine
confirm_funding height m = record m {
  funded_height = if is_some m.funded_height then m.funded_height else some height;
  status = opened m.status;
}

-- A Rust method that changes the machine only when it returns no error.
abbrev pub keep {ℓ} :
    {X : Type ℓ} → Machine → Result ProtocolError (Machine × X) → Machine × Result ProtocolError X
keep m (err e) = (m, err e)
keep m (ok (m', x)) = (m', ok x)

abbrev pub no_missing_reveal : Machine → Result ProtocolError (Unit {0})
no_missing_reveal m = elim (first (missing_reveals m)) [
  | none ↦ ok tt
  | some n ↦ err (missing_reveal n)
]

abbrev pub memo_of : Update → Option Text
memo_of (pay amount memo) = memo
memo_of (add htlc memo) = memo
memo_of (settle htlc_id preimage) = none
memo_of (fail htlc_id reason) = reason

abbrev pub is_pay : Update → Bool
is_pay (pay amount memo) = true
is_pay u = false

-- `as i64`, moved up by 2^63: it keeps the order of the signed values.
abbrev as_i64 : ℕ → ℕ
as_i64 n = (n + 2 ^ 63) % 2 ^ 64

-- The fee that the funder keeps, and `amount as i64 > room`.
abbrev kept_fee : Channel → Side → ℕ
kept_fee c side_a = c.fee
kept_fee c side_b = 0

abbrev exceeds_room : ℕ → ℕ → ℕ → Bool
exceeds_room amount mine fee = ltb (as_i64 mine + 2 ^ 63) (as_i64 amount + as_i64 fee)

-- `truncate_utf16`: a character that starts with a high surrogate needs two code units.
abbrev width : ℕ → ℕ
width unit = if leb 55_296 unit && leb unit 56_319 then 2 else 1

abbrev pub truncate : ℕ → Text → Text
truncate limit [] = []
truncate limit (x ∷ xs) = elim (ltb limit (width x)) [
  | true ↦ []
  | false ↦ x ∷ truncate (limit - 1) xs
]

module _ (k : Crypto) (c : Channel) where
  -- An `add` gets its id, and its hash must have no force on the channel.
  abbrev pub numbered : Machine → ProtocolState → Update → ℕ → Result ProtocolError Update
  numbered m s (add htlc memo) height = elim (bound m s htlc.hash height) [
    | none ↦ ok (add (record htlc { id = next_htlc_id k.sha (reading k c m) s }) memo)
    | some b ↦ err (hash_bound b)
  ]
  numbered m s u height = ok u

  -- `pending = Some(...)`, with the state signed and the secret announced.
  abbrev proposed : Machine → Update → ProtocolState → ℕ → ℕ → ℕ → Context → Machine × UpdateMessage
  proposed m u s sig next_revocation secret ctx =
      let n = m.state_number + 1 in
      let message : UpdateMessage = record {
        id = m.id;
        n = n;
        update = u;
        sig = sig;
        next_rev = k.public secret;
        next_rev_pop = my_pop k c m secret (n + 1) ctx;
      } in
      (
        record m {
          my_revocation = or_insert (n + 1) next_revocation m.my_revocation;
          states = insert n s m.states;
          pending = some (record { n = n; update = u; message = message; at = ctx.now; tries = 1 });
        },
        message,
      )

  -- The next state is signed for the other side and the update is pending.
  unfoldable pub sign_update :
      Machine
      → Update
      → ProtocolState
      → ℕ
      → Context
      → Result ProtocolError (Machine × UpdateMessage)
  sign_update m u s next_revocation ctx = do
    fail_if (not (contains_key (m.state_number + 1) m.my_revocation))
        (missing_revocation_key (m.state_number + 1))
    tx ← commitment_at k c m (other m.role) (m.state_number + 1) s
    sig ← sign k c m tx ctx
    secret ←
        my_secret
          (record m {
            my_revocation = or_insert (m.state_number + 1 + 1) next_revocation m.my_revocation;
          })
          (m.state_number + 1 + 1)
    ok (proposed m u s sig next_revocation secret ctx)

  unfoldable pub propose :
      Machine → Update → ℕ → Context → Result ProtocolError (Machine × UpdateMessage)
  propose m update next_revocation ctx = do
    fail_if (not (is_open m.status)) not_open
    fail_if (is_some m.pending) pending_update
    fail_if (is_some m.awaiting) awaiting_revocation
    no_missing_reveal m
    fail_if (not (contains_key (m.state_number + 1) m.their_revocation_public))
        (missing_revocation_key (m.state_number + 1))
    fail_if (not (text_ok (memo_of update))) memo_too_long
    fail_if (not (is_pay update) && ctx.stale) stale_chain
    current ← current_state m
    u ← numbered m current update ctx.height
    update_well_formed u
    s ← next_state k.sha (reading k c m) current u m.role ctx.height
    sign_update m u s next_revocation ctx

  abbrev pub send_pay :
      Machine → ℕ → Option Text → ℕ → Context → Result ProtocolError (Machine × UpdateMessage)
  send_pay m amount memo next_revocation ctx = do
    fail_if (amount == 0) zero_amount
    current ← current_state m
    let mine = balance current m.role
    fail_if (exceeds_room amount mine (kept_fee c m.role)) (too_much (mine - kept_fee c m.role))
    propose m (pay amount memo) next_revocation ctx

  abbrev pub send_add :
      Machine
      → ℕ
      → ℕ
      → ℕ
      → Option ℕ
      → Option Text
      → ℕ
      → Context
      → Result ProtocolError (Machine × UpdateMessage)
  send_add m amount hash expiry route memo next_revocation ctx = do
    fail_if (ltb amount min_htlc) htlc_too_small
    current ← current_state m
    let mine = balance current m.role
    fail_if (exceeds_room amount mine (kept_fee c m.role)) (too_much (mine - kept_fee c m.role))
    fail_if (not (within 1 (max_expiry - 1) expiry)) bad_expiry
    let htlc : OfferedHtlc = record {
      id = 0;
      amount = amount;
      hash = hash;
      expiry = expiry;
      route = route;
    }
    propose m (add htlc memo) next_revocation ctx

  -- The preimage is kept first, whatever becomes of the update.
  abbrev pub send_settle :
      Machine → ℕ → ℕ → ℕ → Context → Machine × Result ProtocolError UpdateMessage
  send_settle m htlc_id preimage next_revocation ctx =
      let kept = remember_preimage k preimage m in
      keep kept (propose kept (settle htlc_id preimage) next_revocation ctx)

  abbrev pub send_fail :
      Machine → ℕ → Option Text → ℕ → Context → Result ProtocolError (Machine × UpdateMessage)
  send_fail m htlc_id none next_revocation ctx = propose m (fail htlc_id none) next_revocation ctx
  send_fail m htlc_id (some t) next_revocation ctx =
      propose m (fail htlc_id (some (truncate memo_max t))) next_revocation ctx

-- The pending update is sent again unchanged, with its try counted.
abbrev pub resend_update : Machine → Context → Machine × Option UpdateMessage
resend_update m ctx = elim m.pending [
  | none ↦ (m, none)
  | some p ↦ (
    record m {
      pending = some (record p { tries = saturating_add u32_max p.tries 1; at = ctx.now });
    },
    some p.message,
  )
]
