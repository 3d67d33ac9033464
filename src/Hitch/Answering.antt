-- ===== src/Hitch/Answering.antt =====
-- The other side's updates: `receive_update`, `acknowledgement` and `take_buffered_update` of
-- `ChannelMachine` (sidestr-hitch/src/protocol/machine.rs).
use sidestr_rs.Base.{
  ℕ, zero, suc, ◌+◌, Bool, true, false, ◌||◌, ◌&&◌, not, Option, none, some, ◌==◌, ltb, Result, ok,
  err, ok_or, ◌>>=◌, ◌>>◌, fail_if, if◌then◌else◌,
}
use sidestr_rs.Base.Map.{lookup, insert, contains_key, nat_ord}
use sidestr_rs.Hitch.Data.{
  other, ProtocolState, Update, settle, ChannelStatus, closing_asked, ProtocolError, wrong_status,
  wrong_channel, unexpected_state, missing_revocation_key, stale_chain,
}
use sidestr_rs.Hitch.Transition.{next_state}
use sidestr_rs.Hitch.Messages.{
  UpdateMessage, AckMessage, RejectMessage, Reason, close_signed, no_proof,
  bad_commitment_signature, collision, they_won, already_agreed, not_allowed,
  update_message_well_formed,
}
use sidestr_rs.Hitch.Machine.{Crypto, Channel, Context, Machine, AwaitingRevoke}
use sidestr_rs.Hitch.Reads.{
  is_some, state_of, current_state, may_reveal, my_secret, reading, my_key, peer_key, commitment_at,
  sign, verifies, their_pop_ok, my_pop,
}
use sidestr_rs.Hitch.Internals.{or_insert, remember_preimage, bump_htlc_seq, drop_pending}
use sidestr_rs.Hitch.Proposing.{is_open, is_pay, no_missing_reveal}

pub data ReceiveUpdate : Type 0 where
  acknowledge resend_acknowledgement : AckMessage → ReceiveUpdate
  is_buffered : ReceiveUpdate
  rejected local_proposal_wins : RejectMessage → ReceiveUpdate

abbrev pub is_closing_asked : ChannelStatus → Bool
is_closing_asked closing_asked = true
is_closing_asked s = false

abbrev pub check_id : Machine → ℕ → Result ProtocolError (Unit {0})
check_id m id = fail_if (not (id == m.id)) wrong_channel

abbrev reject : UpdateMessage → Reason → RejectMessage
reject u why = record { id = u.id; n = u.n; sig = u.sig; reason = some why }

abbrev signature_is : Machine → ℕ → ℕ → Bool
signature_is m n sig = elim (lookup n m.signatures) [ none ↦ false | some known ↦ known == sig ]

-- The preimage that an update shows.
abbrev pub learn : Crypto → Update → Machine → Machine
learn k (settle htlc_id preimage) m = remember_preimage k preimage m
learn k u m = m

-- What is left to do of an update once its checks are through: to send an answer, or to acknowledge
-- it in the machine that took it.
pub data Answer : Type 0 where
  final : ReceiveUpdate → Answer
  took : Answer

module _ (k : Crypto) (c : Channel) where
  abbrev acknowledged : Machine → ℕ → ℕ → Context → Result ProtocolError (Option AckMessage)
  acknowledged m n previous ctx = do
    s ← state_of m n
    theirs ← commitment_at k c m (other m.role) n s
    sig ← sign k c m theirs ctx
    next ← ok_or (missing_revocation_key (n + 1)) (lookup (n + 1) m.my_revocation)
    reveal ← my_secret m previous
    ok (
        some (record {
          id = m.id;
          n = n;
          sig = sig;
          reveal = reveal;
          next_rev = k.public next;
          next_rev_pop = my_pop k c m next (n + 1) ctx;
        }))

  abbrev pub acknowledgement_of : Machine → ℕ → Context → Result ProtocolError (Option AckMessage)
  acknowledgement_of m zero ctx = ok none
  acknowledgement_of m (suc previous) ctx =
      if not (contains_key (suc previous) m.signatures) || not (may_reveal m previous)
      then ok none
      else acknowledged m (suc previous) previous ctx

  unfoldable pub acknowledgement : Machine → Context → Result ProtocolError (Option AckMessage)
  acknowledgement m ctx = acknowledgement_of m m.state_number ctx

  abbrev pub accepted : Machine → UpdateMessage → ProtocolState → ℕ → Context → Machine
  accepted m u s next_revocation ctx =
      let awaiting : AwaitingRevoke = record {
        n = u.n;
        previous = m.state_number;
        update = u.update;
        sender = other m.role;
        at = ctx.now;
      } in
      record (learn k u.update (
        bump_htlc_seq u.update (record m {
          states = insert u.n s m.states;
          their_revocation_public = insert (u.n + 1) u.next_rev m.their_revocation_public;
          my_revocation = or_insert (u.n + 1) next_revocation m.my_revocation;
          signatures = insert u.n u.sig m.signatures;
        }))) { state_number = u.n; awaiting = some awaiting }

  -- The update's state is verified: take it, unless a pending update of this peer's stands.
  abbrev pub take_update : Machine → UpdateMessage → ProtocolState → ℕ → Context → Machine × Answer
  take_update m u s next_revocation ctx =
      if is_some m.pending && not (ltb (peer_key k c m) (my_key k c m))
      then (m, final (local_proposal_wins (reject u collision)))
      else (accepted (drop_pending they_won m) u s next_revocation ctx, took)

  unfoldable pub verify_update :
      Machine
      → UpdateMessage
      → ProtocolState
      → ℕ
      → Context
      → Result ProtocolError (Machine × Answer)
  verify_update m u s next_revocation ctx = do
    mine ← commitment_at k c m m.role u.n s
    ok (
        if verifies k c m mine u.sig
        then take_update m u s next_revocation ctx
        else (m, final (rejected (reject u bad_commitment_signature))))

  unfoldable pub next_update :
      Machine → UpdateMessage → ℕ → Context → Result ProtocolError (Machine × Answer)
  next_update m u next_revocation ctx = do
    no_missing_reveal m
    fail_if (not (is_pay u.update) && ctx.stale) stale_chain
    current ← current_state m
    if not (their_pop_ok k c m (u.n + 1) u.next_rev u.next_rev_pop)
        then ok (m, final (rejected (reject u no_proof)))
        else elim (next_state k.sha (reading k c m) current u.update (other m.role) ctx.height) [
          | err e ↦ ok (m, final (rejected (reject u (not_allowed e))))
          | ok s ↦ verify_update m u s next_revocation ctx
        ]

  -- An update of the current state: the one agreed is acknowledged again.
  unfoldable pub same_update :
      Machine → UpdateMessage → Context → Result ProtocolError (Machine × Answer)
  same_update m u ctx =
      if signature_is m u.n u.sig
      then (do
        again ← acknowledgement m ctx
        a ← ok_or (wrong_status m.status) again
        ok (m, final (resend_acknowledgement a)))
      else ok (m, final (rejected (reject u (already_agreed u.n))))

  unfoldable pub open_update :
      Machine → UpdateMessage → ℕ → Context → Result ProtocolError (Machine × Answer)
  open_update m u next_revocation ctx = do
    fail_if (not (is_open m.status)) (wrong_status m.status)
    if u.n == m.state_number
        then same_update m u ctx
        else if not (u.n == m.state_number + 1)
        then err (unexpected_state u.n (m.state_number + 1))
        else if is_some m.awaiting
        then ok (record m { buffered = some u }, final is_buffered)
        else next_update m u next_revocation ctx

  abbrev pub checked_update :
      Machine → UpdateMessage → ℕ → Context → Result ProtocolError (Machine × Answer)
  checked_update m u next_revocation ctx = do
    update_message_well_formed u
    check_id m u.id
    if is_closing_asked m.status
        then ok (m, final (rejected (reject u close_signed)))
        else open_update m u next_revocation ctx

  -- The acknowledgement is made in the machine that took the update, and kept if it cannot be made.
  abbrev answer_update : Context → Machine × Answer → Machine × Result ProtocolError ReceiveUpdate
  answer_update ctx (m, final r) = (m, ok r)
  answer_update ctx (m, took) = (
    m,
    do made ← acknowledgement m ctx; a ← ok_or (wrong_status m.status) made; ok (acknowledge a),
  )

  abbrev pub answered :
      Machine
      → Context
      → Result ProtocolError (Machine × Answer)
      → Machine × Result ProtocolError ReceiveUpdate
  answered m ctx (err e) = (m, err e)
  answered m ctx (ok x) = answer_update ctx x

  unfoldable pub receive_update :
      Machine → UpdateMessage → ℕ → Context → Machine × Result ProtocolError ReceiveUpdate
  unfolding acknowledgement verify_update same_update next_update open_update
  receive_update m u next_revocation ctx = answered m ctx (checked_update m u next_revocation ctx)

-- An update held while the state before it awaited its revocation.
abbrev pub take_buffered_update : Machine → Machine × Option UpdateMessage
take_buffered_update m =
    if is_some m.awaiting then (m, none) else (record m { buffered = none }, m.buffered)
