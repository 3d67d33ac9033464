-- ===== src/Hitch/Agreeing.antt =====
-- The other side's answers: `receive_ack` and `receive_revoke` of `ChannelMachine`
-- (sidestr-hitch/src/protocol/machine.rs).
use sidestr_rs.Base.{
  ℕ, ◌+◌, ◌-◌, Bool, true, false, ◌||◌, ◌&&◌, not, Option, none, some, List, [], ◌∷◌, ◌++◌, ◌==◌,
  ltb, unwrap_or, Result, ok, err, ok_or, ◌>>=◌, ◌>>◌, fail_if, if◌then◌else◌,
}
use sidestr_rs.Base.Map.{lookup, insert, contains_key, nat_ord}
use sidestr_rs.Hitch.Data.{
  Update, add, fail, ChannelStatus, open_channel, closing_asked, ProtocolError, wrong_status,
  no_pending, bad_signature, missing_proof, bad_revocation, missing_revocation_key,
  unexpected_state,
}
use sidestr_rs.Hitch.Messages.{
  AckMessage, RevokeMessage, earlier_attempt, expired, ack_well_formed, revoke_well_formed,
}
use sidestr_rs.Hitch.Machine.{
  Crypto, Channel, Machine, PendingUpdate, SignedAlternative, FinalisedUpdate, payment_event,
  ChannelEvent, outcome_in_flight, outcome_failed,
}
use sidestr_rs.Hitch.Reads.{
  is_some, state_of, my_secret, commitment_at, verifies, their_pop_ok, offered_in,
}
use sidestr_rs.Hitch.Internals.{
  bump_htlc_seq, drop_pending, announce_dropped, take_their_reveal, knows_reveal, told, finalise,
}
use sidestr_rs.Hitch.Proposing.{is_open, keep}
use sidestr_rs.Hitch.Answering.{check_id, learn}

pub record AckOutcome : Type 0 where
  pub revoke : RevokeMessage
  pub update : FinalisedUpdate
  pub adopted : Bool

abbrev pub is_live : ChannelStatus → Bool
is_live open_channel = true
is_live closing_asked = true
is_live s = false

-- `revoke_message`
abbrev pub revoke_of : Machine → ℕ → ℕ → Result ProtocolError RevokeMessage
revoke_of m n previous = do
  secret ← my_secret m previous
  ok (record { id = m.id; n = n; reveal = secret })

abbrev pub alternatives : Machine → ℕ → List SignedAlternative
alternatives m n = unwrap_or [] (lookup n m.signed_alternatives)

-- What the acknowledged update of this peer's means for the HTLC it fails.
abbrev acknowledged_event : Machine → ℕ → Update → List ChannelEvent
acknowledged_event m previous (fail htlc_id reason) = elim (offered_in m previous htlc_id) [
  | none ↦ []
  | some was ↦ payment_event was.hash outcome_failed (some (unwrap_or expired (told reason))) ∷ []
]
acknowledged_event m previous u = []

abbrev adopted_event : Update → List ChannelEvent
adopted_event (add htlc memo) = payment_event htlc.hash outcome_in_flight none ∷ []
adopted_event u = []

module _ (k : Crypto) (c : Channel) where
  -- The first alternative that a signature fits, and the others in their order.
  abbrev pub put_back :
      SignedAlternative
      → Option (SignedAlternative × List SignedAlternative)
      → Option (SignedAlternative × List SignedAlternative)
  put_back alt none = none
  put_back alt (some (found, alts)) = some (found, alt ∷ alts)

  abbrev pub alternative_fits : Machine → ℕ → ℕ → SignedAlternative → Bool
  alternative_fits m n sig alt = elim (commitment_at k c m m.role n alt.state) [
    | ok tx ↦ verifies k c m tx sig
    | err e ↦ false
  ]

  unfoldable pub find_alternative :
      Machine → ℕ → ℕ → List SignedAlternative → Option (SignedAlternative × List SignedAlternative)
  find_alternative m n sig [] = none
  find_alternative m n sig (alt ∷ alts) =
      let rest = find_alternative m n sig alts in
      if alternative_fits m n sig alt then some (alt, alts) else put_back alt rest

  -- The other side's secret of this state: taken, or known already.
  abbrev pub with_reveal : Machine → ℕ → Result ProtocolError Machine
  with_reveal m reveal =
      let (taken, m') = take_their_reveal k m.state_number reveal m in
      if taken || knows_reveal m m.state_number reveal then ok m' else err bad_revocation

  -- What the acknowledgement of an update changes, once the secret is taken.
  abbrev pub agreed : Machine → AckMessage → Update → Machine
  agreed m a u =
      record (bump_htlc_seq u (record m {
        their_revocation_public = insert (a.n + 1) a.next_rev m.their_revocation_public;
        signatures = insert a.n a.sig m.signatures;
      })) { state_number = a.n }

  abbrev pub outcome : Machine → ℕ → ℕ → Update → Bool → Result ProtocolError (Machine × AckOutcome)
  outcome m n previous u adopted = do
    revoke ← revoke_of m n previous
    ok (
      m,
      record {
        revoke = revoke;
        update = record { n = n; update = u; sender = m.role };
        adopted = adopted;
      },
    )

  -- The alternative is the state agreed, once the secret is taken.
  unfoldable pub adopted :
      Machine
      → AckMessage
      → SignedAlternative
      → List SignedAlternative
      → Machine
      → Result ProtocolError (Machine × AckOutcome)
  adopted m a alt others taken = do
    let agreed_now =
        agreed
          (record taken {
            signed_alternatives = insert a.n others taken.signed_alternatives;
            states = insert a.n alt.state taken.states;
          })
          a alt.update
    let shown = learn k alt.update agreed_now
    outcome (record shown { events = shown.events ++ adopted_event alt.update }) a.n m.state_number
        alt.update true

  unfoldable pub adopt_alternative :
      Machine → AckMessage → Result ProtocolError (Machine × AckOutcome)
  unfolding find_alternative
  adopt_alternative m a = do
    fail_if (not (is_open m.status)) (wrong_status m.status)
    (alt, others) ← ok_or no_pending (find_alternative m a.n a.sig (alternatives m a.n))
    fail_if (not (their_pop_ok k c m (a.n + 1) a.next_rev a.next_rev_pop)) missing_proof
    fail_if (not (contains_key (a.n + 1) m.my_revocation)) (missing_revocation_key (a.n + 1))
    taken ← with_reveal m a.reveal
    adopted m a alt others taken

  -- The pending update is the state agreed, once the secret is taken.
  unfoldable pub confirmed :
      Machine → AckMessage → PendingUpdate → Machine → Result ProtocolError (Machine × AckOutcome)
  confirmed m a p taken = do
    let shown = learn k p.update (record (agreed taken a p.update) { pending = none })
    outcome (record shown { events = shown.events ++ acknowledged_event m m.state_number p.update })
        a.n m.state_number p.update false

  -- The acknowledgement of the pending update itself.
  unfoldable pub confirm_pending :
      Machine → AckMessage → PendingUpdate → Result ProtocolError (Machine × AckOutcome)
  confirm_pending m a p = do
    fail_if (not (their_pop_ok k c m (p.n + 1) a.next_rev a.next_rev_pop)) missing_proof
    taken ← with_reveal m a.reveal
    confirmed m a p taken

  -- An earlier attempt at the pending state number, whose signature was binding.
  abbrev pub earlier_fits : Machine → AckMessage → Bool
  earlier_fits m a =
      is_open m.status
      && (knows_reveal m m.state_number a.reveal
          || (k.is_secret a.reveal && elim (lookup m.state_number m.their_revocation_public) [
            | none ↦ false
            | some point ↦ k.public a.reveal == point
          ]))
      && their_pop_ok k c m (a.n + 1) a.next_rev a.next_rev_pop
      && is_some (find_alternative m a.n a.sig (alternatives m a.n))

  abbrev pub announced :
      Machine
      → Result ProtocolError (Machine × AckOutcome)
      → Machine × Result ProtocolError AckOutcome
  announced m (err e) = (announce_dropped m, err e)
  announced m (ok (m', x)) = (announce_dropped m', ok x)

  abbrev pub acknowledge_pending :
      Machine → AckMessage → PendingUpdate → ℕ → Machine × Result ProtocolError AckOutcome
  acknowledge_pending m a p mine =
      if verifies k c m mine a.sig
      then keep m (confirm_pending m a p)
      else if earlier_fits m a
      then (let aside = drop_pending earlier_attempt m in
          announced aside (adopt_alternative aside a))
      else (m, err bad_signature)

  -- The pending update of that number, and its commitment on this side.
  abbrev pub pending_commitment :
      Machine → AckMessage → Option PendingUpdate → Result ProtocolError (PendingUpdate × ℕ)
  pending_commitment m a none = err no_pending
  pending_commitment m a (some p) = do
    fail_if (not (p.n == a.n)) no_pending
    s ← state_of m p.n
    mine ← commitment_at k c m m.role p.n s
    ok (p, mine)

  abbrev pub live_ack : Machine → AckMessage → Machine × Result ProtocolError AckOutcome
  live_ack m a =
      if not (is_some m.pending) && (a.n == m.state_number + 1)
      then keep m (adopt_alternative m a)
      else elim (pending_commitment m a m.pending) [
        | err e ↦ (m, err e)
        | ok (p, mine) ↦ acknowledge_pending m a p mine
      ]

  abbrev pub ack_checks : Machine → AckMessage → Result ProtocolError (Unit {0})
  ack_checks m a = do
    ack_well_formed a
    check_id m a.id
    fail_if (not (is_live m.status)) (wrong_status m.status)

  unfoldable pub receive_ack : Machine → AckMessage → Machine × Result ProtocolError AckOutcome
  unfolding adopt_alternative find_alternative confirm_pending
  receive_ack m a = elim (ack_checks m a) [ err e ↦ (m, err e) | ok _ ↦ live_ack m a ]

  -- A secret of a state before this one, which may make the update awaited final.
  abbrev revoked : Machine → RevokeMessage → Result ProtocolError (Machine × Option FinalisedUpdate)
  revoked m r = do
    let (taken, m') = take_their_reveal k (r.n - 1) r.reveal m
    let (finalised, m'') = finalise m'
    if taken
        then ok (m'', finalised)
        else if contains_key (r.n - 1) m.their_revocation
        then ok (m, none)
        else err bad_revocation

  unfoldable pub receive_revoke :
      Machine → RevokeMessage → Result ProtocolError (Machine × Option FinalisedUpdate)
  receive_revoke m r = do
    revoke_well_formed r
    check_id m r.id
    fail_if (not (is_live m.status) && not (is_some m.awaiting)) (wrong_status m.status)
    fail_if (ltb m.state_number r.n) (unexpected_state r.n m.state_number)
    revoked m r
