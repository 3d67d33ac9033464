-- ===== src/Hitch/Preserved.antt =====
-- Predicates of a channel over every kind of step, and over a run of calls
-- (sidestr-hitch/src/protocol/machine.rs).
use sidestr_rs.Base.{
  ℕ, ◌-◌, ◌≡◌, refl, inl, inr, ◌&&◌, not, Option, none, some, List, [], ◌∷◌, ◌++◌, unwrap_or,
  Result, ok, err, ◌>>=◌, ◌>>◌, fail_if, arith, >>=-elim, sym, subst,
}
use sidestr_rs.Base.Map.{contains_key, nat_ord}
use sidestr_rs.Hitch.Guarded.{receive_revoke-cases}
use sidestr_rs.Hitch.Data.{
  ProtocolError, Update, force_closing, wrong_status, missing_signature, unfunded, pay, add, settle,
  fail, Text, memo_max,
}
use sidestr_rs.Hitch.Messages.{
  PeerMessage, UpdateMessage, AckMessage, RevokeMessage, Reason, CloseMessage, SyncMessage,
  sync_well_formed, channel_closing,
}
use sidestr_rs.Hitch.Machine.{Crypto, Channel, Context, Machine, FinalisedUpdate}
use sidestr_rs.Hitch.Reads.{is_some}
use sidestr_rs.Hitch.Internals.{
  drop_pending, announce_dropped, finalise, take_their_reveal, remember_preimage,
}
use sidestr_rs.Hitch.Proposing.{
  propose, send_pay, send_add, send_settle, send_fail, truncate, resend_update, keep, is_open,
  confirm_funding,
}
use sidestr_rs.Hitch.Answering.{check_id, receive_update, take_buffered_update}
use sidestr_rs.Hitch.Agreeing.{receive_ack, receive_revoke}
use sidestr_rs.Hitch.Closing.{
  close_channel, receive_close, force_close, signed_commitment, published, can_force,
}
use sidestr_rs.Hitch.Recovery.{imported, reconcile, receive_reject, receive_sync, synced_answer}
use sidestr_rs.Hitch.Steps.{
  Call, call_confirm_funding, call_pay, call_add_htlc, call_settle_htlc, call_fail_htlc,
  call_resend_update, call_remember_preimage, call_receive_update, call_receive_ack,
  call_receive_revoke, call_receive_reject, call_take_buffered_update, call_close_channel,
  call_receive_close, call_force_close, call_resync, call_receive_sync, one_update, one_close,
  silent, maybe_sync, reply, revokes, replies, step, run,
}
use sidestr_rs.Hitch.Discreet.{send_pay-propose, send_add-propose}
use sidestr_rs.Hitch.Received.{IsReceived, receive_update-IsReceived}
use sidestr_rs.Hitch.Held.{
  SameHeld, announce_dropped-SameHeld, take_their_reveal-SameHeld, finalise-SameHeld,
  resend_update-SameHeld, take_buffered_update-SameHeld,
}
use sidestr_rs.Hitch.Conserved.{
  MayHold, sent-Holds, answers-Holds, keep-Holds, resync-Holds, receive_reject-MayHold,
  imported-Holds, reconcile-MayHold,
}

-- A predicate that each kind of step keeps: one that changes nothing of what a channel holds, setting
-- the pending update aside, remembering a preimage, a proposal, an update received, and an
-- acknowledgement.
module _ (Holds : Machine → Type 0) (same : (m m' : Machine) → SameHeld m m' → Holds m → Holds m')
    (dropped : (m : Machine) (why : Reason) → Holds m → Holds (drop_pending why m)) (k : Crypto)
    (c : Channel) (remembered : (m : Machine) (p : ℕ) → Holds m → Holds (remember_preimage k p m))
    (proposed : (m : Machine) (u : Update) (next : ℕ) (ctx : Context) (m' : Machine)
        (x : UpdateMessage)
      → Holds m
      → propose k c m u next ctx ≡ ok (m', x)
      → Holds m')
    (received : (m : Machine) (u : UpdateMessage) (next : ℕ) (ctx : Context) (m' : Machine)
      → Holds m
      → IsReceived k c m u next ctx m'
      → Holds m')
    (acked : (m : Machine) (a : AckMessage) → Holds m → Holds (receive_ack k c m a).0) where
  -- A result that is a machine with the same states.
  close_channel-SameHeld :
      (m : Machine) (ctx : Context) {m' : Machine} {x : CloseMessage}
      → close_channel k c m ctx ≡ ok (m', x)
      → SameHeld m m'
  unfolding close_channel
  close_channel-SameHeld m ctx e = ground arith

  receive_close-SameHeld :
      (m : Machine) (message : CloseMessage) (ctx : Context) {m' : Machine} {x : ℕ}
      → receive_close k c m message ctx ≡ ok (m', x)
      → SameHeld m m'
  unfolding receive_close
  receive_close-SameHeld m message ctx e = ground arith

  receive_revoke-Holds :
      (m : Machine) (r : RevokeMessage) {m' : Machine} {x : Option FinalisedUpdate}
      → Holds m
      → receive_revoke k c m r ≡ ok (m', x)
      → Holds m'
  receive_revoke-Holds m r held e = elim (receive_revoke-cases k c m r e) [
    | inl same ↦ subst (Holds) (sym same) held
    | inr done ↦
        let d = (take_their_reveal k (r.n - 1) r.reveal m).1 in
        subst (Holds) (sym done) (
          same d (finalise d).1 (finalise-SameHeld d)
            (same m d (take_their_reveal-SameHeld k (r.n - 1) r.reveal m) held))
  ]

  published-Holds :
      (m : Machine) (n tx : ℕ) (ctx : Context) → Holds m → Holds (published k c m n tx ctx)
  published-Holds m n tx ctx held =
      let d : Machine = record (drop_pending channel_closing m) {
        status = force_closing;
        close = some (record { txid = c.txid tx; tx = tx; state = some n; at = ctx.height });
        awaiting = none;
        buffered = none;
      } in
      same d (announce_dropped d) (announce_dropped-SameHeld d) (
        same (drop_pending channel_closing m) d
          (refl, refl, refl, refl, refl, refl, refl, refl, refl) (dropped m channel_closing held))

  force_close-MayHold :
      (m : Machine) (state : Option ℕ) (ctx : Context)
      → Holds m
      → MayHold Holds same dropped (force_close k c m state ctx)
  unfolding force_close
  force_close-MayHold m state ctx held =
      let n = unwrap_or m.state_number state in
      >>=-elim (MayHold Holds same dropped)
        (fail_if (not (can_force m.status)) (wrong_status m.status)) _ (λ e. tt)
        λ _ _.
          >>=-elim (MayHold Holds same dropped)
            (fail_if (not (contains_key n m.signatures)) (missing_signature n)) _ (λ e. tt)
            λ _ _.
              >>=-elim (MayHold Holds same dropped)
                (fail_if (not (is_some m.funded_height) && not (is_open m.status)) unfunded) _
                (λ e. tt)
                λ _ _.
                  >>=-elim (MayHold Holds same dropped) (signed_commitment k c m n ctx) _ (λ e. tt)
                    λ tx _. published-Holds m n tx ctx held

  settled :
      (m : Machine) (r : Result ProtocolError (Machine × UpdateMessage))
      → Holds m
      → ((m' : Machine) (x : UpdateMessage) → r ≡ ok (m', x) → Holds m')
      → Holds (keep m r).0
  settled m (err e) held next = held
  settled m (ok (m', x)) held next = next m' x refl

  send_fail-Holds :
      (m : Machine) (id : ℕ) (reason : Option Text) (next : ℕ) (ctx : Context) {m' : Machine}
      {x : UpdateMessage}
      → Holds m
      → send_fail k c m id reason next ctx ≡ ok (m', x)
      → Holds m'
  send_fail-Holds m id none next ctx {m'} {x} held e =
      proposed m (fail id none) next ctx m' x held e
  send_fail-Holds m id (some t) next ctx {m'} {x} held e =
      proposed m (fail id (some (truncate memo_max t))) next ctx m' x held e

  answered-MayHold :
      (finalised : Option FinalisedUpdate) (out : List PeerMessage)
      (r : Result ProtocolError (Machine × List PeerMessage))
      → MayHold Holds same dropped r
      → MayHold Holds same dropped {X = Option FinalisedUpdate × List PeerMessage}
          (r >>= λ (m'', more). ok (m'', (finalised, out ++ more)))
  answered-MayHold finalised out (err e) held = tt
  answered-MayHold finalised out (ok (m'', more)) held = held

  abbrev IsHeld :
      Machine × Result ProtocolError (Option FinalisedUpdate × List PeerMessage) → Type 0
  IsHeld x = Holds x.0

  synced-Holds :
      (m : Machine) (message : SyncMessage) (ctx : Context) (r : Result ProtocolError (Unit {0}))
      → Holds m
      → IsHeld (elim r [
        | err e ↦ (m, err e)
        | ok _ ↦
            let (finalised, m') = finalise (imported k c m message) in
            keep m' (
              reconcile k c m' message ctx >>= λ (m'', out).
              ok (m'', (finalised, synced_answer m' message ++ out)))
      ])
  synced-Holds m message ctx (err e) held = held
  synced-Holds m message ctx (ok _) held =
      let finalised = (finalise (imported k c m message)).0 in
      let d = (finalise (imported k c m message)).1 in
      let held' = imported-Holds Holds same dropped k c m message held in
      keep-Holds Holds same dropped d
        (reconcile k c d message ctx >>= λ (m'', out).
          ok (m'', (finalised, synced_answer d message ++ out)))
        held'
        (answered-MayHold finalised (synced_answer d message) (reconcile k c d message ctx)
          (reconcile-MayHold Holds same dropped k c d message ctx held'))

  receive_sync-Holds :
      (m : Machine) (message : SyncMessage) (ctx : Context)
      → Holds m
      → Holds (receive_sync k c m message ctx).0
  unfolding receive_sync
  receive_sync-Holds m message ctx held =
      synced-Holds m message ctx (sync_well_formed message >> check_id m message.id) held

  step-Holds : (m : Machine) (i : Call) → Holds m → Holds (step k c m i).0
  step-Holds m (call_confirm_funding height) held =
      same m (confirm_funding height m) (refl, refl, refl, refl, refl, refl, refl, refl, refl) held
  step-Holds m (call_pay amount memo next ctx) held =
      sent-Holds Holds same dropped m one_update (send_pay k c m amount memo next ctx) held
        λ m' x e.
          proposed m (pay amount memo) next ctx m' x held
            (send_pay-propose k c m amount memo next ctx e)
  step-Holds m (call_add_htlc amount hash expiry route memo next ctx) held =
      sent-Holds Holds same dropped m one_update
        (send_add k c m amount hash expiry route memo next ctx) held
        λ m' x e.
          proposed m
            (add (record { id = 0; amount = amount; hash = hash; expiry = expiry; route = route })
              memo)
            next ctx m' x held (send_add-propose k c m amount hash expiry route memo next ctx e)
  step-Holds m (call_settle_htlc id preimage next ctx) held =
      let kept = remember_preimage k preimage m in
      answers-Holds Holds same dropped one_update (send_settle k c m id preimage next ctx) (
        settled kept (propose k c kept (settle id preimage) next ctx) (remembered m preimage held)
          (λ m' x e.
            proposed kept (settle id preimage) next ctx m' x (remembered m preimage held) e))
  step-Holds m (call_fail_htlc id reason next ctx) held =
      sent-Holds Holds same dropped m one_update (send_fail k c m id reason next ctx) held
        λ m' x e. send_fail-Holds m id reason next ctx held e
  step-Holds m (call_resend_update ctx) held =
      same m (resend_update m ctx).0 (resend_update-SameHeld m ctx) held
  step-Holds m (call_remember_preimage preimage) held = remembered m preimage held
  step-Holds m (call_receive_update u next ctx) held =
      answers-Holds Holds same dropped reply (receive_update k c m u next ctx) (
        received m u next ctx (receive_update k c m u next ctx).0 held
          (receive_update-IsReceived k c m u next ctx))
  step-Holds m (call_receive_ack a) held =
      answers-Holds Holds same dropped revokes (receive_ack k c m a) (acked m a held)
  step-Holds m (call_receive_revoke r) held =
      sent-Holds Holds same dropped m silent (receive_revoke k c m r) held
        λ m' x e. receive_revoke-Holds m r held e
  step-Holds m (call_receive_reject r ctx) held =
      sent-Holds Holds same dropped m maybe_sync (receive_reject m r ctx) held λ m' x e.
        subst (MayHold Holds same dropped) e
          (receive_reject-MayHold Holds same dropped m r ctx held)
  step-Holds m call_take_buffered_update held =
      same m (take_buffered_update m).0 (take_buffered_update-SameHeld m) held
  step-Holds m (call_close_channel ctx) held =
      sent-Holds Holds same dropped m one_close (close_channel k c m ctx) held
        λ m' x e. same m m' (close_channel-SameHeld m ctx e) held
  step-Holds m (call_receive_close message ctx) held =
      sent-Holds Holds same dropped m silent (receive_close k c m message ctx) held
        λ m' x e. same m m' (receive_close-SameHeld m message ctx e) held
  step-Holds m (call_force_close n ctx) held =
      sent-Holds Holds same dropped m silent (force_close k c m n ctx) held
        λ m' x e. subst (MayHold Holds same dropped) e (force_close-MayHold m n ctx held)
  step-Holds m (call_resync ctx force) held = resync-Holds Holds same dropped m ctx force held
  step-Holds m (call_receive_sync message ctx) held =
      answers-Holds Holds same dropped replies (receive_sync k c m message ctx)
        (receive_sync-Holds m message ctx held)

  -- So it holds after any calls.
  pub run-Holds : (m : Machine) (is : List Call) → Holds m → Holds (run k c m is).0
  run-Holds m [] held = held
  run-Holds m (i ∷ is) held = run-Holds (step k c m i).0 is (step-Holds m i held)
