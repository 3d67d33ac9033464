-- ===== src/Hitch/Steps.antt =====
-- What drives a channel: the calls of its host and the messages of the other side, one step each,
-- over `ChannelMachine` (sidestr-hitch/src/protocol/machine.rs).
use sidestr_rs.Base.{ℕ, ◌≡◌, refl, Bool, Option, none, some, List, [], ◌∷◌, ◌++◌, Result, ok, err}
use sidestr_rs.Hitch.Data.{Text, ProtocolError}
use sidestr_rs.Hitch.Messages.{
  UpdateMessage, AckMessage, RevokeMessage, RejectMessage, CloseMessage, SyncMessage, PeerMessage,
  update_message, ack_message, revoke_message, reject_message, close_message, sync_message,
}
use sidestr_rs.Hitch.Machine.{Crypto, Channel, Context, Machine, FinalisedUpdate}
use sidestr_rs.Hitch.Internals.{remember_preimage}
use sidestr_rs.Hitch.Proposing.{
  confirm_funding, send_pay, send_add, send_settle, send_fail, resend_update,
}
use sidestr_rs.Hitch.Answering.{
  ReceiveUpdate, acknowledge, resend_acknowledgement, is_buffered, rejected, local_proposal_wins,
  receive_update, take_buffered_update,
}
use sidestr_rs.Hitch.Agreeing.{AckOutcome, receive_ack, receive_revoke}
use sidestr_rs.Hitch.Closing.{close_channel, receive_close, force_close}
use sidestr_rs.Hitch.Recovery.{resync, receive_reject, receive_sync}

-- A call of a method that changes the machine, with its arguments: amounts, hashes, HTLC ids,
-- texts, fresh secrets and the context.
pub data Call : Type 0 where
  call_confirm_funding : ℕ → Call
  call_pay : ℕ → Option Text → ℕ → Context → Call
  call_add_htlc : ℕ → ℕ → ℕ → Option ℕ → Option Text → ℕ → Context → Call
  call_settle_htlc : ℕ → ℕ → ℕ → Context → Call
  call_fail_htlc : ℕ → Option Text → ℕ → Context → Call
  call_resend_update : Context → Call
  call_remember_preimage : ℕ → Call
  call_receive_update : UpdateMessage → ℕ → Context → Call
  call_receive_ack : AckMessage → Call
  call_receive_revoke : RevokeMessage → Call
  call_receive_reject : RejectMessage → Context → Call
  call_take_buffered_update : Call
  call_close_channel : Context → Call
  call_receive_close : CloseMessage → Context → Call
  call_force_close : Option ℕ → Context → Call
  call_resync : Context → Bool → Call
  call_receive_sync : SyncMessage → Context → Call

-- What a call sends: nothing when it returns an error.
abbrev pub sent {ℓ} :
    {X : Type ℓ}
    → (X → List PeerMessage)
    → Machine
    → Result ProtocolError (Machine × X)
    → Machine × List PeerMessage
sent f m (err e) = (m, [])
sent f m (ok (m', x)) = (m', f x)

abbrev pub answers {ℓ} :
    {X : Type ℓ}
    → (X → List PeerMessage)
    → Machine × Result ProtocolError X
    → Machine × List PeerMessage
answers f (m, err e) = (m, [])
answers f (m, ok x) = (m, f x)

-- What is sent leaves the machine as it is.
pub answers-machine {ℓ} :
    {X : Type ℓ} (f : X → List PeerMessage) (m : Machine) (r : Result ProtocolError X)
    → (answers f (m, r)).0 ≡ m
answers-machine f m (err e) = refl
answers-machine f m (ok x) = refl

abbrev pub silent {ℓ} : {X : Type ℓ} → X → List PeerMessage
silent x = []

abbrev pub one_update : UpdateMessage → List PeerMessage
one_update u = update_message u ∷ []

abbrev pub maybe_update : Option UpdateMessage → List PeerMessage
maybe_update none = []
maybe_update (some u) = update_message u ∷ []

abbrev pub one_close : CloseMessage → List PeerMessage
one_close message = close_message message ∷ []

abbrev pub maybe_sync : Option SyncMessage → List PeerMessage
maybe_sync none = []
maybe_sync (some s) = sync_message s ∷ []

abbrev pub reply : ReceiveUpdate → List PeerMessage
reply (acknowledge a) = ack_message a ∷ []
reply (resend_acknowledgement a) = ack_message a ∷ []
reply is_buffered = []
reply (rejected r) = reject_message r ∷ []
reply (local_proposal_wins r) = reject_message r ∷ []

abbrev pub revokes : AckOutcome → List PeerMessage
revokes o = revoke_message o.revoke ∷ []

abbrev pub replies : Option FinalisedUpdate × List PeerMessage → List PeerMessage
replies (finalised, out) = out

module _ (k : Crypto) (c : Channel) where
  abbrev pub step : Machine → Call → Machine × List PeerMessage
  step m (call_confirm_funding height) = (confirm_funding height m, [])
  step m (call_pay amount memo next ctx) = sent one_update m (send_pay k c m amount memo next ctx)
  step m (call_add_htlc amount hash expiry route memo next ctx) =
      sent one_update m (send_add k c m amount hash expiry route memo next ctx)
  step m (call_settle_htlc id preimage next ctx) =
      answers one_update (send_settle k c m id preimage next ctx)
  step m (call_fail_htlc id reason next ctx) =
      sent one_update m (send_fail k c m id reason next ctx)
  step m (call_resend_update ctx) = let (m', u) = resend_update m ctx in (m', maybe_update u)
  step m (call_remember_preimage preimage) = (remember_preimage k preimage m, [])
  step m (call_receive_update u next ctx) = answers reply (receive_update k c m u next ctx)
  step m (call_receive_ack a) = answers revokes (receive_ack k c m a)
  step m (call_receive_revoke r) = sent silent m (receive_revoke k c m r)
  step m (call_receive_reject r ctx) = sent maybe_sync m (receive_reject m r ctx)
  step m call_take_buffered_update = ((take_buffered_update m).0, [])
  step m (call_close_channel ctx) = sent one_close m (close_channel k c m ctx)
  step m (call_receive_close message ctx) = sent silent m (receive_close k c m message ctx)
  step m (call_force_close n ctx) = sent silent m (force_close k c m n ctx)
  step m (call_resync ctx force) = let (m', s) = resync m ctx force in (m', maybe_sync s)
  step m (call_receive_sync s ctx) = answers replies (receive_sync k c m s ctx)

  -- A sequence of calls, with all that they send in order.
  abbrev pub run : Machine → List Call → Machine × List PeerMessage
  run m [] = (m, [])
  run m (i ∷ is) = let (m', out) = step m i in let (m'', more) = run m' is in (m'', out ++ more)
