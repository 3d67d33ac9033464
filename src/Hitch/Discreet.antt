-- ===== src/Hitch/Discreet.antt =====
-- Every call keeps a channel sound, goes on, keeps its secrets and shows only what may be shown
-- (sidestr-hitch/src/protocol/machine.rs).
use sidestr_rs.Base.{ℕ, ◌≡◌, refl, Option, none, some, List, [], Result, ok, err, arith}
use sidestr_rs.Base.Map.{nat_ord}
use sidestr_rs.Hitch.Data.{ProtocolError, Text, pay, add, settle, fail, memo_max}
use sidestr_rs.Hitch.Messages.{PeerMessage, UpdateMessage}
use sidestr_rs.Hitch.Machine.{Crypto, Channel, Context, Machine}
use sidestr_rs.Hitch.Internals.{remember_preimage}
use sidestr_rs.Hitch.Proposing.{
  propose, send_pay, send_add, send_fail, truncate, resend_update, keep,
}
use sidestr_rs.Hitch.Answering.{take_buffered_update}
use sidestr_rs.Hitch.Closing.{close_channel, receive_close, force_close}
use sidestr_rs.Hitch.Agreeing.{receive_revoke}
use sidestr_rs.Hitch.Recovery.{receive_reject}
use sidestr_rs.Hitch.Steps.{
  Call, call_confirm_funding, call_pay, call_add_htlc, call_settle_htlc, call_fail_htlc,
  call_resend_update, call_remember_preimage, call_receive_update, call_receive_ack,
  call_receive_revoke, call_receive_reject, call_take_buffered_update, call_close_channel,
  call_receive_close, call_force_close, call_resync, call_receive_sync, sent, answers, one_update,
  one_close, silent, maybe_sync, maybe_update, step,
}
use sidestr_rs.Hitch.Sound.{IsSound}
use sidestr_rs.Hitch.Shown.{IsRevealable, ShowsOnly, IsGood}
use sidestr_rs.Hitch.Guarded.{
  IsNext, unchanged-IsGood, propose-IsGood, confirm_funding-IsGood, close_channel-facts,
  receive_close-facts, force_close-facts, receive_revoke-facts, facts-IsGood,
}
use sidestr_rs.Hitch.Moves.{receive_update-IsGood}
use sidestr_rs.Hitch.Agreed.{receive_ack-IsGood}
use sidestr_rs.Hitch.Syncs.{receive_sync-IsGood, resync-IsGood, receive_reject-IsGood}

sent-IsGood {ℓ} :
    {X : Type ℓ} (m : Machine) (f : X → List PeerMessage) (r : Result ProtocolError (Machine × X))
    → IsSound m
    → ((m' : Machine) (x : X) → r ≡ ok (m', x) → IsGood m (m', f x))
    → IsGood m (sent f m r)
sent-IsGood m f (err e) sound good = unchanged-IsGood m sound
sent-IsGood m f (ok (m', x)) sound good = good m' x refl

answers-keep-IsGood {ℓ} :
    {X : Type ℓ} (m : Machine) (f : X → List PeerMessage) (r : Result ProtocolError (Machine × X))
    → IsSound m
    → ((m' : Machine) (x : X) → r ≡ ok (m', x) → IsGood m (m', f x))
    → IsGood m (answers f (keep m r))
answers-keep-IsGood m f (err e) sound good = unchanged-IsGood m sound
answers-keep-IsGood m f (ok (m', x)) sound good = good m' x refl

-- A refusal of a method that changes the machine only when it returns no error.

module _ (k : Crypto) (c : Channel) (m : Machine) where
  -- A payment and an `add` are proposals once their own checks are through.
  pub send_pay-propose :
      (amount : ℕ) (memo : Option Text) (next : ℕ) (ctx : Context) {m' : Machine}
      {x : UpdateMessage}
      → send_pay k c m amount memo next ctx ≡ ok (m', x)
      → propose k c m (pay amount memo) next ctx ≡ ok (m', x)
  send_pay-propose amount memo next ctx e = ground arith

  pub send_add-propose :
      (amount hash expiry : ℕ) (route : Option ℕ) (memo : Option Text) (next : ℕ) (ctx : Context)
      {m' : Machine} {x : UpdateMessage}
      → send_add k c m amount hash expiry route memo next ctx ≡ ok (m', x)
      → propose k c m
          (add
            (record { id = 0; amount = amount; hash = hash; expiry = expiry; route = route })
            memo)
          next
          ctx
        ≡ ok (m', x)
  send_add-propose amount hash expiry route memo next ctx e = ground arith

  send_fail-IsGood :
      (id : ℕ) (reason : Option Text) (next : ℕ) (ctx : Context) {m' : Machine} {x : UpdateMessage}
      → IsSound m
      → send_fail k c m id reason next ctx ≡ ok (m', x)
      → IsGood m (m', one_update x)
  send_fail-IsGood id none next ctx sound e = propose-IsGood k c m sound (fail id none) next ctx e
  send_fail-IsGood id (some t) next ctx sound e =
      propose-IsGood k c m sound (fail id (some (truncate memo_max t))) next ctx e

  maybe_update-ShowsOnly :
      (P : ℕ → Type 0) (u : Option UpdateMessage) → ShowsOnly P (maybe_update u)
  maybe_update-ShowsOnly P none = tt
  maybe_update-ShowsOnly P (some u) = (tt, tt)

  resend_update-facts : (ctx : Context) → IsSound m → IsNext m (resend_update m ctx).0
  resend_update-facts ctx sound = ground arith

  take_buffered_update-facts : IsSound m → IsNext m (take_buffered_update m).0
  take_buffered_update-facts sound = ground arith

  resend_update-IsGood :
      (ctx : Context)
      → IsSound m
      → IsGood m ((resend_update m ctx).0, maybe_update (resend_update m ctx).1)
  resend_update-IsGood ctx sound =
      facts-IsGood k c m sound (resend_update m ctx).0 (maybe_update (resend_update m ctx).1)
        (resend_update-facts ctx sound)
        (maybe_update-ShowsOnly (IsRevealable (resend_update m ctx).0) (resend_update m ctx).1)

  -- Every call keeps the machine sound, never takes it back to an earlier state, keeps every secret,
  -- and sends only secrets that the machine may show.
  pub step-IsGood : (i : Call) → IsSound m → IsGood m (step k c m i)
  step-IsGood (call_confirm_funding height) sound = confirm_funding-IsGood k c m sound height
  step-IsGood (call_pay amount memo next ctx) sound =
      sent-IsGood m one_update (send_pay k c m amount memo next ctx) sound λ m' x e.
        propose-IsGood k c m sound (pay amount memo) next ctx
          (send_pay-propose amount memo next ctx e)
  step-IsGood (call_add_htlc amount hash expiry route memo next ctx) sound =
      sent-IsGood m one_update (send_add k c m amount hash expiry route memo next ctx) sound
        λ m' x e.
          propose-IsGood k c m sound
            (add (record { id = 0; amount = amount; hash = hash; expiry = expiry; route = route })
              memo)
            next ctx (send_add-propose amount hash expiry route memo next ctx e)
  step-IsGood (call_settle_htlc id preimage next ctx) sound =
      let kept = remember_preimage k preimage m in
      answers-keep-IsGood kept one_update (propose k c kept (settle id preimage) next ctx) sound
        λ m' x e. propose-IsGood k c kept sound (settle id preimage) next ctx e
  step-IsGood (call_fail_htlc id reason next ctx) sound =
      sent-IsGood m one_update (send_fail k c m id reason next ctx) sound
        λ m' x e. send_fail-IsGood id reason next ctx sound e
  step-IsGood (call_resend_update ctx) sound = resend_update-IsGood ctx sound
  step-IsGood (call_remember_preimage preimage) sound = unchanged-IsGood m sound
  step-IsGood (call_receive_update u next ctx) sound = receive_update-IsGood k c m sound u next ctx
  step-IsGood (call_receive_ack a) sound = receive_ack-IsGood k c m sound a
  step-IsGood (call_receive_revoke r) sound =
      sent-IsGood m silent (receive_revoke k c m r) sound
        λ m' x e. facts-IsGood k c m sound m' [] (receive_revoke-facts k c m sound r e) tt
  step-IsGood (call_receive_reject r ctx) sound =
      sent-IsGood m maybe_sync (receive_reject m r ctx) sound
        λ m' x e. receive_reject-IsGood k c m sound r ctx e
  step-IsGood call_take_buffered_update sound =
      facts-IsGood k c m sound (take_buffered_update m).0 [] (take_buffered_update-facts sound) tt
  step-IsGood (call_close_channel ctx) sound =
      sent-IsGood m one_close (close_channel k c m ctx) sound λ m' x e.
        facts-IsGood k c m sound m' (one_close x) (close_channel-facts k c m sound ctx e) (tt, tt)
  step-IsGood (call_receive_close message ctx) sound =
      sent-IsGood m silent (receive_close k c m message ctx) sound
        λ m' x e. facts-IsGood k c m sound m' [] (receive_close-facts k c m sound message ctx e) tt
  step-IsGood (call_force_close n ctx) sound =
      sent-IsGood m silent (force_close k c m n ctx) sound
        λ m' x e. facts-IsGood k c m sound m' [] (force_close-facts k c m sound n ctx e) tt
  step-IsGood (call_resync ctx force) sound =
      resync-IsGood k c m sound m ctx force (refl, refl, refl, refl) sound
  step-IsGood (call_receive_sync message ctx) sound = receive_sync-IsGood k c m sound message ctx
