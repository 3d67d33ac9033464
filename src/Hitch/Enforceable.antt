-- ===== src/Hitch/Enforceable.antt =====
-- The signed commitment that a channel holds, over any calls, and its forced close (`force_close` of
-- sidestr-hitch/src/protocol/machine.rs).
use sidestr_rs.Base.{ℕ, ◌≡◌, true, none, some, List, ok, arith, ◌||◌}
use sidestr_rs.Base.Map.{lookup, nat_ord}
use sidestr_rs.Hitch.Data.{Side, ProtocolState, force_closing}
use sidestr_rs.Hitch.Machine.{Crypto, Channel, Context, Machine}
use sidestr_rs.Hitch.Reads.{is_some, commitment_at, verifies}
use sidestr_rs.Hitch.Proposing.{is_open}
use sidestr_rs.Hitch.Internals.{announce_dropped}
use sidestr_rs.Hitch.Steps.{Call, run}
use sidestr_rs.Hitch.Preserved.{run-Holds}
use sidestr_rs.Hitch.Publishable.{
  IsPublishable, same-IsPublishable, dropped-IsPublishable, proposed-IsPublishable,
  received-IsPublishable,
}
use sidestr_rs.Hitch.Closing.{can_force, force_close, signed_commitment, published}
use sidestr_rs.Hitch.Opening.{Keys, Theirs, new_machine, new_machine-IsPublishable}
use sidestr_rs.Hitch.Confirmed.{receive_ack-IsPublishable}

module _ (k : Crypto) (c : Channel) where
  -- A channel that holds its current state, with the other side's signature of its own commitment of
  -- it, and whose pending update is the next state's, is such a channel after any calls.
  pub run-IsPublishable :
      (m : Machine) (is : List Call) → IsPublishable k c m → IsPublishable k c (run k c m is).0
  run-IsPublishable =
      run-Holds (IsPublishable k c) (same-IsPublishable k c) (dropped-IsPublishable k c) k c
        (λ m p good. good) (proposed-IsPublishable k c) (received-IsPublishable k c)
        (receive_ack-IsPublishable k c)

  signed_commitment-made :
      (m : Machine) (ctx : Context) (sig tx mine w : ℕ) (s : ProtocolState)
      → lookup m.state_number m.states ≡ some s
      → lookup m.state_number m.signatures ≡ some sig
      → commitment_at k c m m.role m.state_number s ≡ ok tx
      → verifies k c m tx sig ≡ true
      → c.sign_funding tx m.channel_key ctx.aux ≡ ok mine
      → c.funding_witness tx mine sig ≡ ok w
      → signed_commitment k c m m.state_number ctx ≡ ok w
  signed_commitment-made m ctx sig tx mine w s held known made good signs witnesses = ground arith

  force_close-published :
      (m : Machine) (ctx : Context) (sig w : ℕ)
      → can_force m.status ≡ true
      → (is_some m.funded_height || is_open m.status) ≡ true
      → lookup m.state_number m.signatures ≡ some sig
      → signed_commitment k c m m.state_number ctx ≡ ok w
      → force_close k c m none ctx ≡ ok (published k c m m.state_number w ctx, w)
  unfolding force_close
  force_close-published m ctx sig w may funded known made = ground arith

  published-status :
      (m : Machine) (n w : ℕ) (ctx : Context) → (published k c m n w ctx).status ≡ force_closing
  unfolding announce_dropped
  published-status m n w ctx = ground arith

  -- After any calls on a channel that was opened, a forced close of the current state returns and
  -- leaves the channel closing by force, where the status allows one, the funding is confirmed or the
  -- channel open, and signing and witnessing do not fail.
  pub force_close-returns :
      (id : ℕ) (role : Side) (initial : ProtocolState) (keys : Keys) (theirs : Theirs) {m : Machine}
      (is : List Call) (ctx : Context)
      → new_machine k c id role initial keys theirs ≡ ok m
      → can_force (run k c m is).0.status ≡ true
      → (is_some (run k c m is).0.funded_height || is_open (run k c m is).0.status) ≡ true
      → ((tx key aux : ℕ) → (sig : ℕ) × (c.sign_funding tx key aux ≡ ok sig))
      → ((tx mine other : ℕ) → (w : ℕ) × (c.funding_witness tx mine other ≡ ok w))
      → (closed : Machine) × (tx : ℕ) × (force_close k c (run k c m is).0 none ctx
          ≡ ok (closed, tx))
        × (closed.status ≡ force_closing)
  force_close-returns id role initial keys theirs {m} is ctx opened may funded signs witnesses =
      let m1 = (run k c m is).0 in
      let (_, (s, sig, held, known, (tx, made, good))) =
        run-IsPublishable m is (new_machine-IsPublishable k c id role initial keys theirs opened) in
      let (mine, signed) = signs tx m1.channel_key ctx.aux in
      let (w, witnessed) = witnesses tx mine sig in
      (
        published k c m1 m1.state_number w ctx,
        w,
        force_close-published m1 ctx sig w may funded known
            (signed_commitment-made m1 ctx sig tx mine w s held known made good signed witnessed),
        published-status m1 m1.state_number w ctx,
      )
