-- ===== src/Hitch/Funded.antt =====
-- The proposals and the answers of a channel keep the total of every state it holds
-- (sidestr-hitch/src/protocol/machine.rs).
use sidestr_rs.Base.{
  ℕ, ◌+◌, ◌≡◌, ◌∙◌, inl, inr, ◌&&◌, not, ok, ok_or-eq-ok, fail_if, arith, >>=-eq-ok, sym, subst,
}
use sidestr_rs.Base.Map.{lookup, insert, contains_key, nat_ord}
use sidestr_rs.Hitch.Data.{
  ProtocolState, Update, other, not_open, pending_update, awaiting_revocation,
  missing_revocation_key, memo_too_long, stale_chain, text_ok, update_well_formed, panicked,
}
use sidestr_rs.Hitch.Transition.{next_state}
use sidestr_rs.Hitch.Messages.{UpdateMessage, they_won}
use sidestr_rs.Hitch.Machine.{Crypto, Channel, Context, Machine}
use sidestr_rs.Hitch.Reads.{is_some, current_state, reading}
use sidestr_rs.Hitch.Internals.{drop_pending}
use sidestr_rs.Hitch.Proposing.{
  propose, sign_update, is_open, is_pay, memo_of, numbered, no_missing_reveal,
}
use sidestr_rs.Hitch.Answering.{accepted}
use sidestr_rs.Hitch.Conservation.{next_state-value}
use sidestr_rs.Hitch.Received.{IsReceived}
use sidestr_rs.Hitch.Total.{
  Divides, AllDivide, IsFunded, AllValues, Given, insert-AllValues, lookup-AllValues,
  drop_pending-IsFunded,
}

module _ (k : Crypto) (c : Channel) where
  -- What is proposed is the next state of the current one, signed.
  pub propose-signs :
      (m : Machine) (u : Update) (next : ℕ) (ctx : Context) {m' : Machine} {x : UpdateMessage}
      → propose k c m u next ctx ≡ ok (m', x)
      → (current : ProtocolState) × (v : Update) × (s : ProtocolState) × (current_state m
          ≡ ok current)
        × (next_state k.sha (reading k c m) current v m.role ctx.height ≡ ok s)
        × (sign_update k c m v s next ctx ≡ ok (m', x))
  unfolding propose
  propose-signs m u next ctx e =
      let n = m.state_number + 1 in
      let (_, _, e1) = >>=-eq-ok (fail_if (not (is_open m.status)) not_open) _ e in
      let (_, _, e2) = >>=-eq-ok (fail_if (is_some m.pending) pending_update) _ e1 in
      let (_, _, e3) = >>=-eq-ok (fail_if (is_some m.awaiting) awaiting_revocation) _ e2 in
      let (_, _, e4) = >>=-eq-ok (no_missing_reveal m) _ e3 in
      let (_, _, e5) =
        >>=-eq-ok
          (fail_if (not (contains_key n m.their_revocation_public)) (missing_revocation_key n)) _
          e4 in
      let (_, _, e6) = >>=-eq-ok (fail_if (not (text_ok (memo_of u))) memo_too_long) _ e5 in
      let (_, _, e7) = >>=-eq-ok (fail_if (not (is_pay u) && ctx.stale) stale_chain) _ e6 in
      let (current, now, e8) = >>=-eq-ok (current_state m) _ e7 in
      let (v, _, e9) = >>=-eq-ok (numbered k c m current u ctx.height) _ e8 in
      let (_, _, e10) = >>=-eq-ok (update_well_formed v) _ e9 in
      let (s, next_ok, e11) =
        >>=-eq-ok (next_state k.sha (reading k c m) current v m.role ctx.height) _ e10 in
      (current, v, s, now, next_ok, e11)

module _ (total : ℕ) (k : Crypto) (c : Channel) where
  current_state-Divides :
      (m : Machine) {s : ProtocolState}
      → IsFunded total m
      → current_state m ≡ ok s
      → Divides total s
  current_state-Divides m {s} funded e =
      subst (Given (Divides total)) (ok_or-eq-ok panicked (lookup m.state_number m.states) e)
        (lookup-AllValues (Divides total) m.state_number m.states funded.0)

  sign_update-states :
      (m : Machine) (u : Update) (s : ProtocolState) (next : ℕ) (ctx : Context) {m' : Machine}
      {x : UpdateMessage}
      → sign_update k c m u s next ctx ≡ ok (m', x)
      → (m'.states ≡ insert (m.state_number + 1) s m.states)
        × (m'.signed_alternatives ≡ m.signed_alternatives)
  unfolding sign_update
  sign_update-states m u s next ctx e = ground arith

  with_state-IsFunded :
      (m m' : Machine) (n : ℕ) (s : ProtocolState)
      → IsFunded total m
      → Divides total s
      → m'.states ≡ insert n s m.states
      → m'.signed_alternatives ≡ m.signed_alternatives
      → IsFunded total m'
  with_state-IsFunded m m' n s funded d states alts = (
    subst (AllValues (Divides total)) (sym states)
        (insert-AllValues (Divides total) n s m.states d funded.0),
    subst (AllValues (AllDivide total)) (sym alts) funded.1,
  )

  -- The state proposed divides what the current one divides.
  pub propose-IsFunded :
      (m : Machine) (u : Update) (next : ℕ) (ctx : Context) {m' : Machine} {x : UpdateMessage}
      → IsFunded total m
      → propose k c m u next ctx ≡ ok (m', x)
      → IsFunded total m'
  propose-IsFunded m u next ctx {m'} funded e =
      let (current, v, s, now, next_ok, signed) = propose-signs k c m u next ctx e in
      let (states, alts) = sign_update-states m v s next ctx signed in
      let (kept, _) = next_state-value k.sha (reading k c m) current v m.role ctx.height next_ok in
      with_state-IsFunded m m' (m.state_number + 1) s funded
        (kept ∙ current_state-Divides m funded now) states alts

  accepted-states :
      (m : Machine) (u : UpdateMessage) (s : ProtocolState) (next : ℕ) (ctx : Context)
      → ((accepted k c m u s next ctx).states ≡ insert u.n s m.states)
        × ((accepted k c m u s next ctx).signed_alternatives ≡ m.signed_alternatives)
  accepted-states m u s next ctx = ground arith

  -- Whatever an update received makes of the channel.
  pub IsReceived-IsFunded :
      (m : Machine) (u : UpdateMessage) (next : ℕ) (ctx : Context) (m' : Machine)
      → IsFunded total m
      → IsReceived k c m u next ctx m'
      → IsFunded total m'
  IsReceived-IsFunded m u next ctx m' funded (inl same) = subst (IsFunded total) (sym same) funded
  IsReceived-IsFunded m u next ctx m' funded (inr (inl held)) =
      subst (IsFunded total) (sym held) funded
  IsReceived-IsFunded m u next ctx m' funded
        (inr (inr (current, s, _, _, now, next_ok, _, taken))) =
      let d = drop_pending they_won m in
      let (states, alts) = accepted-states d u s next ctx in
      let (kept, _) =
        next_state-value k.sha (reading k c m) current u.update (other m.role) ctx.height next_ok in
      subst (IsFunded total) (sym taken) (
        with_state-IsFunded d (accepted k c d u s next ctx) u.n s
          (drop_pending-IsFunded total m they_won funded)
          (kept ∙ current_state-Divides m funded now) states alts)
