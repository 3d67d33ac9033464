-- ===== src/Hitch/Moves.antt =====
-- What an update of the other side's does to a channel: it keeps the machine sound, goes on, and
-- shows only what may be shown (sidestr-hitch/src/protocol/machine.rs).
use sidestr_rs.Base.{
  ℕ, ◌+◌, ◌≤◌, ◌≡◌, refl, inl, inr, Option, none, some, List, Result, ok, err, ok_or, ◌>>=◌, arith,
  subst, sym,
}
use sidestr_rs.Base.Map.{nat_ord}
use sidestr_rs.Hitch.Data.{ProtocolError, ProtocolState, wrong_status}
use sidestr_rs.Hitch.Messages.{PeerMessage, UpdateMessage, AckMessage, they_won}
use sidestr_rs.Hitch.Machine.{Crypto, Channel, Context, Machine}
use sidestr_rs.Hitch.Internals.{or_insert, drop_pending}
use sidestr_rs.Hitch.Answering.{
  ReceiveUpdate, acknowledge, resend_acknowledgement, is_buffered, rejected, local_proposal_wins,
  accepted, acknowledgement, Answer, final, took, answered, checked_update, receive_update,
}
use sidestr_rs.Hitch.Steps.{answers, reply}
use sidestr_rs.Hitch.Sound.{IsSound, SameCore, drop_pending-SameCore, SameCore-StaysShut, StaysShut}
use sidestr_rs.Hitch.Shown.{IsRevealable, ShowsOnly, KeepsSecrets, IsGood, KeepsSecrets-or_insert}
use sidestr_rs.Hitch.Received.{
  IsReceived, receive_update-IsReceived, carries, checked_update-carries,
}
use sidestr_rs.Hitch.Guarded.{acknowledgement-IsRevealable}

module _ (k : Crypto) (c : Channel) (m : Machine) (sound : IsSound m) where
  -- What an update taken changes of the core.
  accepted-facts :
      (d : Machine) (u : UpdateMessage) (s : ProtocolState) (next : ℕ) (ctx : Context)
      → d.pending ≡ none
      → SameCore m d
      → IsSound (accepted k c d u s next ctx)
        × ((accepted k c d u s next ctx).state_number ≡ u.n)
        × ((accepted k c d u s next ctx).my_revocation ≡ or_insert (u.n + 1) next m.my_revocation)
  accepted-facts d u s next ctx free same = ground arith

  IsReceived-calm :
      (u : UpdateMessage) (next : ℕ) (ctx : Context) (m' : Machine)
      → IsReceived k c m u next ctx m'
      → IsSound m' × (m.state_number ≤ m'.state_number) × KeepsSecrets m m' × StaysShut m m'
  IsReceived-calm u next ctx m' (inl same) =
      subst (λ x. IsSound x × (m.state_number ≤ x.state_number) × KeepsSecrets m x × StaysShut m x)
        (sym same) (sound, omega arith, λ n s h. h, SameCore-StaysShut m m (refl, refl, refl, refl))
  IsReceived-calm u next ctx m' (inr (inl held)) =
      subst (λ x. IsSound x × (m.state_number ≤ x.state_number) × KeepsSecrets m x × StaysShut m x)
        (sym held) (sound, omega arith, λ n s h. h, SameCore-StaysShut m m (refl, refl, refl, refl))
  IsReceived-calm u next ctx m' (inr (inr (current, s, opened, numbered, now, next_ok, _, taken))) =
      let d = drop_pending they_won m in
      let (core, free) = drop_pending-SameCore m they_won in
      let (sound', number, kept) = accepted-facts d u s next ctx free core in
      subst (λ x. IsSound x × (m.state_number ≤ x.state_number) × KeepsSecrets m x × StaysShut m x)
        (sym taken)
        (
          sound',
          omega (arith, number, numbered),
          KeepsSecrets-or_insert m (accepted k c d u s next ctx) (u.n + 1) next kept,
          inl (ground (arith, opened)),
        )

  reply-ShowsOnly :
      (m' : Machine) (r : ReceiveUpdate)
      → ((x : AckMessage) → carries k c (final r) ≡ some x → IsRevealable m' x.reveal)
      → ShowsOnly (IsRevealable m') (reply r)
  reply-ShowsOnly m' (acknowledge x) f = ((f x refl, tt), tt)
  reply-ShowsOnly m' (resend_acknowledgement x) f = ((f x refl, tt), tt)
  reply-ShowsOnly m' is_buffered f = tt
  reply-ShowsOnly m' (rejected x) f = (tt, tt)
  reply-ShowsOnly m' (local_proposal_wins x) f = (tt, tt)

  -- What is sent shows only what the machine that sends it may show.
  abbrev IsDiscreet : Machine × List PeerMessage → Type 0
  IsDiscreet (m', out) = ShowsOnly (IsRevealable m') out

  made-IsDiscreet :
      (m' : Machine) (ctx : Context) (r : Result ProtocolError (Option AckMessage))
      → acknowledgement k c m' ctx ≡ r
      → IsDiscreet (
          answers reply
            (m', r >>= λ made. ok_or (wrong_status m'.status) made >>= λ a. ok (acknowledge a)))
  made-IsDiscreet m' ctx (err f) e = tt
  made-IsDiscreet m' ctx (ok none) e = tt
  made-IsDiscreet m' ctx (ok (some x)) e = ((acknowledgement-IsRevealable k c m' ctx e, tt), tt)

  answered-IsDiscreet :
      (u : UpdateMessage) (next : ℕ) (ctx : Context) (r : Result ProtocolError (Machine × Answer))
      → checked_update k c m u next ctx ≡ r
      → IsDiscreet (answers reply (answered k c m ctx r))
  answered-IsDiscreet u next ctx (err f) e = tt
  answered-IsDiscreet u next ctx (ok (m', final r)) e = reply-ShowsOnly m' r λ x is.
      let (same, made) = checked_update-carries k c m u next ctx e is in
      subst (λ d. IsRevealable d x.reveal) (sym same) (acknowledgement-IsRevealable k c m ctx made)
  answered-IsDiscreet u next ctx (ok (m', took)) e =
      made-IsDiscreet m' ctx (acknowledgement k c m' ctx) refl

  answers_IsCalm :
      (x : Machine × Result ProtocolError ReceiveUpdate)
      → IsSound x.0 × (m.state_number ≤ x.0.state_number) × KeepsSecrets m x.0 × StaysShut m x.0
      → IsDiscreet (answers reply x)
      → IsGood m (answers reply x)
  answers_IsCalm (m', err f) (sound', le, kept, shut) shows = (sound', le, kept, shut, shows)
  answers_IsCalm (m', ok r) (sound', le, kept, shut) shows = (sound', le, kept, shut, shows)

  receive_update-IsDiscreet :
      (u : UpdateMessage) (next : ℕ) (ctx : Context)
      → IsDiscreet (answers reply (receive_update k c m u next ctx))
  unfolding receive_update
  receive_update-IsDiscreet u next ctx =
      answered-IsDiscreet u next ctx (checked_update k c m u next ctx) refl

  pub receive_update-IsGood :
      (u : UpdateMessage) (next : ℕ) (ctx : Context)
      → IsGood m (answers reply (receive_update k c m u next ctx))
  receive_update-IsGood u next ctx =
      answers_IsCalm (receive_update k c m u next ctx)
        (IsReceived-calm u next ctx (receive_update k c m u next ctx).0
          (receive_update-IsReceived k c m u next ctx))
        (receive_update-IsDiscreet u next ctx)
