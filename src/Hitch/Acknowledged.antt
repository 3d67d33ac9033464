-- ===== src/Hitch/Acknowledged.antt =====
-- What an acknowledgement can make of a channel (`receive_ack` of
-- sidestr-hitch/src/protocol/machine.rs).
use sidestr_rs.Base.{
  ℕ, ◌+◌, ◌≡◌, refl, true, not, Option, none, some, ◌==◌, Result, ok, err, arith, if-elim, ◌&&◌,
  ◌∙◌, ap, subst, fail_if, >>=-eq-ok, ok_or-eq-ok,
}
use sidestr_rs.Base.Map.{lookup, nat_ord}
use sidestr_rs.Hitch.Data.{ProtocolState, ProtocolError, bad_signature, no_pending, missing_state}
use sidestr_rs.Hitch.Messages.{AckMessage, earlier_attempt}
use sidestr_rs.Hitch.Machine.{Crypto, Channel, Machine, PendingUpdate}
use sidestr_rs.Hitch.Reads.{is_some, verifies, commitment_at, state_of}
use sidestr_rs.Hitch.Internals.{drop_pending}
use sidestr_rs.Hitch.Proposing.{keep}
use sidestr_rs.Hitch.Signed.{Signs}
use sidestr_rs.Hitch.Agreeing.{
  earlier_fits, AckOutcome, is_live, adopt_alternative, confirm_pending, pending_commitment,
  acknowledge_pending, live_ack, ack_checks, announced, receive_ack,
}

-- What `keep` makes has a property that an error and a success have.
pub keep-elim {ℓ κ} :
    {X : Type ℓ} (P : Machine × Result ProtocolError X → Type κ) (m : Machine)
    (r : Result ProtocolError (Machine × X))
    → ((f : ProtocolError) → P (m, err f))
    → ((m' : Machine) (x : X) → r ≡ ok (m', x) → P (m', ok x))
    → P (keep m r)
keep-elim P m (err f) bad good = bad f
keep-elim P m (ok (m', x)) bad good = good m' x refl

ok_pair :
    {p q : PendingUpdate} {a b : ℕ}
    → ◌≡◌ {A = Result ProtocolError (PendingUpdate × ℕ)} (ok (p, a)) (ok (q, b))
    → (p ≡ q) × (a ≡ b)
ok_pair e = (cc, cc)

module _ (k : Crypto) (c : Channel) where
  -- The pending update that an acknowledgement is of.
  abbrev pub IsOfPending : Machine → AckMessage → PendingUpdate → Type 0
  IsOfPending m a p = (is_live m.status ≡ true) × (m.pending ≡ some p) × (p.n ≡ a.n)

  -- Its signature is of this side's commitment of the pending state.
  abbrev pub IsFitting : Machine → AckMessage → PendingUpdate → Type 0
  IsFitting m a p = (s : ProtocolState) × (lookup p.n m.states ≡ some s) × Signs k c m p.n s a.sig

  -- An acknowledgement is refused, adopts an alternative when nothing is pending, confirms what is
  -- pending, or adopts an alternative in place of what is pending.
  module _ (m : Machine) (a : AckMessage) (P : Machine × Result ProtocolError AckOutcome → Type 0)
      (refused : (f : ProtocolError) → P (m, err f))
      (adopted : (m' : Machine) (x : AckOutcome)
        → m.pending ≡ none
        → a.n ≡ m.state_number + 1
        → adopt_alternative k c m a ≡ ok (m', x)
        → P (m', ok x))
      (confirmed : (m' : Machine) (x : AckOutcome) (p : PendingUpdate)
        → IsOfPending m a p
        → IsFitting m a p
        → confirm_pending k c m a p ≡ ok (m', x)
        → P (m', ok x))
      (earlier : (p : PendingUpdate)
        → IsOfPending m a p
        → P (
            announced k c
              (drop_pending earlier_attempt m)
              (adopt_alternative k c (drop_pending earlier_attempt m) a))) where
    pending_commitment-eq :
        {p : PendingUpdate} {mine : ℕ}
        → pending_commitment k c m a m.pending ≡ ok (p, mine)
        → (m.pending ≡ some p) × (p.n ≡ a.n)
    pending_commitment-eq e = ground arith

    pending_commitment-made :
        (o : Option PendingUpdate) {p : PendingUpdate} {mine : ℕ}
        → pending_commitment k c m a o ≡ ok (p, mine)
        → (s : ProtocolState) × (lookup p.n m.states ≡ some s)
          × (commitment_at k c m m.role p.n s ≡ ok mine)
    pending_commitment-made none e = ground arith
    pending_commitment-made (some q) {p} {mine} e =
        let (_, _, e1) = >>=-eq-ok (fail_if (not (q.n == a.n)) no_pending) _ e in
        let (s, found, e2) = >>=-eq-ok (state_of m q.n) _ e1 in
        let (tx, made, e3) = >>=-eq-ok (commitment_at k c m m.role q.n s) _ e2 in
        let (same, is) = ok_pair e3 in
        (
          s,
          subst (λ (r : PendingUpdate). lookup r.n m.states ≡ some s) same
              (ok_or-eq-ok (missing_state q.n) (lookup q.n m.states) found),
          subst (λ (r : PendingUpdate). commitment_at k c m m.role r.n s ≡ ok mine) same
              (made ∙ ap ok is),
        )

    acknowledge_pending-elim :
        (p : PendingUpdate) (mine : ℕ)
        → IsOfPending m a p
        → (verifies k c m mine a.sig ≡ true → IsFitting m a p)
        → P (acknowledge_pending k c m a p mine)
    acknowledge_pending-elim p mine of fits =
        if-elim P (verifies k c m mine a.sig)
          (λ good.
            keep-elim P m (confirm_pending k c m a p) refused
              (λ m' x. confirmed m' x p of (fits good)))
          (λ _. if-elim P (earlier_fits k c m a) (λ _. earlier p of) (λ _. refused bad_signature))

    of_pending :
        is_live m.status ≡ true
        → (r : Result ProtocolError (PendingUpdate × ℕ)) → pending_commitment k c m a m.pending ≡ r
        → P (elim r [ err e ↦ (m, err e) | ok (p, mine) ↦ acknowledge_pending k c m a p mine ])
    of_pending live (err f) e = refused f
    of_pending live (ok (p, mine)) e =
        let (is, same) = pending_commitment-eq e in
        let (s, found, made) = pending_commitment-made m.pending e in
        acknowledge_pending-elim p mine (live, is, same) (λ good. (s, found, (mine, made, good)))

    live_ack-elim : is_live m.status ≡ true → P (live_ack k c m a)
    live_ack-elim live =
        if-elim P (not (is_some m.pending) && (a.n == m.state_number + 1))
          (λ free.
            keep-elim P m (adopt_alternative k c m a) refused
              (λ m' x. adopted m' x (ground (arith, free)) (ground (arith, free))))
          (λ _. of_pending live (pending_commitment k c m a m.pending) refl)

    checked :
        (r : Result ProtocolError (Unit {0}))
        → ack_checks k c m a ≡ r
        → P (elim r [ err e ↦ (m, err e) | ok _ ↦ live_ack k c m a ])
    checked (err f) e = refused f
    checked (ok _) e = live_ack-elim (ground (arith, e))

    pub receive_ack-elim : P (receive_ack k c m a)
    unfolding receive_ack
    receive_ack-elim = checked (ack_checks k c m a) refl
