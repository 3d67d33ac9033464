-- ===== src/Hitch/Adopted.antt =====
-- An acknowledgement keeps the total of every state that a channel holds (`receive_ack` of
-- sidestr-hitch/src/protocol/machine.rs).
use sidestr_rs.Base.{
  ℕ, ◌+◌, ◌≡◌, refl, not, Option, none, some, List, [], ◌∷◌, Result, ok, err, ok_or, ok_or-eq-ok,
  fail_if, arith, if-elim, >>=-eq-ok, sym, subst,
}
use sidestr_rs.Base.Map.{insert, contains_key, nat_ord}
use sidestr_rs.Hitch.Data.{
  ProtocolError, wrong_status, no_pending, missing_proof, missing_revocation_key,
}
use sidestr_rs.Hitch.Messages.{AckMessage, earlier_attempt}
use sidestr_rs.Hitch.Machine.{Crypto, Channel, Machine, PendingUpdate, SignedAlternative}
use sidestr_rs.Hitch.Reads.{their_pop_ok}
use sidestr_rs.Hitch.Internals.{drop_pending}
use sidestr_rs.Hitch.Proposing.{is_open}
use sidestr_rs.Hitch.Agreeing.{
  AckOutcome, adopt_alternative, adopted, find_alternative, alternatives, with_reveal,
  confirm_pending, confirmed, announced, receive_ack, put_back, alternative_fits,
}
use sidestr_rs.Hitch.Acknowledged.{receive_ack-elim}
use sidestr_rs.Hitch.Total.{
  Divides, AllDivide, IsFunded, AllValues, Given, insert-AllValues, alternatives-AllDivide,
  drop_pending-IsFunded, announce_dropped-IsFunded, SameStates, SameStates-IsFunded,
}

module _ (k : Crypto) (c : Channel) where
  -- What is adopted is an alternative that was found, with the secret taken.
  pub adopt_alternative-adopts :
      (m : Machine) (a : AckMessage) {m' : Machine} {x : AckOutcome}
      → adopt_alternative k c m a ≡ ok (m', x)
      → (alt : SignedAlternative) × (others : List SignedAlternative) × (taken : Machine)
        × (find_alternative k c m a.n a.sig (alternatives m a.n) ≡ some (alt, others))
        × (with_reveal k c m a.reveal ≡ ok taken)
        × (adopted k c m a alt others taken ≡ ok (m', x))
  unfolding adopt_alternative
  adopt_alternative-adopts m a e =
      let found = find_alternative k c m a.n a.sig (alternatives m a.n) in
      let (_, _, e1) = >>=-eq-ok (fail_if (not (is_open m.status)) (wrong_status m.status)) _ e in
      let ((alt, others), is_found, e2) = >>=-eq-ok (ok_or no_pending found) _ e1 in
      let (_, _, e3) =
        >>=-eq-ok
          (fail_if (not (their_pop_ok k c m (a.n + 1) a.next_rev a.next_rev_pop)) missing_proof) _
          e2 in
      let (_, _, e4) =
        >>=-eq-ok
          (fail_if (not (contains_key (a.n + 1) m.my_revocation))
            (missing_revocation_key (a.n + 1)))
          _ e3 in
      let (taken, taken_so, e5) = >>=-eq-ok (with_reveal k c m a.reveal) _ e4 in
      (alt, others, taken, ok_or-eq-ok no_pending found is_found, taken_so, e5)

  -- What is confirmed is the pending update, with the secret taken.
  pub confirm_pending-confirms :
      (m : Machine) (a : AckMessage) (p : PendingUpdate) {m' : Machine} {x : AckOutcome}
      → confirm_pending k c m a p ≡ ok (m', x)
      → (taken : Machine) × (with_reveal k c m a.reveal ≡ ok taken)
        × (confirmed k c m a p taken ≡ ok (m', x))
  unfolding confirm_pending
  confirm_pending-confirms m a p e =
      let (_, _, e1) =
        >>=-eq-ok
          (fail_if (not (their_pop_ok k c m (p.n + 1) a.next_rev a.next_rev_pop)) missing_proof) _
          e in
      >>=-eq-ok (with_reveal k c m a.reveal) _ e1

module _ (total : ℕ) (k : Crypto) (c : Channel) where
  -- The alternative found, and those left.
  abbrev Parts : SignedAlternative × List SignedAlternative → Type 0
  Parts (alt, others) = Divides total alt.state × AllDivide total others

  put_back-Parts :
      (alt : SignedAlternative) (o : Option (SignedAlternative × List SignedAlternative))
      → Divides total alt.state
      → Given Parts o
      → Given Parts (put_back k c alt o)
  put_back-Parts alt none d g = tt
  put_back-Parts alt (some (found, alts)) d (q, all_alts) = (q, (d, all_alts))

  find_alternative-Parts :
      (m : Machine) (n sig : ℕ) (alts : List SignedAlternative)
      → AllDivide total alts
      → Given Parts (find_alternative k c m n sig alts)
  unfolding find_alternative
  find_alternative-Parts m n sig [] all_alts = tt
  find_alternative-Parts m n sig (alt ∷ alts) (d, all_alts) =
      if-elim (Given Parts) (alternative_fits k c m n sig alt) (λ _. (d, all_alts))
        (λ _.
          put_back-Parts alt (find_alternative k c m n sig alts) d
            (find_alternative-Parts m n sig alts all_alts))

  with_reveal-SameStates :
      (m : Machine) (reveal : ℕ) {taken : Machine}
      → with_reveal k c m reveal ≡ ok taken
      → SameStates total m taken
  with_reveal-SameStates m reveal e = ground arith

  adopted-states :
      (m : Machine) (a : AckMessage) (alt : SignedAlternative) (others : List SignedAlternative)
      (taken : Machine) {m' : Machine} {x : AckOutcome}
      → adopted k c m a alt others taken ≡ ok (m', x)
      → (m'.states ≡ insert a.n alt.state taken.states)
        × (m'.signed_alternatives ≡ insert a.n others taken.signed_alternatives)
  unfolding adopted
  adopted-states m a alt others taken e = ground arith

  confirmed-states :
      (m : Machine) (a : AckMessage) (p : PendingUpdate) (taken : Machine) {m' : Machine}
      {x : AckOutcome}
      → confirmed k c m a p taken ≡ ok (m', x)
      → SameStates total taken m'
  unfolding confirmed
  confirmed-states m a p taken e = ground arith

  adopt_alternative-IsFunded :
      (m : Machine) (a : AckMessage) {m' : Machine} {x : AckOutcome}
      → IsFunded total m
      → adopt_alternative k c m a ≡ ok (m', x)
      → IsFunded total m'
  adopt_alternative-IsFunded m a {m'} funded e =
      let (alt, others, taken, is_found, taken_so, e1) = adopt_alternative-adopts k c m a e in
      let same = with_reveal-SameStates m a.reveal taken_so in
      let funded' = SameStates-IsFunded total m taken same funded in
      let (states, alts) = adopted-states m a alt others taken e1 in
      let (d, all_others) = subst (Given Parts) is_found (
        find_alternative-Parts m a.n a.sig (alternatives m a.n)
          (alternatives-AllDivide total m a.n funded)) in
      (
        subst (AllValues (Divides total)) (sym states)
            (insert-AllValues (Divides total) a.n alt.state taken.states d funded'.0),
        subst (AllValues (AllDivide total)) (sym alts) (
            insert-AllValues (AllDivide total) a.n others taken.signed_alternatives all_others
              funded'.1),
      )

  confirm_pending-IsFunded :
      (m : Machine) (a : AckMessage) (p : PendingUpdate) {m' : Machine} {x : AckOutcome}
      → IsFunded total m
      → confirm_pending k c m a p ≡ ok (m', x)
      → IsFunded total m'
  confirm_pending-IsFunded m a p {m'} funded e =
      let (taken, taken_so, e2) = confirm_pending-confirms k c m a p e in
      SameStates-IsFunded total taken m' (confirmed-states m a p taken e2)
        (SameStates-IsFunded total m taken (with_reveal-SameStates m a.reveal taken_so) funded)

  announced-IsFunded :
      (d : Machine) (a : AckMessage) (r : Result ProtocolError (Machine × AckOutcome))
      → IsFunded total d
      → adopt_alternative k c d a ≡ r
      → IsFunded total (announced k c d r).0
  announced-IsFunded d a (err f) funded e = announce_dropped-IsFunded total d funded
  announced-IsFunded d a (ok (m', x)) funded e =
      announce_dropped-IsFunded total m' (adopt_alternative-IsFunded d a funded e)

  -- Whatever an acknowledgement makes of the channel.
  pub receive_ack-IsFunded :
      (m : Machine) (a : AckMessage) → IsFunded total m → IsFunded total (receive_ack k c m a).0
  receive_ack-IsFunded m a funded =
      receive_ack-elim k c m a (λ (m', r). IsFunded total m') (λ f. funded)
        (λ m' x free numbered e. adopt_alternative-IsFunded m a funded e)
        (λ m' x p of _ e. confirm_pending-IsFunded m a p funded e)
        (λ p of.
          announced-IsFunded (drop_pending earlier_attempt m) a
            (adopt_alternative k c (drop_pending earlier_attempt m) a)
            (drop_pending-IsFunded total m earlier_attempt funded) refl)
