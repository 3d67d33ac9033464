-- ===== src/Hitch/Agreed.antt =====
-- What an acknowledgement does to a channel: it keeps the machine sound, goes on, and shows only what may be shown (sidestr-hitch/src/protocol/machine.rs).
use sidestr_rs.Base.{
  ℕ, ◌+◌, ◌≡◌, refl, ◌∙◌, inl, true, not, none, some, [], ◌∷◌, Result, ok, err, arith, subst, sym,
  >>=-eq-ok, fail_if,
}
use sidestr_rs.Base.Map.{lookup, nat_ord}
use sidestr_rs.Hitch.Data.{ProtocolError, missing_proof}
use sidestr_rs.Hitch.Messages.{AckMessage, revoke_message, earlier_attempt}
use sidestr_rs.Hitch.Machine.{Crypto, Channel, Machine, PendingUpdate}
use sidestr_rs.Hitch.Reads.{their_pop_ok}
use sidestr_rs.Hitch.Internals.{drop_pending, announce_dropped}
use sidestr_rs.Hitch.Agreeing.{
  AckOutcome, is_live, adopt_alternative, adopted, confirm_pending, confirmed, with_reveal,
  announced, receive_ack,
}
use sidestr_rs.Hitch.Steps.{answers, revokes}
use sidestr_rs.Hitch.Sound.{
  IsSound, SameCore, drop_pending-SameCore, announce_dropped-SameCore, SameCore-IsSound-none,
  SameCore-trans,
}
use sidestr_rs.Hitch.Shown.{IsGood, KeepsSecrets-same}
use sidestr_rs.Hitch.Acknowledged.{IsOfPending, receive_ack-elim}
use sidestr_rs.Hitch.Guarded.{unchanged-IsGood, SameCore-IsGood}

module _ (k : Crypto) (c : Channel) (m : Machine) (sound : IsSound m) where
  -- What an acknowledged update changes of the core, and the secret that it shows.
  abbrev IsAgreed : Machine → AckMessage → Machine → AckOutcome → Type 0
  IsAgreed d a m' x =
      (m'.state_number ≡ a.n)
      × (m'.my_revocation ≡ d.my_revocation)
      × (m'.status ≡ d.status)
      × (m'.close ≡ d.close)
      × (m'.pending ≡ none)
      × (lookup d.state_number d.my_revocation ≡ some x.revoke.reveal)

  adopt_alternative-IsAgreed :
      (d : Machine) (a : AckMessage) {m' : Machine} {x : AckOutcome}
      → d.pending ≡ none
      → adopt_alternative k c d a ≡ ok (m', x)
      → IsAgreed d a m' x
  unfolding adopt_alternative adopted
  adopt_alternative-IsAgreed d a free e = ground arith

  with_reveal-SameCore :
      (reveal : ℕ) {taken : Machine} → with_reveal k c m reveal ≡ ok taken → SameCore m taken
  with_reveal-SameCore reveal e = ground arith

  confirmed-IsAgreed :
      (a : AckMessage) (p : PendingUpdate) (taken : Machine) {m' : Machine} {x : AckOutcome}
      → confirmed k c m a p taken ≡ ok (m', x)
      → SameCore m taken
      → IsAgreed m a m' x
  unfolding confirmed
  confirmed-IsAgreed a p taken e same = ground arith

  confirm_pending-IsAgreed :
      (a : AckMessage) (p : PendingUpdate) {m' : Machine} {x : AckOutcome}
      → confirm_pending k c m a p ≡ ok (m', x)
      → IsAgreed m a m' x
  unfolding confirm_pending
  confirm_pending-IsAgreed a p e =
      let (_, _, e1) =
        >>=-eq-ok
          (fail_if (not (their_pop_ok k c m (p.n + 1) a.next_rev a.next_rev_pop)) missing_proof) _
          e in
      let (taken, took_it, e2) = >>=-eq-ok (with_reveal k c m a.reveal) _ e1 in
      confirmed-IsAgreed a p taken e2 (with_reveal-SameCore a.reveal took_it)

  abbrev IsAnswer : Machine × Result ProtocolError AckOutcome → Type 0
  IsAnswer r = IsGood m (answers revokes r)

  IsAgreed-IsGood :
      (a : AckMessage) (m' : Machine) (x : AckOutcome)
      → is_live m.status ≡ true
      → a.n ≡ m.state_number + 1
      → IsAgreed m a m' x
      → IsGood m (m', revoke_message x.revoke ∷ [])
  IsAgreed-IsGood a m' x live numbered agreed = (
    ground arith,
    omega (arith, agreed, numbered),
    KeepsSecrets-same m m' agreed.1,
    inl (ground (arith, live)),
    ((((m.state_number, ground arith, rw (agreed.1) (agreed.5)), tt), tt)),
  )

  IsAgreed-through :
      (d m1 m' : Machine) (a : AckMessage) (x : AckOutcome)
      → SameCore m d
      → IsAgreed d a m1 x
      → SameCore m1 m'
      → m'.pending ≡ m1.pending
      → IsAgreed m a m' x
  IsAgreed-through d m1 m' a x same agreed same' kept = (
    same'.0 ∙ agreed.0,
    same'.1 ∙ agreed.1 ∙ same.1,
    same'.2 ∙ agreed.2 ∙ same.2,
    same'.3 ∙ agreed.3 ∙ same.3,
    kept ∙ agreed.4,
    subst (λ n. lookup n m.my_revocation ≡ some x.revoke.reveal) same.0
        (subst (λ r. lookup d.state_number r ≡ some x.revoke.reveal) same.1 agreed.5),
  )

  adopt_alternative-live :
      (d : Machine) (a : AckMessage) {m' : Machine} {x : AckOutcome}
      → adopt_alternative k c d a ≡ ok (m', x)
      → is_live d.status ≡ true
  unfolding adopt_alternative
  adopt_alternative-live d a e = ground arith

  pending_next : (p : PendingUpdate) → m.pending ≡ some p → p.n ≡ m.state_number + 1
  pending_next p is = ground arith

  announced-IsAnswer :
      (a : AckMessage) (p : PendingUpdate)
      → IsOfPending k c m a p
      → (r : Result ProtocolError (Machine × AckOutcome))
      → adopt_alternative k c (drop_pending earlier_attempt m) a ≡ r
      → IsAnswer (announced k c (drop_pending earlier_attempt m) r)
  announced-IsAnswer a p (live, is, same) (err f) e =
      let d = drop_pending earlier_attempt m in
      let (core, free) = drop_pending-SameCore m earlier_attempt in
      let (core', kept) = announce_dropped-SameCore d in
      let all_core = SameCore-trans m d (announce_dropped d) core core' in
      SameCore-IsGood m (announce_dropped d) [] all_core
        (SameCore-IsSound-none m (announce_dropped d) all_core (kept ∙ free) sound) tt
  announced-IsAnswer a p (live, is, same) (ok (m1, x)) e =
      let d = drop_pending earlier_attempt m in
      let (core, free) = drop_pending-SameCore m earlier_attempt in
      let (core', kept) = announce_dropped-SameCore m1 in
      IsAgreed-IsGood a (announce_dropped m1) x live (sym same ∙ pending_next p is) (
        IsAgreed-through d m1 (announce_dropped m1) a x core (adopt_alternative-IsAgreed d a free e)
          core' kept)

  pub receive_ack-IsGood : (a : AckMessage) → IsGood m (answers revokes (receive_ack k c m a))
  receive_ack-IsGood a =
      receive_ack-elim k c m a IsAnswer (λ f. unchanged-IsGood m sound)
        (λ m' x free numbered e.
          IsAgreed-IsGood a m' x (adopt_alternative-live m a e) numbered
            (adopt_alternative-IsAgreed m a free e))
        (λ m' x p (live, is, same) _ e.
          IsAgreed-IsGood a m' x live (sym same ∙ pending_next p is)
            (confirm_pending-IsAgreed a p e))
        (λ p of.
          announced-IsAnswer a p of (adopt_alternative k c (drop_pending earlier_attempt m) a) refl)
