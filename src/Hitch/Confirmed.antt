-- ===== src/Hitch/Confirmed.antt =====
-- The signed commitment that a channel holds once an acknowledgement is taken (`receive_ack` of
-- sidestr-hitch/src/protocol/machine.rs).
use sidestr_rs.Base.{
  ℕ, ◌≡◌, ◌∙◌, refl, true, false, Option, none, some, List, [], ◌∷◌, Result, ok, err, arith, subst,
  ap, if-elim,
}
use sidestr_rs.Base.Map.{lookup, insert, nat_ord, lookup-insert_self}
use sidestr_rs.Hitch.Data.{ProtocolState, ProtocolError}
use sidestr_rs.Hitch.Messages.{AckMessage, earlier_attempt}
use sidestr_rs.Hitch.Machine.{Crypto, Channel, Machine, PendingUpdate, SignedAlternative}
use sidestr_rs.Hitch.Reads.{commitment_at, verifies}
use sidestr_rs.Hitch.Internals.{drop_pending, announce_dropped}
use sidestr_rs.Hitch.Agreeing.{
  AckOutcome, adopt_alternative, adopted, find_alternative, alternatives, with_reveal,
  confirm_pending, confirmed, announced, receive_ack, put_back, alternative_fits,
}
use sidestr_rs.Hitch.Held.{SameHeld, announce_dropped-SameHeld}
use sidestr_rs.Hitch.Signed.{Signs}
use sidestr_rs.Hitch.Total.{Given}
use sidestr_rs.Hitch.Acknowledged.{receive_ack-elim, IsOfPending, IsFitting}
use sidestr_rs.Hitch.Adopted.{adopt_alternative-adopts, confirm_pending-confirms}
use sidestr_rs.Hitch.Publishable.{
  IsPublishable, Advances-IsPublishable, same-IsPublishable, dropped-IsPublishable,
  drop_pending-keeps,
}

module _ (k : Crypto) (c : Channel) where
  -- The alternative that is found is signed.
  abbrev IsSignedPart : Machine → ℕ → ℕ → SignedAlternative × List SignedAlternative → Type 0
  IsSignedPart m n sig (alt, others) = Signs k c m n alt.state sig

  put_back-IsSignedPart :
      (m : Machine) (n sig : ℕ) (alt : SignedAlternative)
      (o : Option (SignedAlternative × List SignedAlternative))
      → Given (IsSignedPart m n sig) o
      → Given (IsSignedPart m n sig) (put_back k c alt o)
  put_back-IsSignedPart m n sig alt none g = tt
  put_back-IsSignedPart m n sig alt (some (found, alts)) g = g

  fits_made :
      (m : Machine) (n sig : ℕ) (s : ProtocolState) (r : Result ProtocolError ℕ)
      → commitment_at k c m m.role n s ≡ r
      → elim r [ ok tx ↦ verifies k c m tx sig | err e ↦ false ] ≡ true
      → Signs k c m n s sig
  fits_made m n sig s (ok tx) made good = (tx, made, good)
  fits_made m n sig s (err e) made good = cc

  find_alternative-IsSignedPart :
      (m : Machine) (n sig : ℕ) (alts : List SignedAlternative)
      → Given (IsSignedPart m n sig) (find_alternative k c m n sig alts)
  unfolding find_alternative
  find_alternative-IsSignedPart m n sig [] = tt
  find_alternative-IsSignedPart m n sig (alt ∷ alts) =
      if-elim (Given (IsSignedPart m n sig)) (alternative_fits k c m n sig alt)
        (λ good. fits_made m n sig alt.state (commitment_at k c m m.role n alt.state) refl good)
        (λ _.
          put_back-IsSignedPart m n sig alt (find_alternative k c m n sig alts)
            (find_alternative-IsSignedPart m n sig alts))

  -- What taking a secret leaves as it was.
  with_reveal-SameHeld :
      (m : Machine) (reveal : ℕ) {taken : Machine}
      → with_reveal k c m reveal ≡ ok taken
      → SameHeld m taken × (taken.pending ≡ m.pending)
  with_reveal-SameHeld m reveal e = ground arith

  adopted-facts :
      (m : Machine) (a : AckMessage) (alt : SignedAlternative) (others : List SignedAlternative)
      (taken : Machine) {m' : Machine} {x : AckOutcome}
      → adopted k c m a alt others taken ≡ ok (m', x)
      → (m'.states ≡ insert a.n alt.state taken.states)
        × (m'.signatures ≡ insert a.n a.sig taken.signatures)
        × (m'.my_revocation ≡ taken.my_revocation)
        × (m'.state_number ≡ a.n)
        × (m'.role ≡ taken.role)
        × (m'.their_revocation_base ≡ taken.their_revocation_base)
        × (m'.pending ≡ taken.pending)
  unfolding adopted
  adopted-facts m a alt others taken e = ground arith

  confirmed-facts :
      (m : Machine) (a : AckMessage) (p : PendingUpdate) (taken : Machine) {m' : Machine}
      {x : AckOutcome}
      → confirmed k c m a p taken ≡ ok (m', x)
      → (m'.states ≡ taken.states)
        × (m'.signatures ≡ insert a.n a.sig taken.signatures)
        × (m'.my_revocation ≡ taken.my_revocation)
        × (m'.state_number ≡ a.n)
        × (m'.role ≡ taken.role)
        × (m'.their_revocation_base ≡ taken.their_revocation_base)
        × (m'.pending ≡ none)
  unfolding confirmed
  confirmed-facts m a p taken e = ground arith

  adopt_alternative-IsPublishable :
      (m : Machine) (a : AckMessage) {m' : Machine} {x : AckOutcome}
      → m.pending ≡ none
      → adopt_alternative k c m a ≡ ok (m', x)
      → IsPublishable k c m'
  adopt_alternative-IsPublishable m a {m'} free e =
      let (alt, others, taken, is_found, taken_so, e1) = adopt_alternative-adopts k c m a e in
      let signed =
        subst (Given (IsSignedPart m a.n a.sig)) is_found
          (find_alternative-IsSignedPart m a.n a.sig (alternatives m a.n)) in
      let ((_, _, _, _, secrets, role, base, _, _), pending) =
        with_reveal-SameHeld m a.reveal taken_so in
      let (states', signatures', secrets', number', role', base', pending') =
        adopted-facts m a alt others taken e1 in
      Advances-IsPublishable k c m m' a.n alt.state a.sig signed (
        number',
        ap (lookup a.n) states' ∙ lookup-insert_self a.n alt.state taken.states,
        ap (lookup a.n) signatures' ∙ lookup-insert_self a.n a.sig taken.signatures,
        role' ∙ role,
        base' ∙ base,
        ap (lookup a.n) (secrets' ∙ secrets),
        ground (arith, pending' ∙ pending ∙ free),
      )

  confirm_pending-IsPublishable :
      (m : Machine) (a : AckMessage) (p : PendingUpdate) {m' : Machine} {x : AckOutcome}
      → IsOfPending k c m a p
      → IsFitting k c m a p
      → confirm_pending k c m a p ≡ ok (m', x)
      → IsPublishable k c m'
  confirm_pending-IsPublishable m a p {m'} (_, _, same) (s, held, signed) e =
      let (taken, taken_so, e1) = confirm_pending-confirms k c m a p e in
      let ((states, _, _, _, secrets, role, base, _, _), _) =
        with_reveal-SameHeld m a.reveal taken_so in
      let (states', signatures', secrets', number', role', base', pending') =
        confirmed-facts m a p taken e1 in
      Advances-IsPublishable k c m m' a.n s a.sig (subst (λ n. Signs k c m n s a.sig) same signed) (
        number',
        ap (lookup a.n) (states' ∙ states) ∙ subst (λ n. lookup n m.states ≡ some s) same held,
        ap (lookup a.n) signatures' ∙ lookup-insert_self a.n a.sig taken.signatures,
        role' ∙ role,
        base' ∙ base,
        ap (lookup a.n) (secrets' ∙ secrets),
        ground (arith, pending'),
      )

  announced-IsPublishable :
      (d : Machine) (a : AckMessage) (r : Result ProtocolError (Machine × AckOutcome))
      → d.pending ≡ none
      → IsPublishable k c d
      → adopt_alternative k c d a ≡ r
      → IsPublishable k c (announced k c d r).0
  announced-IsPublishable d a (err f) free good e =
      same-IsPublishable k c d (announce_dropped d) (announce_dropped-SameHeld d) good
  announced-IsPublishable d a (ok (m', x)) free good e =
      same-IsPublishable k c m' (announce_dropped m') (announce_dropped-SameHeld m')
        (adopt_alternative-IsPublishable d a free e)

  pub receive_ack-IsPublishable :
      (m : Machine) (a : AckMessage)
      → IsPublishable k c m
      → IsPublishable k c (receive_ack k c m a).0
  receive_ack-IsPublishable m a good =
      receive_ack-elim k c m a (λ (m', r). IsPublishable k c m') (λ f. good)
        (λ m' x free numbered e. adopt_alternative-IsPublishable m a free e)
        (λ m' x p of fits e. confirm_pending-IsPublishable m a p of fits e)
        (λ p of.
          let d = drop_pending earlier_attempt m in
          announced-IsPublishable d a (adopt_alternative k c d a)
            (drop_pending-keeps earlier_attempt m).5
            (dropped-IsPublishable k c m earlier_attempt good) refl)
