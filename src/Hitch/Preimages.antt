-- ===== src/Hitch/Preimages.antt =====
-- The preimages that a channel keeps, and the HTLCs of its own that they bind
-- (sidestr-hitch/src/protocol/machine.rs).
use sidestr_rs.Base.{
  ℕ, ◌≡◌, refl, true, Option, some, List, ◌∷◌, inl, inr, Result, ok, err, arith, subst, sym,
}
use sidestr_rs.Base.Map.{Map, contains_key, nat_ord, lookup-insert}
use sidestr_rs.Hitch.Data.{
  same_side, Text, ProtocolHtlc, ProtocolState, ProtocolError, Update, pay, add, settle, fail,
}
use sidestr_rs.Hitch.Messages.{AckMessage, UpdateMessage, Reason, they_won, earlier_attempt}
use sidestr_rs.Hitch.Machine.{Crypto, Channel, Context, Machine, PendingUpdate, SignedAlternative}
use sidestr_rs.Hitch.Reads.{reading}
use sidestr_rs.Hitch.Transition.{next_state, take_htlc}
use sidestr_rs.Hitch.Internals.{or_insert, remember_preimage, drop_pending, announce_dropped}
use sidestr_rs.Hitch.Proposing.{propose, sign_update, send_settle}
use sidestr_rs.Hitch.Answering.{accepted, learn}
use sidestr_rs.Hitch.Agreeing.{
  AckOutcome, adopt_alternative, adopted, with_reveal, confirm_pending, confirmed, announced,
  receive_ack,
}
use sidestr_rs.Hitch.Held.{SameHeld, announce_dropped-SameHeld}
use sidestr_rs.Hitch.Received.{IsReceived}
use sidestr_rs.Hitch.Acknowledged.{keep-elim, receive_ack-elim}
use sidestr_rs.Hitch.Funded.{propose-signs}
use sidestr_rs.Hitch.Adopted.{adopt_alternative-adopts, confirm_pending-confirms}
use sidestr_rs.Hitch.Htlcs.{next_state-fail}
use sidestr_rs.Hitch.Steps.{Call, call_settle_htlc, one_update, answers, run}
use sidestr_rs.Hitch.Conserved.{answers-Holds}
use sidestr_rs.Hitch.Preserved.{run-Holds}

contains_key-or_insert_self : (h p : ℕ) (m : Map ℕ ℕ) → contains_key h (or_insert h p m) ≡ true
contains_key-or_insert_self h p m = ground (arith, lookup-insert h h p m)

contains_key-or_insert :
    (h i p : ℕ) (m : Map ℕ ℕ) → contains_key h m ≡ true → contains_key h (or_insert i p m) ≡ true
contains_key-or_insert h i p m known = ground (arith, lookup-insert i h p m)

module _ (hash : ℕ) where
  -- A preimage of the hash is known.
  abbrev pub IsKnown : Machine → Type 0
  IsKnown m = contains_key hash m.preimages ≡ true

  same-IsKnown : (m m' : Machine) → SameHeld m m' → IsKnown m → IsKnown m'
  same-IsKnown m m' (_, _, _, _, _, _, _, preimages, _) known = rw preimages known

  dropped-IsKnown : (m : Machine) (why : Reason) → IsKnown m → IsKnown (drop_pending why m)
  unfolding drop_pending
  dropped-IsKnown m why known = ground arith

  module _ (k : Crypto) (c : Channel) where
    remembered-IsKnown : (m : Machine) (p : ℕ) → IsKnown m → IsKnown (remember_preimage k p m)
    remembered-IsKnown m p known = contains_key-or_insert hash (k.sha p) p m.preimages known

    learn-IsKnown : (u : Update) (m : Machine) → IsKnown m → IsKnown (learn k u m)
    learn-IsKnown (pay amount memo) m known = known
    learn-IsKnown (add htlc memo) m known = known
    learn-IsKnown (settle id p) m known = remembered-IsKnown m p known
    learn-IsKnown (fail id reason) m known = known

    sign_update-preimages :
        (m : Machine) (u : Update) (s : ProtocolState) (next : ℕ) (ctx : Context) {m' : Machine}
        {x : UpdateMessage}
        → sign_update k c m u s next ctx ≡ ok (m', x)
        → m'.preimages ≡ m.preimages
    unfolding sign_update
    sign_update-preimages m u s next ctx e = ground arith

    proposed-IsKnown :
        (m : Machine) (u : Update) (next : ℕ) (ctx : Context) (m' : Machine) (x : UpdateMessage)
        → IsKnown m
        → propose k c m u next ctx ≡ ok (m', x)
        → IsKnown m'
    proposed-IsKnown m u next ctx m' x known e =
        let (_, v, s, _, _, signed) = propose-signs k c m u next ctx e in
        rw (sign_update-preimages m v s next ctx signed) known

    accepted-preimages :
        (m : Machine) (u : UpdateMessage) (s : ProtocolState) (next : ℕ) (ctx : Context)
        → (accepted k c m u s next ctx).preimages ≡ (learn k u.update m).preimages
    accepted-preimages m u s next ctx = ground arith

    accepted-IsKnown :
        (m : Machine) (u : UpdateMessage) (s : ProtocolState) (next : ℕ) (ctx : Context)
        → IsKnown m
        → IsKnown (accepted k c m u s next ctx)
    accepted-IsKnown m u s next ctx known =
        rw (accepted-preimages m u s next ctx) (learn-IsKnown u.update m known)

    received-IsKnown :
        (m : Machine) (u : UpdateMessage) (next : ℕ) (ctx : Context) (m' : Machine)
        → IsKnown m
        → IsReceived k c m u next ctx m'
        → IsKnown m'
    received-IsKnown m u next ctx m' known (inl same) = subst IsKnown (sym same) known
    received-IsKnown m u next ctx m' known (inr (inl held)) = subst IsKnown (sym held) known
    received-IsKnown m u next ctx m' known (inr (inr (_, s, _, _, _, _, _, taken))) =
        subst IsKnown (sym taken) (
          accepted-IsKnown (drop_pending they_won m) u s next ctx
            (dropped-IsKnown m they_won known))

    with_reveal-preimages :
        (m : Machine) (reveal : ℕ) {taken : Machine}
        → with_reveal k c m reveal ≡ ok taken
        → taken.preimages ≡ m.preimages
    with_reveal-preimages m reveal e = ground arith

    adopted-preimages :
        (m : Machine) (a : AckMessage) (alt : SignedAlternative) (others : List SignedAlternative)
        (taken : Machine) {m' : Machine} {x : AckOutcome}
        → adopted k c m a alt others taken ≡ ok (m', x)
        → m'.preimages ≡ (learn k alt.update taken).preimages
    unfolding adopted
    adopted-preimages m a alt others taken e = ground arith

    confirmed-preimages :
        (m : Machine) (a : AckMessage) (p : PendingUpdate) (taken : Machine) {m' : Machine}
        {x : AckOutcome}
        → confirmed k c m a p taken ≡ ok (m', x)
        → m'.preimages ≡ (learn k p.update taken).preimages
    unfolding confirmed
    confirmed-preimages m a p taken e = ground arith

    adopt_alternative-IsKnown :
        (m : Machine) (a : AckMessage) {m' : Machine} {x : AckOutcome}
        → IsKnown m
        → adopt_alternative k c m a ≡ ok (m', x)
        → IsKnown m'
    adopt_alternative-IsKnown m a known e =
        let (alt, others, taken, _, taken_so, e1) = adopt_alternative-adopts k c m a e in
        rw (adopted-preimages m a alt others taken e1)
          (learn-IsKnown alt.update taken (rw (with_reveal-preimages m a.reveal taken_so) known))

    confirm_pending-IsKnown :
        (m : Machine) (a : AckMessage) (p : PendingUpdate) {m' : Machine} {x : AckOutcome}
        → IsKnown m
        → confirm_pending k c m a p ≡ ok (m', x)
        → IsKnown m'
    confirm_pending-IsKnown m a p known e =
        let (taken, taken_so, e1) = confirm_pending-confirms k c m a p e in
        rw (confirmed-preimages m a p taken e1)
          (learn-IsKnown p.update taken (rw (with_reveal-preimages m a.reveal taken_so) known))

    announced-IsKnown :
        (d : Machine) (a : AckMessage) (r : Result ProtocolError (Machine × AckOutcome))
        → IsKnown d
        → adopt_alternative k c d a ≡ r
        → IsKnown (announced k c d r).0
    announced-IsKnown d a (err f) known e =
        same-IsKnown d (announce_dropped d) (announce_dropped-SameHeld d) known
    announced-IsKnown d a (ok (m', x)) known e =
        same-IsKnown m' (announce_dropped m') (announce_dropped-SameHeld m')
          (adopt_alternative-IsKnown d a known e)

    receive_ack-IsKnown :
        (m : Machine) (a : AckMessage) → IsKnown m → IsKnown (receive_ack k c m a).0
    receive_ack-IsKnown m a known =
        receive_ack-elim k c m a (λ (m', r). IsKnown m') (λ f. known)
          (λ m' x free numbered e. adopt_alternative-IsKnown m a known e)
          (λ m' x p of fits e. confirm_pending-IsKnown m a p known e)
          (λ p of.
            let d = drop_pending earlier_attempt m in
            announced-IsKnown d a (adopt_alternative k c d a)
              (dropped-IsKnown m earlier_attempt known) refl)

    run-IsKnown : (m : Machine) (is : List Call) → IsKnown m → IsKnown (run k c m is).0
    run-IsKnown =
        run-Holds IsKnown same-IsKnown dropped-IsKnown k c remembered-IsKnown proposed-IsKnown
          received-IsKnown receive_ack-IsKnown

module _ (k : Crypto) (c : Channel) where
  send_settle-IsKnown :
      (m : Machine) (id preimage next : ℕ) (ctx : Context)
      → IsKnown (k.sha preimage) (send_settle k c m id preimage next ctx).0
  send_settle-IsKnown m id preimage next ctx =
      let hash = k.sha preimage in
      let kept = remember_preimage k preimage m in
      let known = contains_key-or_insert_self hash preimage m.preimages in
      keep-elim (λ x. IsKnown hash x.0) kept (propose k c kept (settle id preimage) next ctx)
        (λ f. known)
        (λ m' x e. proposed-IsKnown hash k c kept (settle id preimage) next ctx m' x known e)

  -- Once a settlement has been tried, refused or not, and whatever calls follow it, no update of this
  -- side's takes back an HTLC of its own that is locked by the hash of the preimage.
  pub settle_htlc-binds :
      (m : Machine) (id preimage next : ℕ) (ctx : Context) (is : List Call) (s : ProtocolState)
      (other_id : ℕ) (reason : Option Text) (height : ℕ) {h : ProtocolHtlc}
      {rest : List ProtocolHtlc} {s' : ProtocolState}
      → take_htlc other_id s.htlcs ≡ some (h, rest)
      → h.hash ≡ k.sha preimage
      → same_side h.from (run k c m (call_settle_htlc id preimage next ctx ∷ is)).0.role ≡ true
      → ¬ (
          next_state k.sha
            (reading k c (run k c m (call_settle_htlc id preimage next ctx ∷ is)).0)
            s
            (fail other_id reason)
            (run k c m (call_settle_htlc id preimage next ctx ∷ is)).0.role
            height
          ≡ ok s')
  settle_htlc-binds m id preimage next ctx is s other_id reason height found locks ours e =
      let hash = k.sha preimage in
      let settled = send_settle k c m id preimage next ctx in
      let m1 = (run k c m (call_settle_htlc id preimage next ctx ∷ is)).0 in
      let known : IsKnown hash m1 = run-IsKnown hash k c (answers one_update settled).0 is (
        answers-Holds (IsKnown hash) (same-IsKnown hash) (dropped-IsKnown hash) one_update settled
          (send_settle-IsKnown m id preimage next ctx)) in
      let (cases, _, _, _) =
        next_state-fail k.sha (reading k c m1) s other_id reason m1.role height found e in
      elim cases [ inl theirs ↦ cc | inr (_, unknown) ↦ cc ]
