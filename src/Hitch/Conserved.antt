-- ===== src/Hitch/Conserved.antt =====
-- Predicates of a channel over a rejection, and over a message of the peer's place
-- (sidestr-hitch/src/protocol/machine.rs).
use sidestr_rs.Base.{
  ℕ, zero, suc, ◌+◌, ◌≡◌, refl, Bool, false, ◌&&◌, not, Option, none, some, List, [], ◌∷◌, ◌++◌,
  ◌==◌, ltb, unwrap_or, Result, ok, err, fail_if, if-elim, >>=-elim, if◌then◌else◌,
}
use sidestr_rs.Hitch.Data.{ProtocolError, no_pending, side_a, side_b, same_side}
use sidestr_rs.Hitch.Messages.{
  PeerMessage, RejectMessage, SyncMessage, reject_well_formed, they_refused, no_reason,
  both_proposed, Reason,
}
use sidestr_rs.Hitch.Machine.{Crypto, Channel, Context, Machine}
use sidestr_rs.Hitch.Reads.{state_of, commitment_at, sign, my_key, peer_key, pending_n}
use sidestr_rs.Hitch.Internals.{drop_pending, announce_dropped, finalise, take_their_reveal}
use sidestr_rs.Hitch.Proposing.{resend_update, keep}
use sidestr_rs.Hitch.Answering.{acknowledgement, check_id}
use sidestr_rs.Hitch.Agreeing.{is_live}
use sidestr_rs.Hitch.Recovery.{
  commit_again, ready_again, close_again, same_place, places, imported, import_reveals,
  import_reveal, after, behind, on_my_update, is_accepted, is_funding, reconcile, resync,
  receive_reject, too_soon, names_pending,
}
use sidestr_rs.Hitch.Steps.{sent, answers}
use sidestr_rs.Hitch.Held.{
  SameHeld, announce_dropped-SameHeld, take_their_reveal-SameHeld, finalise-SameHeld,
  resend_update-SameHeld,
}

-- A predicate of channels that the steps which change nothing of what a channel holds keep, and that
-- setting the pending update aside keeps.
module _ (Holds : Machine → Type 0) (same : (m m' : Machine) → SameHeld m m' → Holds m → Holds m')
    (dropped : (m : Machine) (why : Reason) → Holds m → Holds (drop_pending why m)) where
  -- An error leaves no machine to ask about.
  abbrev pub MayHold {ℓ} : {X : Type ℓ} → Result ProtocolError (Machine × X) → Type 0
  MayHold (err e) = Unit
  MayHold (ok (m, x)) = Holds m

  pub sent-Holds {ℓ} :
      {X : Type ℓ} (m : Machine) (f : X → List PeerMessage) (r : Result ProtocolError (Machine × X))
      → Holds m
      → ((m' : Machine) (x : X) → r ≡ ok (m', x) → Holds m')
      → Holds (sent f m r).0
  sent-Holds m f (err e) held next = held
  sent-Holds m f (ok (m', x)) held next = next m' x refl

  pub answers-Holds {ℓ} :
      {X : Type ℓ} (f : X → List PeerMessage) (x : Machine × Result ProtocolError X)
      → Holds x.0
      → Holds (answers f x).0
  answers-Holds f (m, err e) held = held
  answers-Holds f (m, ok x) held = held

  pub keep-Holds {ℓ} :
      {X : Type ℓ} (m : Machine) (r : Result ProtocolError (Machine × X))
      → Holds m
      → MayHold r
      → Holds (keep m r).0
  keep-Holds m (err e) held after_it = held
  keep-Holds m (ok (m', x)) held after_it = after_it

  pub dropped-Holds :
      (m : Machine) (why : Reason) → Holds m → Holds (announce_dropped (drop_pending why m))
  dropped-Holds m why held =
      same (drop_pending why m) (announce_dropped (drop_pending why m))
        (announce_dropped-SameHeld (drop_pending why m)) (dropped m why held)

  pub resync-Holds :
      (m : Machine) (ctx : Context) (force : Bool) → Holds m → Holds (resync m ctx force).0
  unfolding resync
  resync-Holds m ctx force held =
      if-elim (λ (x : Machine × Option SyncMessage). Holds x.0)
        (not force && too_soon m.last_sync_at ctx) (λ _. held)
        (λ _.
          same m (record m { last_sync_at = some ctx.now })
            (refl, refl, refl, refl, refl, refl, refl, refl, refl) held)

  pub receive_reject-MayHold :
      (m : Machine) (r : RejectMessage) (ctx : Context) → Holds m → MayHold (receive_reject m r ctx)
  unfolding receive_reject
  receive_reject-MayHold m r ctx held =
      >>=-elim MayHold (reject_well_formed r) _ (λ e. tt)
        λ _ _.
          >>=-elim MayHold (check_id m r.id) _ (λ e. tt)
            λ _ _.
              >>=-elim MayHold (fail_if (not (names_pending m r)) no_pending) _ (λ e. tt)
                λ _ _.
                  resync-Holds
                    (announce_dropped
                      (drop_pending (they_refused (unwrap_or no_reason r.reason)) m))
                    ctx false (dropped-Holds m (they_refused (unwrap_or no_reason r.reason)) held)

  module _ (k : Crypto) (c : Channel) where
    import_reveals-Holds :
        (reveals : List (ℕ × ℕ)) (m : Machine) → Holds m → Holds (import_reveals k c reveals m)
    import_reveals-Holds [] m held = held
    import_reveals-Holds ((index, reveal) ∷ reveals) m held =
        let m1 = (take_their_reveal k index reveal m).1 in
        import_reveals-Holds reveals m1
          (same m m1 (take_their_reveal-SameHeld k index reveal m) held)

    import_reveal-Holds :
        (n : ℕ) (r : Option ℕ) (m : Machine) → Holds m → Holds (import_reveal k c n r m)
    import_reveal-Holds zero r m held = held
    import_reveal-Holds (suc index) none m held = held
    import_reveal-Holds (suc index) (some reveal) m held =
        same m (take_their_reveal k index reveal m).1 (take_their_reveal-SameHeld k index reveal m)
          held

    pub imported-Holds :
        (m : Machine) (message : SyncMessage)
        → Holds m
        → Holds (finalise (imported k c m message)).1
    imported-Holds m message held =
        let d = imported k c m message in
        same d (finalise d).1 (finalise-SameHeld d) (
          import_reveals-Holds (unwrap_or [] message.reveals)
            (import_reveal k c message.n message.reveal m)
            (import_reveal-Holds message.n message.reveal m held))

    same_place-Holds :
        (m : Machine) (mine theirs : Option ℕ) (ctx : Context)
        → Holds m
        → Holds (same_place k c m mine theirs ctx).0
    same_place-Holds m (some a) none ctx held =
        same m (resend_update m ctx).0 (resend_update-SameHeld m ctx) held
    same_place-Holds m (some a) (some b) ctx held =
        if-elim (λ (x : Machine × List PeerMessage). Holds x.0) (a == b)
          (λ _.
            if-elim (λ (x : Machine × List PeerMessage). Holds x.0)
              (ltb (peer_key k c m) (my_key k c m)) (λ _. dropped-Holds m both_proposed held)
              (λ _. same m (resend_update m ctx).0 (resend_update-SameHeld m ctx) held))
          (λ _. held)
    same_place-Holds m none theirs ctx held = held

    places-MayHold :
        (m : Machine) (message : SyncMessage) (ctx : Context)
        → Holds m
        → MayHold (places k c m message ctx)
    places-MayHold m message ctx held =
        if-elim MayHold (message.n == m.state_number)
          (λ _. same_place-Holds m (pending_n m) message.pending_n ctx held)
          (λ _.
            if-elim MayHold (behind k c message m.state_number)
              (λ _. >>=-elim MayHold (acknowledgement k c m ctx) _ (λ e. tt) (λ again _. held))
              (λ _.
                if-elim MayHold
                  (not (on_my_update k c m message) && ltb (m.state_number + 1) message.n)
                  (λ _.
                    same m (record m { peer_ahead = some message.n })
                      (refl, refl, refl, refl, refl, refl, refl, refl, refl) held)
                  (λ _. held)))

    after-MayHold :
        (out : List PeerMessage) (r : Result ProtocolError (Machine × List PeerMessage))
        → MayHold r
        → MayHold (after k c out r)
    after-MayHold out (err e) held = tt
    after-MayHold out (ok (m', more)) held = held

    commit_again-MayHold :
        (m : Machine) (message : SyncMessage) (ctx : Context)
        → Holds m
        → MayHold (commit_again k c m message ctx)
    commit_again-MayHold m message ctx held =
        if-elim MayHold (is_accepted message.status)
          (λ _.
            >>=-elim MayHold (state_of m 0) _ (λ e. tt)
              λ s _.
                >>=-elim MayHold (commitment_at k c m side_b 0 s) _ (λ e. tt)
                  λ tx _. >>=-elim MayHold (sign k c m tx ctx) _ (λ e. tt) λ sig _. held)
          (λ _. held)

    pub reconcile-MayHold :
        (m : Machine) (message : SyncMessage) (ctx : Context)
        → Holds m
        → MayHold (reconcile k c m message ctx)
    unfolding reconcile
    reconcile-MayHold m message ctx held =
        if-elim MayHold (is_funding m.status && same_side m.role side_a)
          (λ _. commit_again-MayHold m message ctx held)
          (λ _.
            >>=-elim MayHold (close_again k c m message ctx) _ (λ e. tt)
              λ close _.
                after-MayHold (ready_again k c m message ++ close)
                  (if is_live m.status then places k c m message ctx else ok (m, []))
                  (if-elim MayHold (is_live m.status) (λ _. places-MayHold m message ctx held)
                    (λ _. held)))
