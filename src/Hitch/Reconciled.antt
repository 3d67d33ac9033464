-- ===== src/Hitch/Reconciled.antt =====
-- What reconciling after a sync does to a channel: it keeps the machine sound, leaves its core,
-- and shows only what may be shown (sidestr-hitch/src/protocol/machine.rs).
use sidestr_rs.Base.{
  ℕ, zero, suc, ◌+◌, ◌≡◌, refl, ◌∙◌, ◌&&◌, not, Option, none, some, List, [], ◌∷◌, ◌++◌, ◌==◌, ◌||◌,
  unwrap_or, if◌then◌else◌, ltb, Result, ok, err, arith, if-elim, >>=-elim, ◌>>=◌,
}
use sidestr_rs.Base.Map.{nat_ord}
use sidestr_rs.Hitch.Data.{ProtocolError, side_a, side_b, same_side}
use sidestr_rs.Hitch.Messages.{
  PeerMessage, AckMessage, ack_message, SyncMessage, synced, commit_message, Reason, both_proposed,
  UpdateMessage, update_message,
}
use sidestr_rs.Hitch.Machine.{Crypto, Channel, Context, Machine}
use sidestr_rs.Hitch.Reads.{pending_n, state_of, commitment_at, sign, my_key, peer_key}
use sidestr_rs.Hitch.Internals.{drop_pending, announce_dropped, finalise, take_their_reveal}
use sidestr_rs.Hitch.Proposing.{resend_update, is_open}
use sidestr_rs.Hitch.Answering.{acknowledgement, is_closing_asked}
use sidestr_rs.Hitch.Agreeing.{is_live}
use sidestr_rs.Hitch.Closing.{close_of}
use sidestr_rs.Hitch.Recovery.{
  commit_again, ready_again, close_again, same_place, places, imported, import_reveals,
  import_reveal, synced_answer, resent, after, behind, on_my_update, is_accepted, is_funding,
  reports, reconcile, is_sync,
}
use sidestr_rs.Hitch.Sound.{
  IsSound, SameCore, drop_pending-SameCore, announce_dropped-SameCore, finalise-SameCore,
  take_their_reveal-SameCore, SameCore-IsSound, SameCore-IsSound-none, SameCore-trans,
}
use sidestr_rs.Hitch.Shown.{IsRevealable, ShowsOnly, ShowsOnly-append, ShowsOnly-map}
use sidestr_rs.Hitch.Guarded.{acknowledgement-IsRevealable, synced-IsRevealable}

pub SameCore-IsRevealable :
    (m m' : Machine) → SameCore m m' → (s : ℕ) → IsRevealable m s → IsRevealable m' s
SameCore-IsRevealable m m' same s (n, may, is) = (n, ground arith, rw (same.1) is)

-- Leaves the core, stays sound and shows only what may be shown.
abbrev pub IsQuiet : Machine → Machine × List PeerMessage → Type 0
IsQuiet m (m', out) = SameCore m m' × IsSound m' × ShowsOnly (IsRevealable m') out

abbrev pub MayBeQuiet : Machine → Result ProtocolError (Machine × List PeerMessage) → Type 0
MayBeQuiet m (err e) = Unit
MayBeQuiet m (ok x) = IsQuiet m x

module _ (k : Crypto) (c : Channel) where
  import_reveals-SameCore :
      (reveals : List (ℕ × ℕ)) (m : Machine)
      → SameCore m (import_reveals k c reveals m)
        × ((import_reveals k c reveals m).pending ≡ m.pending)
  import_reveals-SameCore [] m = ((refl, refl, refl, refl), refl)
  import_reveals-SameCore ((index, reveal) ∷ reveals) m =
      let m1 = (take_their_reveal k index reveal m).1 in
      let (core, kept) = take_their_reveal-SameCore k index reveal m in
      let (core', kept') = import_reveals-SameCore reveals m1 in
      (SameCore-trans m m1 (import_reveals k c reveals m1) core core', kept' ∙ kept)

  import_reveal-SameCore :
      (n : ℕ) (r : Option ℕ) (m : Machine)
      → SameCore m (import_reveal k c n r m) × ((import_reveal k c n r m).pending ≡ m.pending)
  import_reveal-SameCore zero r m = ((refl, refl, refl, refl), refl)
  import_reveal-SameCore (suc index) none m = ((refl, refl, refl, refl), refl)
  import_reveal-SameCore (suc index) (some reveal) m = take_their_reveal-SameCore k index reveal m

  -- The machine after a sync's secrets are taken and what they finish is final.
  pub imported-facts :
      (m : Machine) (message : SyncMessage)
      → IsSound m
      → SameCore m (finalise (imported k c m message)).1
        × IsSound (finalise (imported k c m message)).1
  imported-facts m message sound =
      let m1 = import_reveal k c message.n message.reveal m in
      let (core1, kept1) = import_reveal-SameCore message.n message.reveal m in
      let m2 = imported k c m message in
      let (core2, kept2) = import_reveals-SameCore (unwrap_or [] message.reveals) m1 in
      let (core3, kept3) = finalise-SameCore m2 in
      let core =
        SameCore-trans m m1 (finalise m2).1 core1
          (SameCore-trans m1 m2 (finalise m2).1 core2 core3) in
      (core, SameCore-IsSound m (finalise m2).1 core (kept3 ∙ kept2 ∙ kept1) sound)

  module _ (m : Machine) (sound : IsSound m) (message : SyncMessage) (ctx : Context) where
    here : (out : List PeerMessage) → ShowsOnly (IsRevealable m) out → IsQuiet m (m, out)
    here out shows = ((refl, refl, refl, refl), sound, shows)

    commit_again-MayBeQuiet : MayBeQuiet m (commit_again k c m message ctx)
    commit_again-MayBeQuiet =
        if-elim (MayBeQuiet m) (is_accepted message.status)
          (λ _.
            >>=-elim (MayBeQuiet m) (state_of m 0) _ (λ e. tt)
              λ s _.
                >>=-elim (MayBeQuiet m) (commitment_at k c m side_b 0 s) _ (λ e. tt)
                  λ tx _.
                    >>=-elim (MayBeQuiet m) (sign k c m tx ctx) _ (λ e. tt)
                      λ sig _. here (commit_message m.id sig ∷ []) (tt, tt))
          (λ _. here [] tt)

    ready_again-ShowsOnly : ShowsOnly (IsRevealable m) (ready_again k c m message)
    ready_again-ShowsOnly =
        if-elim (ShowsOnly (IsRevealable m))
          (is_funding m.status
            && same_side m.role side_b
            && reports (λ s. is_funding s || is_open s) message.status)
          (λ _. (tt, tt)) (λ _. tt)

    abbrev MayShow : Result ProtocolError (List PeerMessage) → Type 0
    MayShow (err e) = Unit
    MayShow (ok out) = ShowsOnly (IsRevealable m) out

    close_again-MayShow : MayShow (close_again k c m message ctx)
    close_again-MayShow =
        if-elim MayShow
          (is_closing_asked m.status && reports (λ s. is_funding s || is_live s) message.status)
          (λ _. >>=-elim MayShow (close_of k c m ctx) _ (λ e. tt) λ close _. (tt, tt)) (λ _. tt)

    resend_update-facts : SameCore m (resend_update m ctx).0 × IsSound (resend_update m ctx).0
    resend_update-facts = ground arith

    updates-ShowsOnly :
        (P : ℕ → Type 0) (u : Option UpdateMessage)
        → ShowsOnly P (elim u [ none ↦ [] | some x ↦ update_message x ∷ [] ])
    updates-ShowsOnly P none = tt
    updates-ShowsOnly P (some u) = (tt, tt)

    resent-IsQuiet : IsQuiet m (resent k c m ctx)
    resent-IsQuiet = (
      resend_update-facts.0,
      resend_update-facts.1,
      updates-ShowsOnly (IsRevealable (resend_update m ctx).0) (resend_update m ctx).1,
    )

    dropped-IsQuiet : (why : Reason) → IsQuiet m (announce_dropped (drop_pending why m), [])
    dropped-IsQuiet why =
        let d = drop_pending why m in
        let (core, free) = drop_pending-SameCore m why in
        let (core', kept) = announce_dropped-SameCore d in
        let all_core = SameCore-trans m d (announce_dropped d) core core' in
        (all_core, SameCore-IsSound-none m (announce_dropped d) all_core (kept ∙ free) sound, tt)

    same_place-IsQuiet : (mine theirs : Option ℕ) → IsQuiet m (same_place k c m mine theirs ctx)
    same_place-IsQuiet (some a) none = resent-IsQuiet
    same_place-IsQuiet (some a) (some b) =
        if-elim (IsQuiet m) (a == b)
          (λ _.
            if-elim (IsQuiet m) (ltb (peer_key k c m) (my_key k c m))
              (λ _. dropped-IsQuiet both_proposed) (λ _. resent-IsQuiet))
          (λ _. here [] tt)
    same_place-IsQuiet none theirs = here [] tt

    acks-ShowsOnly :
        (o : Option AckMessage)
        → acknowledgement k c m ctx ≡ ok o
        → ShowsOnly (IsRevealable m) (elim o [ none ↦ [] | some a ↦ ack_message a ∷ [] ])
    acks-ShowsOnly none e = tt
    acks-ShowsOnly (some a) e = ((acknowledgement-IsRevealable k c m ctx e, tt), tt)

    places-MayBeQuiet : MayBeQuiet m (places k c m message ctx)
    places-MayBeQuiet =
        if-elim (MayBeQuiet m) (message.n == m.state_number)
          (λ _. same_place-IsQuiet (pending_n m) message.pending_n)
          (λ _.
            if-elim (MayBeQuiet m) (behind k c message m.state_number)
              (λ _.
                >>=-elim (MayBeQuiet m) (acknowledgement k c m ctx) _ (λ e. tt)
                  λ again e.
                    here (elim again [ none ↦ [] | some a ↦ ack_message a ∷ [] ])
                      (acks-ShowsOnly again e))
              (λ _.
                if-elim (MayBeQuiet m)
                  (not (on_my_update k c m message) && ltb (m.state_number + 1) message.n)
                  (λ _. ((refl, refl, refl, refl), sound, tt)) (λ _. here [] tt)))

    after-MayBeQuiet :
        (out : List PeerMessage) (r : Result ProtocolError (Machine × List PeerMessage))
        → ShowsOnly (IsRevealable m) out
        → MayBeQuiet m r
        → MayBeQuiet m (after k c out r)
    after-MayBeQuiet out (err e) shows quiet = tt
    after-MayBeQuiet out (ok (m', more)) shows (core, sound', more_shows) = (
      core,
      sound',
      ShowsOnly-append (IsRevealable m') out more
          (ShowsOnly-map (IsRevealable m) (IsRevealable m') (SameCore-IsRevealable m m' core) out
            shows)
          more_shows,
    )

    closed-MayBeQuiet :
        (r : Result ProtocolError (List PeerMessage))
        → MayShow r
        → MayBeQuiet m (
            r >>= λ close.
            after k c
              (ready_again k c m message ++ close)
              (if is_live m.status then places k c m message ctx else ok (m, [])))
    closed-MayBeQuiet (err e) shows = tt
    closed-MayBeQuiet (ok close) shows =
        after-MayBeQuiet (ready_again k c m message ++ close)
          (if is_live m.status then places k c m message ctx else ok (m, []))
          (ShowsOnly-append (IsRevealable m) (ready_again k c m message) close ready_again-ShowsOnly
            shows)
          (if-elim (MayBeQuiet m) (is_live m.status) (λ _. places-MayBeQuiet) (λ _. here [] tt))

    pub reconcile-MayBeQuiet : MayBeQuiet m (reconcile k c m message ctx)
    unfolding reconcile
    reconcile-MayBeQuiet =
        if-elim (MayBeQuiet m) (is_funding m.status && same_side m.role side_a)
          (λ _. commit_again-MayBeQuiet)
          (λ _. closed-MayBeQuiet (close_again k c m message ctx) close_again-MayShow)

    pub synced_answer-ShowsOnly : ShowsOnly (IsRevealable m) (synced_answer m message)
    synced_answer-ShowsOnly =
        if-elim (ShowsOnly (IsRevealable m)) (is_sync message.t)
          (λ _. (synced-IsRevealable m synced message.missing, tt)) (λ _. tt)
