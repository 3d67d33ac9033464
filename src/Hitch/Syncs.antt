-- ===== src/Hitch/Syncs.antt =====
-- The steps of a channel that answer a sync or a reject: each keeps the machine sound, leaves its
-- core, and shows only what may be shown (sidestr-hitch/src/protocol/machine.rs).
use sidestr_rs.Base.{
  ◌≡◌, ◌∙◌, Bool, false, ◌&&◌, not, Option, some, List, [], ◌++◌, ◌>>◌, unwrap_or, Result, ok, err,
  arith, if-elim, subst, sym, ◌>>=◌,
}
use sidestr_rs.Base.Map.{nat_ord}
use sidestr_rs.Hitch.Data.{ProtocolError}
use sidestr_rs.Hitch.Messages.{
  PeerMessage, SyncMessage, sync, they_refused, no_reason, RejectMessage, sync_well_formed,
}
use sidestr_rs.Hitch.Machine.{Crypto, Channel, Context, Machine, FinalisedUpdate}
use sidestr_rs.Hitch.Internals.{drop_pending, announce_dropped, finalise}
use sidestr_rs.Hitch.Proposing.{keep}
use sidestr_rs.Hitch.Answering.{check_id}
use sidestr_rs.Hitch.Recovery.{
  imported, too_soon, synced_answer, reconcile, resync, receive_reject, receive_sync, position,
}
use sidestr_rs.Hitch.Steps.{answers, replies, maybe_sync}
use sidestr_rs.Hitch.Sound.{
  IsSound, SameCore, drop_pending-SameCore, announce_dropped-SameCore, SameCore-IsSound-none,
  SameCore-trans,
}
use sidestr_rs.Hitch.Shown.{IsRevealable, IsGood, ShowsOnly-append, ShowsOnly-map}
use sidestr_rs.Hitch.Guarded.{SameCore-IsGood, unchanged-IsGood, position-IsRevealable}
use sidestr_rs.Hitch.Reconciled.{
  SameCore-IsRevealable, MayBeQuiet, imported-facts, reconcile-MayBeQuiet, synced_answer-ShowsOnly,
}

module _ (k : Crypto) (c : Channel) where
  module _ (m : Machine) (sound : IsSound m) where
    -- A machine with a good core, and what a quiet step sends after it.
    kept-IsGood :
        (d : Machine) (message : SyncMessage) (ctx : Context) (finalised : Option FinalisedUpdate)
        → SameCore m d
        → IsSound d
        → (r : Result ProtocolError (Machine × List PeerMessage)) → MayBeQuiet d r
        → IsGood m (
            answers replies
              (keep d (r >>= λ (m'', out). ok (m'', (finalised, synced_answer d message ++ out)))))
    kept-IsGood d message ctx finalised core sound' (err e) quiet =
        SameCore-IsGood m d [] core sound' tt
    kept-IsGood d message ctx finalised core sound' (ok (m'', out)) (core', sound'', shows) =
        SameCore-IsGood m m'' (synced_answer d message ++ out) (SameCore-trans m d m'' core core')
          sound''
          (ShowsOnly-append (IsRevealable m'') (synced_answer d message) out
            (ShowsOnly-map (IsRevealable d) (IsRevealable m'') (SameCore-IsRevealable d m'' core')
              (synced_answer d message) (synced_answer-ShowsOnly k c d sound' message ctx))
            shows)

    synced-IsGood :
        (message : SyncMessage) (ctx : Context) (r : Result ProtocolError (Unit {0}))
        → IsGood m (
            answers replies (elim r [
              | err e ↦ (m, err e)
              | ok _ ↦
                  let (finalised, m') = finalise (imported k c m message) in
                  keep m' (
                    reconcile k c m' message ctx >>= λ (m'', out).
                    ok (m'', (finalised, synced_answer m' message ++ out)))
            ]))
    synced-IsGood message ctx (err e) = unchanged-IsGood m sound
    synced-IsGood message ctx (ok _) =
        let d = (finalise (imported k c m message)).1 in
        let (core, sound') = imported-facts k c m message sound in
        kept-IsGood d message ctx (finalise (imported k c m message)).0 core sound'
          (reconcile k c d message ctx) (reconcile-MayBeQuiet k c d sound' message ctx)

    pub receive_sync-IsGood :
        (message : SyncMessage) (ctx : Context)
        → IsGood m (answers replies (receive_sync k c m message ctx))
    unfolding receive_sync
    receive_sync-IsGood message ctx =
        synced-IsGood message ctx (sync_well_formed message >> check_id m message.id)

    pub resync-IsGood :
        (d : Machine) (ctx : Context) (force : Bool)
        → SameCore m d
        → IsSound d
        → IsGood m ((resync d ctx force).0, maybe_sync (resync d ctx force).1)
    unfolding resync
    resync-IsGood d ctx force core sound' =
        let sent : Machine = record d { last_sync_at = some ctx.now } in
        if-elim (λ (x : Machine × Option SyncMessage). IsGood m (x.0, maybe_sync x.1))
          (not force && too_soon d.last_sync_at ctx) (λ _. SameCore-IsGood m d [] core sound' tt)
          (λ _.
            SameCore-IsGood m sent (maybe_sync (some (position d sync))) core sound'
              (position-IsRevealable d sync, tt))

    receive_reject-cases :
        (r : RejectMessage) (ctx : Context) {m' : Machine} {x : Option SyncMessage}
        → receive_reject m r ctx ≡ ok (m', x)
        → (m', x)
          ≡ resync
              (announce_dropped (drop_pending (they_refused (unwrap_or no_reason r.reason)) m))
              ctx
              false
    unfolding receive_reject
    receive_reject-cases r ctx e = ground arith

    pub receive_reject-IsGood :
        (r : RejectMessage) (ctx : Context) {m' : Machine} {x : Option SyncMessage}
        → receive_reject m r ctx ≡ ok (m', x)
        → IsGood m (m', maybe_sync x)
    receive_reject-IsGood r ctx e =
        let why = they_refused (unwrap_or no_reason r.reason) in
        let d = drop_pending why m in
        let (core, free) = drop_pending-SameCore m why in
        let (core', kept) = announce_dropped-SameCore d in
        let all_core = SameCore-trans m d (announce_dropped d) core core' in
        subst (λ (x : Machine × Option SyncMessage). IsGood m (x.0, maybe_sync x.1))
          (sym (receive_reject-cases r ctx e))
          (resync-IsGood (announce_dropped d) ctx false all_core
            (SameCore-IsSound-none m (announce_dropped d) all_core (kept ∙ free) sound))
