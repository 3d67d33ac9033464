-- ===== src/Overlays/Production.antt =====
-- What a producer keeps of its mempool is a block body that the assets rule and the pool rule accept
-- (`OverlayRules::sequence` of sidestr-core/src/overlays.rs, `AssetsRule::candidate` of assets.rs,
-- `PoolRule::check` of pool.rs).
use sidestr_rs.Base.{
  ℕ, suc, ◌≡◌, refl, ap, ◌∙◌, inl, inr, false, Option, none, some, List, [], ◌∷◌, ◌==◌,
  if◌then◌else◌, All, arith, Result, ok, err, >>=-eq-ok, Result-cases,
}
use sidestr_rs.Base.Bytes.{Bytes}
use sidestr_rs.Base.Map.{Map}
use sidestr_rs.Bitcoin.{Bitcoin, Transaction, OutPoint}
use sidestr_rs.Assets.Carry.{Carry, AssetView}
use sidestr_rs.Assets.Check.{AssetError, MintPolicy, check_inner}
use sidestr_rs.Assets.View.{apply_transaction, apply_transactions, settle}
use sidestr_rs.Assets.Rule.{AssetTrace, candidate_from, trace_inputs, judged}
use sidestr_rs.Assets.Blocks.{single-other, candidate_from-other}
use sidestr_rs.Pool.Transition.{Pool}
use sidestr_rs.Pool.View.{PoolView, check}
use sidestr_rs.Pool.Rule.{check_from, apply_effect}
use sidestr_rs.Markets.State.{MarketView}
use sidestr_rs.Overlays.Sequence.{
  Views, Dropped, by_assets, by_pool, map_error, pools_after, markets_after, sequence_step,
  sequence_from, sequence,
}
use sidestr_rs.Overlays.Partition.{Rising, sequence_from-Rising}

-- The transactions at rising positions, where the list begins at position `i`.
abbrev pub picked : ℕ → List ℕ → List Transaction → List Transaction
picked i [] txs = []
picked i (k ∷ ks) [] = []
picked i (k ∷ ks) (tx ∷ txs) =
    if k == i then tx ∷ picked (suc i) ks txs else picked (suc i) (k ∷ ks) txs

picked-skip :
    (i : ℕ) (ks : List ℕ) (tx : Transaction) (txs : List Transaction)
    → Rising (suc i) ks
    → picked i ks (tx ∷ txs) ≡ picked (suc i) ks txs
picked-skip i [] tx txs h = refl
picked-skip i (k ∷ ks) tx txs h = ground arith

picked-take :
    (i : ℕ) (ks : List ℕ) (tx : Transaction) (txs : List Transaction)
    → picked i (i ∷ ks) (tx ∷ txs) ≡ tx ∷ picked (suc i) ks txs
picked-take i ks tx txs = ground arith

map_error-eq-ok :
    {A E : Type 0} (f : E → Dropped) (r : Result E A) {a : A} → map_error f r ≡ ok a → r ≡ ok a
map_error-eq-ok f (ok a) h = ground arith
map_error-eq-ok f (err e) h = cc

module _ (btc : Bitcoin) (policy : MintPolicy) (height from : ℕ)
    (script_of : OutPoint → Option Bytes) where
  abbrev trace_for : Views → Transaction → Map ℕ Carry → AssetTrace
  trace_for v tx out = record { inputs = trace_inputs v.assets tx.input []; outputs = out }

  -- What a kept transaction has passed.
  abbrev Kept : Views → Transaction → Views → Type 0
  Kept v tx v' =
      (out : Map ℕ Carry) × ((check_inner btc v.assets policy tx []).1 ≡ ok out)
      × (pools_after btc policy height from script_of v.pools tx (trace_for v tx out) ≡ ok v'.pools)
      × (v'.assets ≡ (apply_transactions btc height policy v.assets (tx ∷ [])).0)

  sequence_step-Kept :
      (v v' : Views) (tx : Transaction)
      → sequence_step btc policy height from script_of v tx ≡ ok v'
      → Kept v tx v'
  unfolding sequence_step
  sequence_step-Kept v v' tx e =
      let (out, checked, e1) =
        >>=-eq-ok (map_error by_assets (check_inner btc v.assets policy tx []).1) _ e in
      let trace : AssetTrace = trace_for v tx out in
      let (pools, pooled, e2) =
        >>=-eq-ok (pools_after btc policy height from script_of v.pools tx trace) _ e1 in
      let (markets, marketed, e3) =
        >>=-eq-ok (markets_after btc policy height from script_of v.created v.markets tx trace) _
          e2 in
      (
        out,
        map_error-eq-ok by_assets (check_inner btc v.assets policy tx []).1 checked,
        ground arith,
        ground arith,
      )

  -- The assets rule's outcome of a transaction that passed `check_inner`.
  settle-Unbroken :
      (v : AssetView) (tx : Transaction) (r : Carry × Result AssetError (Map ℕ Carry))
      {out : Map ℕ Carry}
      → r.1 ≡ ok out
      → ((settle btc height policy v tx r).1.error ≡ none)
        × ((settle btc height policy v tx r).1.carried_out ≡ out)
  settle-Unbroken v tx (c, ok out) e = ground arith
  settle-Unbroken v tx (c, err x) e = cc

  -- One kept transaction, as the two rules read it at a position behind the coinbase.
  Kept-candidate :
      (v v' : Views) (tx : Transaction) (j : ℕ) (rest : List Transaction)
      {r : AssetView × List AssetTrace}
      → (k : Kept v tx v') → btc.is_coinbase tx ≡ false
      → candidate_from btc policy height (suc (suc j)) v'.assets rest ≡ ok r
      → candidate_from btc policy height (suc j) v.assets (tx ∷ rest)
        ≡ ok (r.0, trace_for v tx k.0 ∷ r.1)
  Kept-candidate v v' tx j rest {r} (out, checked, pooled, left) plain e =
      let step = apply_transaction btc height policy v.assets tx in
      let outcome : (step.1.error ≡ none) × (step.1.carried_out ≡ out) =
        unfold apply_transaction in
        settle-Unbroken v.assets tx (check_inner btc v.assets policy tx []) checked in
      let view : v'.assets ≡ step.0 =
        left ∙ ap (λ w. w.0) (single-other btc policy height v.assets tx plain) in
      let e' : candidate_from btc policy height (suc (suc j)) step.0 rest ≡ ok r = rw view at e in
      candidate_from-other btc policy height (suc j) v.assets tx rest (ground arith) plain
      ∙ rw (outcome.0, judged, e', outcome.1) refl

  Kept-pools :
      (v v' : Views) (tx : Transaction) (pv : PoolView)
      → (k : Kept v tx v') → v.pools ≡ some pv
      → (effect : Option Pool) × (check btc pv tx (trace_for v tx k.0) height false ≡ ok effect)
        × (v'.pools ≡ some (apply_effect pv effect))
  Kept-pools v v' tx pv (out, checked, pooled, left) h =
      let trace : AssetTrace = trace_for v tx out in
      let pooled' : pools_after btc policy height from script_of (some pv) tx trace ≡ ok v'.pools =
        rw h at pooled in
      let (effect, fine, e) =
        >>=-eq-ok (map_error by_pool (check btc pv tx trace height false)) _ pooled' in
      (effect, map_error-eq-ok by_pool (check btc pv tx trace height false) fine, ground arith)

  -- Both rules accept the list behind a coinbase, and end in the views that the producer reached.
  abbrev pub BothAccept : ℕ → AssetView → PoolView → List Transaction → Views → Type 0
  BothAccept j assets pv txs final =
      (traces : List AssetTrace) × (pv' : PoolView) × (candidate_from btc policy height (suc j)
          assets txs
        ≡ ok (final.assets, traces))
      × (check_from btc height (suc j) pv txs traces ≡ ok pv')
      × (final.pools ≡ some pv')

  -- No transaction is shaped as a coinbase.
  abbrev pub NoCoinbase : List Transaction → Type 0
  NoCoinbase = All λ tx. btc.is_coinbase tx ≡ false

  check_from-kept :
      (j : ℕ) (pv : PoolView) (effect : Option Pool) (tx : Transaction) (trace : AssetTrace)
      (rest : List Transaction) (traces : List AssetTrace) {pv' : PoolView}
      → check btc pv tx trace height false ≡ ok effect
      → check_from btc height (suc (suc j)) (apply_effect pv effect) rest traces ≡ ok pv'
      → check_from btc height (suc j) pv (tx ∷ rest) (trace ∷ traces) ≡ ok pv'
  unfolding check_from
  check_from-kept j pv effect tx trace rest traces checked p =
      let behind : (suc j == 0) ≡ false = ground arith in rw behind (rw checked p)

  sequence_from-BothAccept :
      (i j : ℕ) (v : Views) (pv : PoolView) (txs : List Transaction)
      → NoCoinbase txs
      → v.pools ≡ some pv
      → let s = sequence_from btc policy height from script_of i v txs in
        BothAccept j v.assets pv (picked i s.kept txs) s.views
  unfolding sequence_from candidate_from check_from
  sequence_from-BothAccept i j v pv [] n h = ([], pv, refl, refl, h)
  sequence_from-BothAccept i j v pv (tx ∷ txs) n h =
      elim (Result-cases (sequence_step btc policy height from script_of v tx)) [
        | inl (v', kept) ↦
            let k = sequence_step-Kept v v' tx kept in
            let (effect, checked, pools) = Kept-pools v v' tx pv k h in
            let (traces, pv', c, p, f) =
              sequence_from-BothAccept (suc i) (suc j) v' (apply_effect pv effect) txs n.1 pools in
            rw (kept, sequence_from)
              (rw (picked-take i _ tx txs) (
                trace_for v tx k.0 ∷ traces,
                pv',
                Kept-candidate v v' tx j _ k n.0 c,
                check_from-kept j pv effect tx (trace_for v tx k.0) _ traces checked p,
                f,
              ))
        | inr (why, dropped) ↦
            let rest = sequence_from-BothAccept (suc i) j v pv txs n.1 h in
            rw (dropped, sequence_from)
              (rw
                (picked-skip i _ tx txs
                  (sequence_from-Rising btc policy height from script_of (suc i) v txs))
                rest)
      ]

  -- What is kept of a mempool with no coinbase in it, in its order, is a block body that the assets
  -- rule and the pool rule accept behind a coinbase, and both end in the producer's last views.
  pub sequence-BothAccept :
      (assets : AssetView) (pv : PoolView) (markets : Option MarketView) (txs : List Transaction)
      → NoCoinbase txs
      → let s = sequence btc policy height from script_of assets (some pv) markets txs in
        BothAccept 0 assets pv (picked 0 s.kept txs) s.views
  unfolding sequence
  sequence-BothAccept assets pv markets txs n =
      sequence_from-BothAccept 0 0
        (record { assets = assets; pools = some pv; markets = markets; created = [] }) pv txs n refl
