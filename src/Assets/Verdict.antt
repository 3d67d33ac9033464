-- ===== src/Assets/Verdict.antt =====
-- When the assets rule accepts a block (`AssetsRule::candidate` of sidestr-core/src/assets.rs),
-- compared with the view's own reading of the block (`apply_transactions_inner`).
use sidestr_rs.Base.{
  ℕ, suc, ◌≡◌, refl, sym, ◌∙◌, inl, inr, true, false, ◌&&◌, some, List, [], ◌∷◌, ◌==◌, first,
  length, is_empty, ◌++◌, arith, Bool-cases, ok, err, >>=-eq-ok,
}
use sidestr_rs.Bitcoin.{Bitcoin, Transaction}
use sidestr_rs.Assets.Carry.{AssetView}
use sidestr_rs.Assets.Check.{MintPolicy}
use sidestr_rs.Assets.View.{apply_transaction, apply_from, apply_transactions}
use sidestr_rs.Assets.Rule.{
  AssetTrace, panicked, judged, candidate, candidate_from, coinbase_clean, trace_inputs,
}
use sidestr_rs.Assets.Blocks.{
  Unbroken, CoinbaseFirst, trace_of, candidate_from-coinbase, candidate_from-panic,
  candidate_from-other, judged-ok,
}

module _ (btc : Bitcoin) (policy : MintPolicy) (height : ℕ) where
  -- What an accepted block is: nothing broken, no stray coinbase, and the view that it leaves is
  -- the view that reading it leaves, with one trace to each transaction.
  abbrev pub Accepted : ℕ → AssetView → List Transaction → AssetView × List AssetTrace → Type 0
  Accepted i view txs (next, traces) =
      (next ≡ (apply_from btc height policy i view txs).0)
      × Unbroken btc policy height (apply_from btc height policy i view txs).1
      × CoinbaseFirst btc policy height i txs
      × (length traces ≡ length txs)

  candidate_from-Accepted :
      (i : ℕ) (view : AssetView) (txs : List Transaction) (r : AssetView × List AssetTrace)
      → candidate_from btc policy height i view txs ≡ ok r
      → Accepted i view txs r
  unfolding candidate_from apply_from
  candidate_from-Accepted i view [] r e = ground arith
  candidate_from-Accepted i view (tx ∷ txs) r e =
      elim (Bool-cases ((i == 0) && btc.is_coinbase tx)) [
        | inl skipped ↦
            let (r', rest, e') =
              >>=-eq-ok (candidate_from btc policy height (suc i) view txs) _
                (sym (candidate_from-coinbase btc policy height i view tx txs skipped) ∙ e) in
            ground (arith, candidate_from-Accepted (suc i) view txs r' rest)
        | inr kept ↦ elim (Bool-cases (btc.is_coinbase tx)) [
          | inl stray ↦
              cc (sym (candidate_from-panic btc policy height i view tx txs kept stray) ∙ e)
          | inr plain ↦
              let step = apply_transaction btc height policy view tx in
              let (o, fine, e') =
                >>=-eq-ok (judged btc policy height (some step.1)) _
                  (sym (candidate_from-other btc policy height i view tx txs kept plain) ∙ e) in
              let (r', rest, e'') =
                >>=-eq-ok (candidate_from btc policy height (suc i) step.0 txs) _ e' in
              ground (
                arith,
                judged-ok btc policy height step.1 o fine,
                candidate_from-Accepted (suc i) step.0 txs r' rest,
              )
        ]
      ]

  candidate_from_complete :
      (i : ℕ) (view : AssetView) (txs : List Transaction)
      → CoinbaseFirst btc policy height i txs
      → Unbroken btc policy height (apply_from btc height policy i view txs).1
      → (traces : List AssetTrace) × (candidate_from btc policy height i view txs
          ≡ ok ((apply_from btc height policy i view txs).0, traces))
  unfolding candidate_from apply_from
  candidate_from_complete i view [] c u = ([], refl)
  candidate_from_complete i view (tx ∷ txs) c u =
      elim (Bool-cases ((i == 0) && btc.is_coinbase tx)) [
        | inl skipped ↦
            let (traces, rest) =
              candidate_from_complete (suc i) view txs c.1 (rw (skipped, apply_from) at u) in
            (
              record { inputs = trace_inputs view tx.input []; outputs = [] } ∷ traces,
              candidate_from-coinbase btc policy height i view tx txs skipped
                  ∙ rw (rest, skipped, apply_from) refl,
            )
        | inr kept ↦
            let step = apply_transaction btc height policy view tx in
            let u' : Unbroken btc policy height
                (step.1 ∷ (apply_from btc height policy (suc i) step.0 txs).1) =
              rw (kept, apply_from) at u in
            let plain : btc.is_coinbase tx ≡ false = ground (arith, c.0) in
            let (traces, rest) = candidate_from_complete (suc i) step.0 txs c.1 u'.1 in
            (
              trace_of btc policy height view tx step.1 ∷ traces,
              candidate_from-other btc policy height i view tx txs kept plain
                  ∙ rw (u'.0, judged, rest, kept, apply_from) refl,
            )
      ]

  -- A coinbase-shaped transaction behind a good prefix.
  candidate_from-stray :
      (i : ℕ) (view : AssetView) (txs : List Transaction) (tx : Transaction)
      (post : List Transaction) (r : AssetView × List AssetTrace)
      → candidate_from btc policy height i view txs ≡ ok r
      → ((i == 0) && is_empty txs) ≡ false
      → btc.is_coinbase tx ≡ true
      → candidate_from btc policy height i view (txs ++ tx ∷ post) ≡ err panicked
  candidate_from-stray i view [] tx post r e h c =
      candidate_from-panic btc policy height i view tx post (ground arith) c
  candidate_from-stray i view (x ∷ txs) tx post r e h c =
      elim (Bool-cases ((i == 0) && btc.is_coinbase x)) [
        | inl skipped ↦
            let (r', rest, _) =
              >>=-eq-ok (candidate_from btc policy height (suc i) view txs) _
                (sym (candidate_from-coinbase btc policy height i view x txs skipped) ∙ e) in
            candidate_from-coinbase btc policy height i view x (txs ++ tx ∷ post) skipped
            ∙ rw (candidate_from-stray (suc i) view txs tx post r' rest (ground arith) c) refl
        | inr kept ↦ elim (Bool-cases (btc.is_coinbase x)) [
          | inl stray ↦
              candidate_from-panic btc policy height i view x (txs ++ tx ∷ post) kept stray
          | inr plain ↦
              let step = apply_transaction btc height policy view x in
              let (o, fine, e') =
                >>=-eq-ok (judged btc policy height (some step.1)) _
                  (sym (candidate_from-other btc policy height i view x txs kept plain) ∙ e) in
              let (r', rest, _) =
                >>=-eq-ok (candidate_from btc policy height (suc i) step.0 txs) _ e' in
              candidate_from-other btc policy height i view x (txs ++ tx ∷ post) kept plain
              ∙ rw (fine, candidate_from-stray (suc i) step.0 txs tx post r' rest (ground arith) c)
                  refl
        ]
      ]

  -- A block that the assets rule accepts has no broken transaction and no coinbase behind the
  -- first transaction, leaves the view that reading it leaves, and has a trace for each transaction.
  pub candidate-Accepted :
      (view : AssetView) (txs : List Transaction) (r : AssetView × List AssetTrace)
      → candidate btc policy height view txs ≡ ok r
      → Accepted 0 view txs r
  unfolding candidate
  candidate-Accepted view txs r e =
      let (_, _, e') = >>=-eq-ok (coinbase_clean btc policy height (first txs)) _ e in
      candidate_from-Accepted 0 view txs r e'

  -- Conversely it accepts a block whose first transaction has no records, with no coinbase behind
  -- that, of which the view reads no transaction as broken; and it leaves the view's reading.
  pub candidate_complete :
      (view : AssetView) (txs : List Transaction)
      → coinbase_clean btc policy height (first txs) ≡ ok tt
      → CoinbaseFirst btc policy height 0 txs
      → Unbroken btc policy height (apply_transactions btc height policy view txs).1
      → (traces : List AssetTrace) × (candidate btc policy height view txs
          ≡ ok ((apply_transactions btc height policy view txs).0, traces))
  unfolding candidate apply_transactions
  candidate_complete view txs clean c u =
      let (traces, e) = candidate_from_complete 0 view txs c u in (traces, rw clean e)

  -- A block that is good up to some transaction behind the first which is shaped as a coinbase
  -- makes the rule panic: it is not refused.
  pub candidate-stray_coinbase :
      (view : AssetView) (cb : Transaction) (txs : List Transaction) (tx : Transaction)
      (post : List Transaction) (r : AssetView × List AssetTrace)
      → candidate btc policy height view (cb ∷ txs) ≡ ok r
      → btc.is_coinbase tx ≡ true
      → candidate btc policy height view (cb ∷ txs ++ tx ∷ post) ≡ err panicked
  unfolding candidate
  candidate-stray_coinbase view cb txs tx post r e c =
      let (_, clean, e') = >>=-eq-ok (coinbase_clean btc policy height (some cb)) _ e in
      rw clean (candidate_from-stray 0 view (cb ∷ txs) tx post r e' refl c)
