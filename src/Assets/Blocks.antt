-- ===== src/Assets/Blocks.antt =====
-- Whole blocks under the assets rule (sidestr-core/src/assets.rs): the consensus rule against the
-- view's reading of the same block, and what a block leaves of an asset.
use sidestr_rs.Base.{
  ℕ, suc, ◌≤◌, ◌≡◌, refl, inl, inr, true, false, ◌&&◌, none, some, List, [], ◌∷◌, ◌==◌, All, arith,
  Option-cases, ok, err, ◌>>=◌,
}
use sidestr_rs.Bitcoin.{Bitcoin, Transaction}
use sidestr_rs.Records.Classify.{classify}
use sidestr_rs.Assets.Carry.{AssetView}
use sidestr_rs.Assets.Check.{MintPolicy}
use sidestr_rs.Assets.View.{Outcome, apply_transaction, apply_from, apply_transactions}
use sidestr_rs.Assets.Rule.{AssetTrace, panicked, judged, candidate_from, trace_inputs}
use sidestr_rs.Assets.Supply.{total, DistinctInputs}
use sidestr_rs.Assets.Conservation.{mints, apply_transaction-total}

module _ (btc : Bitcoin) (policy : MintPolicy) (height : ℕ) where
  -- Each transaction spends distinct inputs and does not mint the asset.
  abbrev pub NoMint : ℕ → List Transaction → Type 0
  NoMint asset = All λ tx.
      DistinctInputs tx.input × (mints asset policy (btc.compute_txid tx) (classify btc tx) ≡ false)

  apply_from-total :
      (asset i : ℕ) (view : AssetView) (txs : List Transaction)
      → NoMint asset txs
      → total asset (apply_from btc height policy i view txs).0.carried ≤ total asset view.carried
  unfolding apply_from
  apply_from-total asset i view [] h = omega arith
  apply_from-total asset i view (tx ∷ txs) h = ground (
    arith,
    apply_from-total asset (suc i) view txs h.1,
    apply_from-total asset (suc i) (apply_transaction btc height policy view tx).0 txs h.1,
    apply_transaction-total asset btc policy height view tx h.0.0 h.0.1,
  )

  -- However a list of transactions is read, broken ones among them, an asset that none of them
  -- mints does not grow, if each spends distinct inputs.
  pub apply_transactions-total :
      (asset : ℕ) (view : AssetView) (txs : List Transaction)
      → NoMint asset txs
      → total asset (apply_transactions btc height policy view txs).0.carried
        ≤ total asset view.carried
  unfolding apply_transactions
  apply_transactions-total asset view txs h = apply_from-total asset 0 view txs h

  -- No transaction of the block is read as broken.
  abbrev pub Unbroken : List Outcome → Type 0
  Unbroken = All λ o. o.error ≡ none

  -- A transaction shaped as a coinbase stands at the head of the block at most.
  abbrev pub CoinbaseFirst : ℕ → List Transaction → Type 0
  CoinbaseFirst i [] = Unit {0}
  CoinbaseFirst i (tx ∷ txs) =
      ((i == 0) ≡ false → btc.is_coinbase tx ≡ false) × CoinbaseFirst (suc i) txs

  -- One transaction in a slice of its own, which is how `candidate` reads it.
  pub single-coinbase :
      (view : AssetView) (tx : Transaction)
      → btc.is_coinbase tx ≡ true
      → apply_transactions btc height policy view (tx ∷ []) ≡ (view, [])
  unfolding apply_transactions
  single-coinbase view tx h = rw (h, apply_from) refl

  pub single-other :
      (view : AssetView) (tx : Transaction)
      → btc.is_coinbase tx ≡ false
      → apply_transactions btc height policy view (tx ∷ []) ≡ (
        (apply_transaction btc height policy view tx).0,
        (apply_transaction btc height policy view tx).1 ∷ [],
      )
  unfolding apply_transactions
  single-other view tx h = rw (h, apply_from) refl

  -- The loop of `candidate`, one equation for each way that it goes.
  abbrev pub with_trace : AssetTrace → AssetView × List AssetTrace → AssetView × List AssetTrace
  with_trace t r = (r.0, t ∷ r.1)

  abbrev pub trace_of : AssetView → Transaction → Outcome → AssetTrace
  trace_of view tx o = record { inputs = trace_inputs view tx.input []; outputs = o.carried_out }

  pub candidate_from-coinbase :
      (i : ℕ) (view : AssetView) (tx : Transaction) (txs : List Transaction)
      → ((i == 0) && btc.is_coinbase tx) ≡ true
      → candidate_from btc policy height i view (tx ∷ txs) ≡ (
          candidate_from btc policy height (suc i) view txs >>= λ r.
          ok (with_trace (record { inputs = trace_inputs view tx.input []; outputs = [] }) r))
  unfolding candidate_from
  candidate_from-coinbase i view tx txs h = rw (h, candidate_from) refl

  pub candidate_from-panic :
      (i : ℕ) (view : AssetView) (tx : Transaction) (txs : List Transaction)
      → ((i == 0) && btc.is_coinbase tx) ≡ false
      → btc.is_coinbase tx ≡ true
      → candidate_from btc policy height i view (tx ∷ txs) ≡ err panicked
  unfolding candidate_from
  candidate_from-panic i view tx txs h c =
      rw (h, candidate_from) (rw (single-coinbase view tx c) refl)

  pub candidate_from-other :
      (i : ℕ) (view : AssetView) (tx : Transaction) (txs : List Transaction)
      → ((i == 0) && btc.is_coinbase tx) ≡ false
      → btc.is_coinbase tx ≡ false
      → candidate_from btc policy height i view (tx ∷ txs) ≡ (
          judged btc policy height (some (apply_transaction btc height policy view tx).1) >>= λ o.
          candidate_from btc policy height
            (suc i)
            (apply_transaction btc height policy view tx).0
            txs
          >>= λ r. ok (with_trace (trace_of view tx o) r))
  unfolding candidate_from
  candidate_from-other i view tx txs h c = rw (h, candidate_from) (rw (single-other view tx c) refl)

  pub judged-ok :
      (o o' : Outcome) → judged btc policy height (some o) ≡ ok o' → (o.error ≡ none) × (o' ≡ o)
  judged-ok o o' e = elim (Option-cases o.error) [
    | inl clean ↦ (clean, ground arith)
    | inr (x, bad) ↦ ground arith
  ]
