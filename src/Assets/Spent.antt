-- ===== src/Assets/Spent.antt =====
-- The assets rule on a block that passed Bitcoin's spending rules: `resolve_spending` of
-- sidestr-core/src/rules.rs beside `apply_transactions` of sidestr-core/src/assets.rs.
use sidestr_rs.Base.{ℕ, ◌≤◌, ◌≡◌, true, false, List, [], ◌∷◌, ◌++◌, All}
use sidestr_rs.Bitcoin.{Bitcoin, OutPoint, TxIn, Transaction}
use sidestr_rs.Records.Classify.{classify}
use sidestr_rs.Assets.Carry.{AssetView}
use sidestr_rs.Assets.Check.{MintPolicy}
use sidestr_rs.Assets.View.{apply_transactions}
use sidestr_rs.Assets.Supply.{total, NotSpent, DistinctInputs}
use sidestr_rs.Assets.Conservation.{mints}
use sidestr_rs.Assets.Blocks.{NoMint, apply_transactions-total}
use sidestr_rs.Rules.Verdict.{Params}
use sidestr_rs.Rules.Transaction.{is_coinbase, one_null}
use sidestr_rs.Rules.Utxo.{Utxo}
use sidestr_rs.Rules.Spending.{resolve_spending}
use sidestr_rs.Rules.Distinct.{block_inputs, resolve_spending-DistinctInputs}

NotSpent-append : (op : OutPoint) (is js : List TxIn) → NotSpent op (is ++ js) → NotSpent op is
NotSpent-append op [] js h = tt
NotSpent-append op (i ∷ is) js h = (h.0, NotSpent-append op is js h.1)

DistinctInputs-append :
    (is js : List TxIn) → DistinctInputs (is ++ js) → DistinctInputs is × DistinctInputs js
DistinctInputs-append [] js h = (tt, h)
DistinctInputs-append (i ∷ is) js h =
    let (mine, later) = DistinctInputs-append is js h.1 in
    ((NotSpent-append i.previous_output is js h.0, mine), later)

-- A coinbase has one input.
is_coinbase-DistinctInputs : (is : List TxIn) → one_null is ≡ true → DistinctInputs is
is_coinbase-DistinctInputs [] h = tt
is_coinbase-DistinctInputs (i ∷ []) h = (tt, tt)
is_coinbase-DistinctInputs (i ∷ j ∷ is) h = cc

module _ (asset : ℕ) (btc : Bitcoin) (policy : MintPolicy) (height : ℕ) where
  -- None of the transactions issues the asset or is allowed to mint it.
  abbrev pub Unminted : List Transaction → Type 0
  Unminted = All λ tx. mints asset policy (btc.compute_txid tx) (classify btc tx) ≡ false

  block_inputs-NoMint :
      (txs : List Transaction)
      → DistinctInputs (block_inputs txs)
      → Unminted txs
      → NoMint btc policy height asset txs
  block_inputs-NoMint [] d u = tt
  block_inputs-NoMint (tx ∷ txs) d u =
      let (mine, later) = DistinctInputs-append tx.input (block_inputs txs) d in
      ((mine, u.0), block_inputs-NoMint txs later u.1)

  -- A block behind a coinbase, none of whose inputs is missing, leaves no more of an asset that none
  -- of its transactions issues or mints, however its records are read.
  pub resolve_spending-total :
      (params : Params) (utxo : Utxo) (view : AssetView) (cb : Transaction) (txs : List Transaction)
      → is_coinbase cb ≡ true
      → (resolve_spending btc params height utxo (cb ∷ txs)).missing ≡ []
      → Unminted (cb ∷ txs)
      → total asset (apply_transactions btc height policy view (cb ∷ txs)).0.carried
        ≤ total asset view.carried
  resolve_spending-total params utxo view cb txs first_is_coinbase none_missing unminted =
      let distinct = resolve_spending-DistinctInputs btc params height utxo cb txs none_missing in
      apply_transactions-total btc policy height asset view (cb ∷ txs) (
        (is_coinbase-DistinctInputs cb.input first_is_coinbase, unminted.0),
        block_inputs-NoMint txs distinct unminted.1,
      )
