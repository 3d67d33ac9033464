-- ===== src/Assets/View.antt =====
-- `AssetView::apply_transactions_inner` of sidestr-core/src/assets.rs: a block's transactions, in
-- order, as the view reads them.
use sidestr_rs.Base.{
  ℕ, suc, ◌%◌, ◌^◌, true, false, ◌&&◌, Option, none, some, List, [], ◌∷◌, ◌==◌, first, Result, ok,
  err,
}
use sidestr_rs.Base.Map.{Map, insert, remove, sum_values, nat_ord}
use sidestr_rs.Bitcoin.{Bitcoin, Transaction, TxIn, OutPoint, outpoint_ord}
use sidestr_rs.Records.Grammar.{Issue}
use sidestr_rs.Records.Classify.{classify}
use sidestr_rs.Assets.Carry.{Carry, AssetView, Issued, carry_of}
use sidestr_rs.Assets.Check.{AssetError, MintPolicy, check_inner}

pub record Outcome : Type 0 where
  pub txid : ℕ
  pub error : Option AssetError
  pub carried_in : Carry
  pub carried_out : Map ℕ Carry

unfoldable pub remove_inputs : List TxIn → Map OutPoint Carry → Map OutPoint Carry
remove_inputs [] carried = carried
remove_inputs (i ∷ is) carried = remove_inputs is (remove i.previous_output carried)

unfoldable pub insert_outputs : ℕ → Map ℕ Carry → Map OutPoint Carry → Map OutPoint Carry
insert_outputs txid [] carried = carried
insert_outputs txid ((v, c) ∷ out) carried =
    insert_outputs txid out (insert (record { txid = txid; vout = v }) c carried)

-- The supply is a `u64` sum.
abbrev pub supply_of : ℕ → Map ℕ Carry → ℕ
supply_of txid out = sum_values (carry_of txid) out % 2 ^ 64

abbrev pub record_issue : ℕ → ℕ → Map ℕ Carry → Option (ℕ × Issue) → Map ℕ Issued → Map ℕ Issued
record_issue txid height out none issued = issued
record_issue txid height out (some (v, issue)) issued =
    insert txid
      (record {
        ticker = issue.ticker;
        decimals = issue.decimals;
        height = height;
        supply = supply_of txid out;
        market = none;
      })
      issued

module _ (btc : Bitcoin) (height : ℕ) (policy : MintPolicy) where
  -- What a checked transaction leaves: broken, its outputs carry nothing.
  abbrev pub settle :
      AssetView → Transaction → Carry × Result AssetError (Map ℕ Carry) → AssetView × Outcome
  settle view tx (carried_in, ok out) = (
    record {
      carried = insert_outputs (btc.compute_txid tx) out (remove_inputs tx.input view.carried);
      issued =
          record_issue (btc.compute_txid tx) height out (first (classify btc tx).issues)
            view.issued;
    },
    record { txid = btc.compute_txid tx; error = none; carried_in = carried_in; carried_out = out },
  )
  settle view tx (carried_in, err e) = (
    record view { carried = remove_inputs tx.input view.carried },
    record {
      txid = btc.compute_txid tx;
      error = some e;
      carried_in = carried_in;
      carried_out = [];
    },
  )

  -- The body of the loop, for a transaction that is not skipped.
  unfoldable pub apply_transaction : AssetView → Transaction → AssetView × Outcome
  unfolding remove_inputs insert_outputs check_inner
  apply_transaction view tx = settle view tx (check_inner btc view policy tx [])

  abbrev with_outcome : Outcome → AssetView × List Outcome → AssetView × List Outcome
  with_outcome o (view, os) = (view, o ∷ os)

  -- `i` is the transaction's position: a coinbase is skipped at 0 only.
  unfoldable pub apply_from : ℕ → AssetView → List Transaction → AssetView × List Outcome
  unfolding apply_transaction
  apply_from i view [] = (view, [])
  apply_from i view (tx ∷ txs) = elim ((i == 0) && btc.is_coinbase tx) [
    | true ↦ apply_from (suc i) view txs
    | false ↦
        let step = apply_transaction view tx in with_outcome step.1 (apply_from (suc i) step.0 txs)
  ]

  unfoldable pub apply_transactions : AssetView → List Transaction → AssetView × List Outcome
  unfolding apply_from
  apply_transactions view txs = apply_from 0 view txs
