-- ===== src/Tests/Rules.antt =====
-- The transaction rules and the UTXO set on concrete blocks.
use sidestr_rs.Base.{none, ◌+◌, ◌≤◌, ◌≡◌, refl, false, [], ◌∷◌, length}
use sidestr_rs.Base.Map.{insert}
use sidestr_rs.Bitcoin.{Transaction}
use sidestr_rs.Assets.Supply.{DistinctInputs, total}
use sidestr_rs.Assets.Carry.{AssetView}
use sidestr_rs.Assets.View.{apply_transactions}
use sidestr_rs.Assets.Spent.{resolve_spending-total}
use sidestr_rs.Rules.Verdict.{default_params}
use sidestr_rs.Rules.Transaction.{null, validate_transaction}
use sidestr_rs.Rules.Utxo.{Utxo, apply_block}
use sidestr_rs.Rules.Spending.{resolve_spending}
use sidestr_rs.Rules.Reads.{total_value, outputs_value}
use sidestr_rs.Rules.Inputs.{validate_transaction-DistinctInputs}
use sidestr_rs.Rules.Distinct.{block_inputs, resolve_spending-DistinctInputs}
use sidestr_rs.Rules.Value.{apply_block-total_value}
use sidestr_rs.Tests.Chain.{btc, op, coin, spend, tx_of, coinbase, send_tx}

abbrev coins : Utxo
coins = (op 1 0, record { output = coin 100; height = 3; coinbase = false }) ∷ []

-- It pays 90 of 100 sats, and the next one spends its output.
abbrev payment : Transaction
payment = tx_of 2 (spend (op 1 0) ∷ []) (coin 60 ∷ coin 30 ∷ [])

abbrev onward : Transaction
onward = tx_of 3 (spend (op 2 1) ∷ []) (coin 25 ∷ [])

resolved_fees :
    (resolve_spending btc default_params 5 coins (coinbase ∷ payment ∷ onward ∷ [])).fees ≡ 15
unfolding resolve_spending insert
resolved_fees = refl

missing_again :
    (resolve_spending btc default_params 5 coins (coinbase ∷ payment ∷ payment ∷ [])).missing
    ≡ op 1 0 ∷ []
unfolding resolve_spending insert
missing_again = refl

apply_block-total_value_example :
    total_value (apply_block btc 5 coins (coinbase ∷ payment ∷ onward ∷ [])).utxo
      + (resolve_spending btc default_params 5 coins (coinbase ∷ payment ∷ onward ∷ [])).fees
    ≤ 150
unfolding resolve_spending insert
apply_block-total_value_example =
    apply_block-total_value btc default_params 5 coins coinbase (payment ∷ onward ∷ []) refl refl

validate_transaction-DistinctInputs_example :
    DistinctInputs payment.input
    × (1 ≤ length payment.input)
    × (outputs_value payment.output ≤ default_params.max_money)
unfolding validate_transaction insert
validate_transaction-DistinctInputs_example =
    validate_transaction-DistinctInputs (λ tx. 400) default_params payment false refl

resolve_spending-DistinctInputs_example : DistinctInputs (block_inputs (payment ∷ onward ∷ []))
unfolding resolve_spending insert
resolve_spending-DistinctInputs_example =
    resolve_spending-DistinctInputs btc default_params 5 coins coinbase (payment ∷ onward ∷ []) refl

abbrev mined : Transaction
mined = record coinbase { input = spend null ∷ [] }

abbrev carrying : AssetView
carrying = record { carried = (op 1 0, (1, 1000) ∷ []) ∷ []; issued = [] }

resolve_spending-total_example :
    total 1 (apply_transactions btc 5 none carrying (mined ∷ send_tx ∷ [])).0.carried ≤ 1000
unfolding resolve_spending insert
resolve_spending-total_example =
    resolve_spending-total 1 btc none 5 default_params coins carrying mined (send_tx ∷ []) refl refl
      (refl, (refl, tt))
