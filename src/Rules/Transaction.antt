-- ===== src/Rules/Transaction.antt =====
-- `is_coinbase`, `sum_out` and `validate_transaction` of sidestr-core/src/rules.rs.
use sidestr_rs.Base.{
  ℕ, Bool, false, ◌&&◌, not, Option, none, some, List, [], ◌∷◌, length, all, is_empty, first, leb,
  ◌==◌, if◌then◌else◌, u32_max, u64_max, checked_add,
}
use sidestr_rs.Base.Map.{Map, insert}
use sidestr_rs.Bitcoin.{OutPoint, TxIn, TxOut, Transaction, outpoint_ord}
use sidestr_rs.Rules.Verdict.{Params, Verdict, new}

-- `OutPoint::null()`
abbrev pub null : OutPoint
null = record { txid = 0; vout = u32_max }

abbrev pub one_null : List TxIn → Bool
one_null (i ∷ []) = outpoint_ord.eqb i.previous_output null
one_null [] = false
one_null (i ∷ j ∷ is) = false

abbrev pub is_coinbase : Transaction → Bool
is_coinbase tx = one_null tx.input

-- `try_fold` from `s` on.
abbrev pub sum_from : ℕ → List TxOut → Option ℕ
sum_from s [] = some s
sum_from s (o ∷ os) = elim (checked_add u64_max s o.value) [ none ↦ none | some t ↦ sum_from t os ]

unfoldable pub sum_out : Transaction → Option ℕ
sum_out tx = sum_from 0 tx.output

-- A sum that did not overflow and is at most `bound`.
abbrev pub at_most : ℕ → Option ℕ → Bool
at_most bound none = false
at_most bound (some s) = leb s bound

-- `collect::<HashSet<_>>()`
abbrev pub collect_set : List TxIn → Map OutPoint (Unit {0})
collect_set [] = []
collect_set (i ∷ is) = insert i.previous_output tt (collect_set is)

-- `(2..=100).contains(&i.script_sig.len())`
abbrev pub script_len_ok : Option TxIn → Bool
script_len_ok none = false
script_len_ok (some i) = leb 2 (length i.script_sig) && leb (length i.script_sig) 100

-- `weight` is `Transaction::weight` of the `bitcoin` crate in weight units.
unfoldable pub validate_transaction : (Transaction → ℕ) → Params → Transaction → Bool → Verdict
unfolding sum_out
validate_transaction weight params tx coinbase = record {
  results =
      new "btc:rule-tx-inputs-nonempty" (some (not (is_empty tx.input)))
      ∷ new "btc:rule-tx-outputs-nonempty" (some (not (is_empty tx.output)))
      ∷ new "btc:rule-tx-size" (some (leb (weight tx) params.max_block_weight))
      ∷ new "btc:rule-tx-output-values" (
          some (
            all (λ o. leb o.value params.max_money) tx.output
            && at_most params.max_money (sum_out tx)))
      ∷ new "btc:rule-tx-inputs-unique" (some (length (collect_set tx.input) == length tx.input))
      ∷ new "btc:rule-tx-prevouts" (
          some (
            if coinbase
            then is_coinbase tx
            else all (λ i. not (i.previous_output.txid == 0)) tx.input))
      ∷ new "btc:rule-tx-coinbase-script"
          (if coinbase then some (script_len_ok (first tx.input)) else none)
      ∷ [];
}
