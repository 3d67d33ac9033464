-- ===== src/Rules/Inputs.antt =====
-- Distinct inputs: `btc:rule-tx-inputs-unique` of `validate_transaction` in
-- sidestr-core/src/rules.rs, which counts a set.
use sidestr_rs.Base.{
  ℕ, suc, ◌≤◌, ◌≡◌, refl, inl, inr, Bool, true, false, not, Option, none, some, List, [], ◌∷◌,
  if◌then◌else◌, length, is_empty, leb→le, arith, Bool-cases,
}
use sidestr_rs.Base.Map.{Map, Ord, insert, contains_key, lookup-insert}
use sidestr_rs.Bitcoin.{OutPoint, TxIn, Transaction, outpoint_ord}
use sidestr_rs.Assets.Supply.{NotSpent, DistinctInputs}
use sidestr_rs.Rules.Verdict.{Params, passes}
use sidestr_rs.Rules.Transaction.{collect_set, at_most, sum_from, sum_out, validate_transaction}
use sidestr_rs.Rules.Reads.{outputs_value, sum_from-outputs_value}

nonempty-length : (is : List TxIn) → not (is_empty is) ≡ true → 1 ≤ length is
nonempty-length [] h = cc
nonempty-length (i ∷ is) h = omega arith

-- A set grows by an element that is not in it, and only by such.
length-insert {ℓ κ} :
    {K : Type ℓ} {V : Type κ} ⦃o : Ord K⦄ (k : K) (v : V) (m : Map K V)
    → length (insert k v m) ≡ (if contains_key k m then length m else suc (length m))
unfolding insert
length-insert k v [] = refl
length-insert ⦃o⦄ k v ((j, w) ∷ m) = ground (arith, length-insert k v m)

length-collect_set : (is : List TxIn) → length (collect_set is) ≤ length is
length-collect_set [] = omega arith
length-collect_set (i ∷ is) =
    ground (arith, length-insert i.previous_output tt (collect_set is), length-collect_set is)

collect_set-NotSpent :
    (k : OutPoint) (is : List TxIn) → contains_key k (collect_set is) ≡ false → NotSpent k is
collect_set-NotSpent k [] h = tt
collect_set-NotSpent k (i ∷ is) h =
    let at_head = lookup-insert i.previous_output k tt (collect_set is) in
    elim (Bool-cases (outpoint_ord.eqb i.previous_output k)) [
      | inl hit ↦ cc (rw (contains_key, at_head, hit) at h)
      | inr miss ↦
          (ground (arith, miss), collect_set-NotSpent k is (rw (contains_key, at_head, miss) at h))
    ]

collect_set-DistinctInputs :
    (is : List TxIn) → length (collect_set is) ≡ length is → DistinctInputs is
collect_set-DistinctInputs [] h = tt
collect_set-DistinctInputs (i ∷ is) h =
    elim (Bool-cases (contains_key i.previous_output (collect_set is))) [
      | inl again ↦
          ground (
            arith,
            again,
            length-insert i.previous_output tt (collect_set is),
            length-collect_set is,
          )
      | inr new ↦
          let size = length-insert i.previous_output tt (collect_set is) in
          (
            collect_set-NotSpent i.previous_output is new,
            collect_set-DistinctInputs is (ground (arith, new, size)),
          )
    ]

at_most-some :
    (bound : ℕ) (o : Option ℕ) → at_most bound o ≡ true → (t : ℕ) × (o ≡ some t) × (t ≤ bound)
at_most-some bound none h = cc
at_most-some bound (some t) h = (t, refl, leb→le t bound h)

-- A transaction that passes the transaction rules spends distinct inputs, at least one, and its
-- outputs sum to at most the largest sum of money.
pub validate_transaction-DistinctInputs :
    (weight : Transaction → ℕ) (params : Params) (tx : Transaction) (coinbase : Bool)
    → passes (validate_transaction weight params tx coinbase) ≡ true
    → DistinctInputs tx.input × (1 ≤ length tx.input) × (outputs_value tx.output ≤ params.max_money)
unfolding validate_transaction sum_out
validate_transaction-DistinctInputs weight params tx coinbase h =
    let some_input : not (is_empty tx.input) ≡ true = ground (arith, h) in
    let unique : length (collect_set tx.input) ≡ length tx.input = ground (arith, h) in
    let bounded : at_most params.max_money (sum_from 0 tx.output) ≡ true = ground (arith, h) in
    let (t, e, le) = at_most-some params.max_money (sum_from 0 tx.output) bounded in
    (
      collect_set-DistinctInputs tx.input unique,
      nonempty-length tx.input some_input,
      omega (arith, le, sum_from-outputs_value 0 tx.output e),
    )
