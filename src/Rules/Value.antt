-- ===== src/Rules/Value.antt =====
-- The value of the UTXO set over a block (`resolve_spending` and `apply_block` of
-- sidestr-core/src/rules.rs).
use sidestr_rs.Base.{
  ℕ, suc, ◌+◌, ◌≤◌, ◌≡◌, refl, sym, ap, ◌∙◌, subst, inl, inr, Bool, true, false, Option, none, some,
  List, [], ◌∷◌, ◌==◌, leb, if◌then◌else◌, arith, Bool-cases,
}
use sidestr_rs.Bitcoin.{Bitcoin, Transaction}
use sidestr_rs.Rules.Verdict.{Params}
use sidestr_rs.Rules.Transaction.{sum_out}
use sidestr_rs.Rules.Utxo.{
  Utxo, Applying, apply_transaction, apply_from, apply_block, spend_inputs, create_coins,
}
use sidestr_rs.Rules.Spending.{
  Spending, Reading, Resolving, settle_fees, start_reading, finish_reading, read_inputs,
  resolve_inputs, resolve_transaction, resolve_from, resolve_spending,
}
use sidestr_rs.Rules.Reads.{
  total_value, outputs_value, sum_from-outputs_value, append_nonempty, Agree, Reads,
  read_inputs-Reads, read_inputs-fees, create_here-Agree, total_value-create_coins,
}

-- No deficit was there before.
settle_fees-deficits :
    (txid in_sum : ℕ) (sum : Option ℕ) (s : Spending)
    → (settle_fees txid in_sum sum s).deficits ≡ []
    → s.deficits ≡ []
settle_fees-deficits txid in_sum none s h = append_nonempty s.deficits txid h
settle_fees-deficits txid in_sum (some t) s h = elim (Bool-cases (leb t in_sum)) [
  | inl paid ↦ rw (paid, settle_fees) at h
  | inr short ↦ append_nonempty s.deficits txid (rw (short, settle_fees) at h)
]

-- The fees of a transaction are at most what came in less what goes out.
settle_fees_lem :
    (txid in_sum out : ℕ) (sum : Option ℕ) (s : Spending)
    → ((t : ℕ) → sum ≡ some t → t ≡ out)
    → (settle_fees txid in_sum sum s).deficits ≡ []
    → (settle_fees txid in_sum sum s).fees + out ≤ s.fees + in_sum
settle_fees_lem txid in_sum out none s exact h = append_nonempty s.deficits txid h
settle_fees_lem txid in_sum out (some t) s exact h = elim (Bool-cases (leb t in_sum)) [
  | inl paid ↦ let e : t ≡ out = exact t refl in rw (paid, settle_fees) (ground arith)
  | inr short ↦ append_nonempty s.deficits txid (rw (short, settle_fees) at h)
]

pub settle_fees-missing :
    (txid in_sum : ℕ) (sum : Option ℕ) (s : Spending)
    → (settle_fees txid in_sum sum s).missing ≡ s.missing
settle_fees-missing txid in_sum none s = refl
settle_fees-missing txid in_sum (some t) s = elim (Bool-cases (leb t in_sum)) [
  | inl paid ↦ rw (paid, settle_fees) refl
  | inr short ↦ rw (short, settle_fees) refl
]

module _ (btc : Bitcoin) (params : Params) (height : ℕ) (utxo : Utxo) where
  -- As long as nothing is missing or short, the fees and the set together are within the bound.
  abbrev Resolves : ℕ → Resolving → Utxo → Type 0
  Resolves bound r u =
      r.s.missing ≡ []
      → r.s.deficits ≡ []
      → Agree utxo r.created_here r.spent_here u × (total_value u + r.s.fees ≤ bound)

  -- The inputs pay for the outputs and the fees.
  finish_reading_lem :
      (bound : ℕ) (tx : Transaction) (r : Resolving) (st : Reading) (u : Utxo)
      → Reads params height utxo r.created_here bound st u
      → let r' = finish_reading (btc.compute_txid tx) (sum_out tx) r.created_here st in
        r'.s.missing ≡ []
        → r'.s.deficits ≡ []
        → Agree utxo r'.created_here r'.spent_here u
          × (total_value u + outputs_value tx.output + r'.s.fees ≤ bound)
  unfolding sum_out
  finish_reading_lem bound tx r st u reads m d = elim (Bool-cases st.values_ok) [
    | inl fine ↦
        let kept = settle_fees-missing (btc.compute_txid tx) st.in_sum (sum_out tx) st.s in
        let (agree, sum, _) = reads (sym kept ∙ rw (fine, finish_reading) at m) in
        let paid =
          settle_fees_lem (btc.compute_txid tx) st.in_sum (outputs_value tx.output) (sum_out tx)
            st.s (λ t e. omega (arith, sum_from-outputs_value 0 tx.output e))
            (rw (fine, finish_reading) at d) in
        rw fine (agree, omega (arith, sum, paid))
    | inr off ↦ let (_, _, fine) = reads (rw (off, finish_reading) at m) in cc
  ]

  finish_reading-deficits :
      (tx : Transaction) (r : Resolving) (st : Reading)
      → (finish_reading (btc.compute_txid tx) (sum_out tx) r.created_here st).s.deficits ≡ []
      → st.s.deficits ≡ []
  finish_reading-deficits tx r st d = elim (Bool-cases st.values_ok) [
    | inl fine ↦
        settle_fees-deficits (btc.compute_txid tx) st.in_sum (sum_out tx) st.s
          (rw (fine, finish_reading) at d)
    | inr off ↦ rw (off, finish_reading) at d
  ]

  -- A transaction behind the first, and the outputs it may still create.
  resolve_inputs-Resolves :
      (bound ti : ℕ) (tx : Transaction) (r : Resolving) (a : Applying)
      → Resolves bound r a.utxo
      → let r' = resolve_inputs btc params height utxo (suc ti) tx r in
        r'.s.missing ≡ []
        → r'.s.deficits ≡ []
        → Agree utxo r'.created_here r'.spent_here (spend_inputs tx.input a).utxo
          × (total_value (spend_inputs tx.input a).utxo + outputs_value tx.output + r'.s.fees
              ≤ bound)
  unfolding resolve_inputs
  resolve_inputs-Resolves bound ti tx r a ok m d =
      let st =
        read_inputs params height utxo r.created_here (suc ti) 0 tx.version tx.input
          (start_reading r) in
      let behind : (suc ti == 0) ≡ false = ground arith in
      let m' = rw behind at m in
      let d' = rw behind at d in
      let same =
        read_inputs-fees params height utxo r.created_here (suc ti) 0 tx.version tx.input
          (start_reading r) in
      let none_short : r.s.deficits ≡ [] = sym same.1 ∙ finish_reading-deficits tx r st d' in
      rw behind (
        finish_reading_lem bound tx r st (spend_inputs tx.input a).utxo
          (read_inputs-Reads params height utxo r.created_here (suc ti) 0 tx.version tx.input bound
            (start_reading r) a
            (λ none_missing.
              let (agree, sum) = ok none_missing none_short in (agree, omega (arith, sum), refl)))
          m' d')

  apply_transaction_behind :
      (ti : ℕ) (tx : Transaction) (a : Applying)
      → create_coins btc height
          (btc.compute_txid tx)
          (suc ti == 0)
          0
          tx.output
          (spend_inputs tx.input a)
        ≡ apply_transaction btc height (suc ti) tx a
  unfolding apply_transaction
  apply_transaction_behind ti tx a =
      let behind : false ≡ (suc ti == 0) = ground arith in
      ap
        (λ (b : Bool).
          create_coins btc height (btc.compute_txid tx) (suc ti == 0) 0 tx.output
            (if b then a else spend_inputs tx.input a))
        behind

  resolve_transaction-Resolves :
      (bound ti : ℕ) (tx : Transaction) (r : Resolving) (a : Applying)
      → Resolves bound r a.utxo
      → Resolves bound
          (resolve_transaction btc params height utxo (suc ti) tx r)
          (apply_transaction btc height (suc ti) tx a).utxo
  unfolding resolve_transaction
  resolve_transaction-Resolves bound ti tx r a ok =
      subst
        (λ (b : Applying).
          Resolves bound (resolve_transaction btc params height utxo (suc ti) tx r) b.utxo)
        (apply_transaction_behind ti tx a)
        (λ m d.
          let read = resolve_inputs btc params height utxo (suc ti) tx r in
          let (agree, sum) = resolve_inputs-Resolves bound ti tx r a ok m d in
          let paid =
            total_value-create_coins btc params height (btc.compute_txid tx) (suc ti == 0) utxo 0
              tx.output (spend_inputs tx.input a) in
          (
            create_here-Agree btc params height (btc.compute_txid tx) (suc ti == 0) utxo 0 tx.output
                read.created_here read.spent_here (spend_inputs tx.input a) agree,
            omega (arith, sum, paid),
          ))

  resolve_from-Resolves :
      (bound ti : ℕ) (txs : List Transaction) (r : Resolving) (a : Applying)
      → Resolves bound r a.utxo
      → Resolves bound
          (resolve_from btc params height utxo (suc ti) txs r)
          (apply_from btc height (suc ti) txs a).utxo
  unfolding resolve_from apply_from
  resolve_from-Resolves bound ti [] r a ok = ok
  resolve_from-Resolves bound ti (tx ∷ txs) r a ok =
      resolve_from-Resolves bound (suc ti) txs _ _ (resolve_transaction-Resolves bound ti tx r a ok)

  -- A block in which no input is missing and no transaction pays out more than it takes in leaves a
  -- UTXO set whose value, with the fees, is at most the value before and what the coinbase pays.
  pub apply_block-total_value :
      (cb : Transaction) (txs : List Transaction)
      → (resolve_spending btc params height utxo (cb ∷ txs)).missing ≡ []
      → (resolve_spending btc params height utxo (cb ∷ txs)).deficits ≡ []
      → total_value (apply_block btc height utxo (cb ∷ txs)).utxo
          + (resolve_spending btc params height utxo (cb ∷ txs)).fees
        ≤ total_value utxo + outputs_value cb.output
  unfolding resolve_spending apply_block resolve_from apply_from resolve_transaction resolve_inputs
      apply_transaction
  apply_block-total_value cb txs m d =
      (resolve_from-Resolves (total_value utxo + outputs_value cb.output) 0 txs _ _
        (λ _ _. (
          create_here-Agree btc params height (btc.compute_txid cb) true utxo 0 cb.output [] []
              (record { utxo = utxo; created = 0; spent = 0 }) (λ k free. refl),
          omega (
            arith,
            total_value-create_coins btc params height (btc.compute_txid cb) true utxo 0 cb.output
                (record { utxo = utxo; created = 0; spent = 0 }),
          ),
        ))
        m d).1
