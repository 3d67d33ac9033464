-- ===== src/Rules/Distinct.antt =====
-- No outpoint is spent twice in a block (`resolve_spending` of sidestr-core/src/rules.rs).
use sidestr_rs.Base.{
  ℕ, suc, ◌≡◌, refl, sym, ◌∙◌, inl, inr, false, Option, List, [], ◌∷◌, ◌++◌, ◌==◌, arith,
  Bool-cases, Option-cases, All,
}
use sidestr_rs.Base.Map.{Map, insert, contains_key, lookup-insert}
use sidestr_rs.Bitcoin.{Bitcoin, OutPoint, TxIn, Transaction, outpoint_ord}
use sidestr_rs.Assets.Supply.{NotSpent, DistinctInputs}
use sidestr_rs.Rules.Verdict.{Params}
use sidestr_rs.Rules.Utxo.{Coin, Utxo}
use sidestr_rs.Rules.Transaction.{sum_out}
use sidestr_rs.Rules.Spending.{
  Reading, Resolving, coin_at, read_input, read_inputs, start_reading, finish_reading,
  resolve_inputs, resolve_transaction, resolve_from, resolve_spending,
}
use sidestr_rs.Rules.Reads.{append_nonempty}
use sidestr_rs.Rules.Value.{settle_fees-missing}

-- None of the inputs is marked as spent.
abbrev Fresh : Map OutPoint (Unit {0}) → List TxIn → Type 0
Fresh spent = All λ i. contains_key i.previous_output spent ≡ false

-- What is not in a set with one outpoint more is not that outpoint, and not in the set.
Fresh-insert :
    (key : OutPoint) (spent : Map OutPoint (Unit {0})) (is : List TxIn)
    → Fresh (insert key tt spent) is
    → NotSpent key is × Fresh spent is
Fresh-insert key spent [] h = (tt, tt)
Fresh-insert key spent (i ∷ is) h =
    let (apart, rest) = Fresh-insert key spent is h.1 in
    let at = lookup-insert key i.previous_output tt spent in
    elim (Bool-cases (outpoint_ord.eqb key i.previous_output)) [
      | inl same ↦ cc (rw (contains_key, at, same) at h.0)
      | inr other ↦ ((other, apart), (rw (contains_key, at, other) at h.0, rest))
    ]

module _ (params : Params) (height : ℕ) (utxo : Utxo) (created : Map OutPoint Coin) where
  -- An input after which nothing is missing was not spent before, and nothing was missing.
  read_input-fresh :
      (ti ii version : ℕ) (i : TxIn) (st : Reading)
      → let st' = read_input params height utxo created ti ii version i st in
        st'.s.missing ≡ []
        → (contains_key i.previous_output st.spent_here ≡ false)
          × (st.s.missing ≡ [])
          × (st'.spent_here ≡ insert i.previous_output tt st.spent_here)
  unfolding read_input
  read_input-fresh ti ii version i st h =
      elim (Bool-cases (contains_key i.previous_output st.spent_here)) [
        | inl spent ↦ append_nonempty st.s.missing i.previous_output (rw (spent, read_input) at h)
        | inr free ↦ elim (Option-cases (coin_at i.previous_output created utxo)) [
          | inl gone ↦
              append_nonempty st.s.missing i.previous_output (rw (free, gone, read_input) at h)
          | inr (c, found) ↦ (free, rw (free, found, read_input) at h, rw (free, found) refl)
        ]
      ]

  read_inputs-Fresh :
      (ti ii version : ℕ) (is later : List TxIn) (st : Reading)
      → let st' = read_inputs params height utxo created ti ii version is st in
        st'.s.missing ≡ []
        → Fresh st'.spent_here later
        → DistinctInputs later
        → DistinctInputs (is ++ later) × Fresh st.spent_here (is ++ later) × (st.s.missing ≡ [])
  unfolding read_inputs
  read_inputs-Fresh ti ii version [] later st none_missing fresh distinct =
      (distinct, fresh, none_missing)
  read_inputs-Fresh ti ii version (i ∷ is) later st none_missing fresh distinct =
      let st' = read_input params height utxo created ti ii version i st in
      let (distinct', fresh', none') =
        read_inputs-Fresh ti (suc ii) version is later st' none_missing fresh distinct in
      let (head, before, marked) = read_input-fresh ti ii version i st none' in
      let (apart, rest) =
        Fresh-insert i.previous_output st.spent_here (is ++ later) (rw marked at fresh') in
      ((apart, distinct'), (head, rest), before)

-- The inputs of a list of transactions, in order.
abbrev pub block_inputs : List Transaction → List TxIn
block_inputs [] = []
block_inputs (tx ∷ txs) = tx.input ++ block_inputs txs

finish_reading-missing :
    (txid : ℕ) (out : Option ℕ) (created : Map OutPoint Coin) (st : Reading)
    → (finish_reading txid out created st).s.missing ≡ st.s.missing
finish_reading-missing txid out created st = elim (Bool-cases st.values_ok) [
  | inl fine ↦ rw (fine, finish_reading) (settle_fees-missing txid st.in_sum out st.s)
  | inr off ↦ rw (off, finish_reading) refl
]

module _ (btc : Bitcoin) (params : Params) (height : ℕ) (utxo : Utxo) where
  resolve_inputs-Fresh :
      (ti : ℕ) (tx : Transaction) (later : List TxIn) (r : Resolving)
      → let r' = resolve_inputs btc params height utxo (suc ti) tx r in
        r'.s.missing ≡ []
        → Fresh r'.spent_here later
        → DistinctInputs later
        → DistinctInputs (tx.input ++ later)
          × Fresh r.spent_here (tx.input ++ later)
          × (r.s.missing ≡ [])
  unfolding resolve_inputs
  resolve_inputs-Fresh ti tx later r m fresh distinct =
      let st =
        read_inputs params height utxo r.created_here (suc ti) 0 tx.version tx.input
          (start_reading r) in
      let behind : (suc ti == 0) ≡ false = ground arith in
      let kept = finish_reading-missing (btc.compute_txid tx) (sum_out tx) r.created_here st in
      read_inputs-Fresh params height utxo r.created_here (suc ti) 0 tx.version tx.input later
        (start_reading r) (sym kept ∙ rw behind at m) (rw behind at fresh) distinct

  resolve_from-Fresh :
      (ti : ℕ) (txs : List Transaction) (r : Resolving)
      → (resolve_from btc params height utxo (suc ti) txs r).s.missing ≡ []
      → DistinctInputs (block_inputs txs)
        × Fresh r.spent_here (block_inputs txs)
        × (r.s.missing ≡ [])
  unfolding resolve_from resolve_transaction
  resolve_from-Fresh ti [] r m = (tt, tt, m)
  resolve_from-Fresh ti (tx ∷ txs) r m =
      let (distinct, fresh, none_missing) =
        resolve_from-Fresh (suc ti) txs (resolve_transaction btc params height utxo (suc ti) tx r)
          m in
      resolve_inputs-Fresh ti tx (block_inputs txs) r none_missing fresh distinct

  -- Where no input of a block is missing, its transactions behind the first spend each outpoint once.
  pub resolve_spending-DistinctInputs :
      (cb : Transaction) (txs : List Transaction)
      → (resolve_spending btc params height utxo (cb ∷ txs)).missing ≡ []
      → DistinctInputs (block_inputs txs)
  unfolding resolve_spending resolve_from
  resolve_spending-DistinctInputs cb txs m = (resolve_from-Fresh 0 txs _ m).0
