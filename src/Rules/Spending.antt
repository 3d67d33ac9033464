-- ===== src/Rules/Spending.antt =====
-- `resolve_spending` of sidestr-core/src/rules.rs.
use sidestr_rs.Base.{
  ℕ, suc, ◌+◌, ◌-◌, ◌/◌, ◌%◌, Bool, true, false, ◌&&◌, Option, none, some, List, [], ◌∷◌, ◌++◌, ltb,
  leb, ◌==◌, if◌then◌else◌, u64_max, saturating_add,
}
use sidestr_rs.Base.Map.{Map, lookup, insert, contains_key}
use sidestr_rs.Bitcoin.{Bitcoin, OutPoint, TxIn, TxOut, Transaction, outpoint_ord}
use sidestr_rs.Rules.Verdict.{Params}
use sidestr_rs.Rules.Transaction.{sum_out}
use sidestr_rs.Rules.Utxo.{Coin, Utxo, coin_of}

pub record Spending : Type 0 where
  pub fees : ℕ
  pub missing : List OutPoint
  pub deficits : List ℕ
  pub premature : List OutPoint
  pub seqlock_violations : List OutPoint
  pub seqlock_unknown : ℕ
  pub resolved : List (ℕ × ℕ × TxOut)

abbrev pub no_spending : Spending
no_spending = record {
  fees = 0;
  missing = [];
  deficits = [];
  premature = [];
  seqlock_violations = [];
  seqlock_unknown = 0;
  resolved = [];
}

-- What the loop over a transaction's inputs keeps.
pub record Reading : Type 0 where
  pub s : Spending
  pub spent_here : Map OutPoint (Unit {0})
  pub in_sum : ℕ
  pub values_ok : Bool

-- What the loop over the transactions keeps.
pub record Resolving : Type 0 where
  pub s : Spending
  pub spent_here : Map OutPoint (Unit {0})
  pub created_here : Map OutPoint Coin

-- `created_here.get(&key).or_else(|| utxo.get(&key))`
abbrev pub coin_at : OutPoint → Map OutPoint Coin → Utxo → Option Coin
coin_at key created utxo = elim (lookup key created) [ none ↦ lookup key utxo | some c ↦ some c ]

-- `version.0 >= 2` of an `i32`, `seq & SEQ_DISABLE == 0` of a `u32`, and a value that is not 0.
abbrev pub locks : ℕ → ℕ → Bool
locks version seq =
    leb 2 version && ltb version 2_147_483_648 && ltb seq 2_147_483_648 && ltb 0 (seq % 65_536)

-- `seq & SEQ_TYPE != 0`
abbrev pub time_based : ℕ → Bool
time_based seq = (seq / 4_194_304) % 2 == 1

-- The violations and the number of unknown locks with those of one input.
abbrev pub sequence_lock : ℕ → ℕ → OutPoint → ℕ → Option ℕ → List OutPoint × ℕ → List OutPoint × ℕ
sequence_lock height version key seq coin_height (violations, unknown) =
    if locks version seq
    then (if time_based seq then (violations, suc unknown) else elim coin_height [
      | none ↦ (violations, suc unknown)
      | some ch ↦
          ((if ltb height (ch + seq % 65_536) then violations ++ key ∷ [] else violations), unknown)
    ])
    else (violations, unknown)

abbrev pub with_lock : ℕ → ℕ → OutPoint → ℕ → Option ℕ → Spending → Spending
with_lock height version key seq coin_height s =
    let l =
      sequence_lock height version key seq coin_height (s.seqlock_violations, s.seqlock_unknown) in
    record s { seqlock_violations = l.0; seqlock_unknown = l.1 }

abbrev pub push_missing : OutPoint → Spending → Spending
push_missing key s = record s { missing = s.missing ++ key ∷ [] }

-- Fees, or a deficit, of a transaction whose inputs are all there.
abbrev pub settle_fees : ℕ → ℕ → Option ℕ → Spending → Spending
settle_fees txid in_sum none s = record s { deficits = s.deficits ++ txid ∷ [] }
settle_fees txid in_sum (some out_sum) s =
    if leb out_sum in_sum
    then record s { fees = saturating_add u64_max s.fees (in_sum - out_sum) }
    else record s { deficits = s.deficits ++ txid ∷ [] }

abbrev pub start_reading : Resolving → Reading
start_reading r = record { s = r.s; spent_here = r.spent_here; in_sum = 0; values_ok = true }

abbrev pub finish_reading : ℕ → Option ℕ → Map OutPoint Coin → Reading → Resolving
finish_reading txid out created st = record {
  s = if st.values_ok then settle_fees txid st.in_sum out st.s else st.s;
  spent_here = st.spent_here;
  created_here = created;
}

module _ (params : Params) (height : ℕ) where
  -- A resolved input: its prevout, and whether it spends a coinbase too early.
  abbrev pub push_resolved : ℕ → ℕ → OutPoint → Coin → Spending → Spending
  push_resolved ti ii key c s = record s {
    resolved = s.resolved ++ (ti, ii, c.output) ∷ [];
    premature =
        if c.coinbase && ltb (height - c.height) params.coinbase_maturity
        then s.premature ++ key ∷ []
        else s.premature;
  }

  -- An input that no earlier one of the block spends, by the coin found for it.
  abbrev pub read_coin : ℕ → ℕ → ℕ → TxIn → Option Coin → Reading → Reading
  read_coin ti ii version i none st = record st {
    s =
        with_lock height version i.previous_output i.sequence none
          (push_missing i.previous_output st.s);
    values_ok = false;
  }
  read_coin ti ii version i (some c) st = record st {
    s =
        with_lock height version i.previous_output i.sequence (some c.height)
          (push_resolved ti ii i.previous_output c st.s);
    in_sum = saturating_add u64_max st.in_sum c.output.value;
  }

  abbrev pub mark_spent : OutPoint → Reading → Reading
  mark_spent key st = record st { spent_here = insert key tt st.spent_here }

  -- The body of the loop over the inputs.
  unfoldable pub read_input : Utxo → Map OutPoint Coin → ℕ → ℕ → ℕ → TxIn → Reading → Reading
  read_input utxo created ti ii version i st =
      mark_spent i.previous_output (elim (contains_key i.previous_output st.spent_here) [
        | true ↦ record st { s = push_missing i.previous_output st.s; values_ok = false }
        | false ↦ read_coin ti ii version i (coin_at i.previous_output created utxo) st
      ])

  unfoldable pub read_inputs : Utxo → Map OutPoint Coin → ℕ → ℕ → ℕ → List TxIn → Reading → Reading
  unfolding read_input
  read_inputs utxo created ti ii version [] st = st
  read_inputs utxo created ti ii version (i ∷ is) st =
      read_inputs utxo created ti (suc ii) version is (read_input utxo created ti ii version i st)

module _ (btc : Bitcoin) (params : Params) (height : ℕ) where
  -- The outputs from `vout` on.
  unfoldable pub create_here : ℕ → Bool → ℕ → List TxOut → Map OutPoint Coin → Map OutPoint Coin
  create_here txid coinbase vout [] created = created
  create_here txid coinbase vout (o ∷ os) created = create_here txid coinbase (suc vout) os (
      if btc.is_op_return o.script_pubkey
      then created
      else insert (record { txid = txid; vout = vout }) (coin_of btc height o coinbase) created)

  -- A transaction's inputs, which the first one's are not read for.
  unfoldable pub resolve_inputs : Utxo → ℕ → Transaction → Resolving → Resolving
  unfolding read_inputs sum_out
  resolve_inputs utxo ti tx r =
      if ti == 0
      then r
      else finish_reading (btc.compute_txid tx) (sum_out tx) r.created_here
          (read_inputs params height utxo r.created_here ti 0 tx.version tx.input (start_reading r))

  unfoldable pub resolve_transaction : Utxo → ℕ → Transaction → Resolving → Resolving
  unfolding resolve_inputs create_here
  resolve_transaction utxo ti tx r =
      let read = resolve_inputs utxo ti tx r in
      record read {
        created_here = create_here (btc.compute_txid tx) (ti == 0) 0 tx.output read.created_here;
      }

  unfoldable pub resolve_from : Utxo → ℕ → List Transaction → Resolving → Resolving
  unfolding resolve_transaction
  resolve_from utxo ti [] r = r
  resolve_from utxo ti (tx ∷ txs) r =
      resolve_from utxo (suc ti) txs (resolve_transaction utxo ti tx r)

  unfoldable pub resolve_spending : Utxo → List Transaction → Spending
  unfolding resolve_from
  resolve_spending utxo txs =
      (resolve_from utxo 0 txs (record { s = no_spending; spent_here = []; created_here = [] })).s
