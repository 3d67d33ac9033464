-- ===== src/Rules/Utxo.antt =====
-- The UTXO set of sidestr-core/src/rules.rs and `apply_block`.
use sidestr_rs.Base.{ℕ, suc, Bool, List, [], ◌∷◌, ◌==◌, if◌then◌else◌}
use sidestr_rs.Base.Map.{Map, insert, remove, contains_key}
use sidestr_rs.Bitcoin.{Bitcoin, OutPoint, TxIn, TxOut, Transaction, outpoint_ord}

pub record Coin : Type 0 where
  pub output : TxOut
  pub height : ℕ
  pub coinbase : Bool

abbrev pub Utxo : Type 0
Utxo = Map OutPoint Coin

-- The set and the numbers of coins created and spent.
pub record Applying : Type 0 where
  pub utxo : Utxo
  pub created : ℕ
  pub spent : ℕ

unfoldable pub spend_inputs : List TxIn → Applying → Applying
spend_inputs [] a = a
spend_inputs (i ∷ is) a = spend_inputs is (record a {
  utxo = remove i.previous_output a.utxo;
  spent = if contains_key i.previous_output a.utxo then suc a.spent else a.spent;
})

module _ (btc : Bitcoin) (height : ℕ) where
  abbrev pub coin_of : TxOut → Bool → Coin
  coin_of o coinbase = record { output = o; height = height; coinbase = coinbase }

  -- The outputs from `vout` on.
  unfoldable pub create_coins : ℕ → Bool → ℕ → List TxOut → Applying → Applying
  create_coins txid coinbase vout [] a = a
  create_coins txid coinbase vout (o ∷ os) a = create_coins txid coinbase (suc vout) os (
      if btc.is_op_return o.script_pubkey then a else record a {
        utxo = insert (record { txid = txid; vout = vout }) (coin_of o coinbase) a.utxo;
        created = suc a.created;
      })

  -- The body of the loop at position `i`: the first transaction's inputs are not spent.
  unfoldable pub apply_transaction : ℕ → Transaction → Applying → Applying
  unfolding spend_inputs create_coins
  apply_transaction i tx a =
      create_coins (btc.compute_txid tx) (i == 0) 0 tx.output
        (if i == 0 then a else spend_inputs tx.input a)

  unfoldable pub apply_from : ℕ → List Transaction → Applying → Applying
  unfolding apply_transaction
  apply_from i [] a = a
  apply_from i (tx ∷ txs) a = apply_from (suc i) txs (apply_transaction i tx a)

  unfoldable pub apply_block : Utxo → List Transaction → Applying
  unfolding apply_from
  apply_block utxo txs = apply_from 0 txs (record { utxo = utxo; created = 0; spent = 0 })
