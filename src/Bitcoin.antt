-- ===== src/Bitcoin.antt =====
-- The parts of the `bitcoin` crate (a dependency, not in this repository) that the rules read: its
-- transaction types as plain data, and its functions as the fields of a parameter.
use sidestr_rs.Base.{ℕ, ◌≡◌, ◌↔◌, Bool, true, ◌&&◌, ◌||◌, Option, List, ◌==◌, ltb, arith}
use sidestr_rs.Base.Bytes.{Bytes}
use sidestr_rs.Base.Map.{Ord}

-- Transaction ids and block hashes stand as the numbers that their 32 bytes spell.
pub record OutPoint : Type 0 where
  pub txid : ℕ
  pub vout : ℕ

pub record TxIn : Type 0 where
  pub previous_output : OutPoint
  pub script_sig : Bytes
  pub sequence : ℕ
  pub witness : List Bytes

pub record TxOut : Type 0 where
  pub value : ℕ
  pub script_pubkey : Bytes

-- `version` stands as the 32 bits of the `i32`.
pub record Transaction : Type 0 where
  pub version : ℕ
  pub lock_time : ℕ
  pub input : List TxIn
  pub output : List TxOut

-- `Transaction::compute_txid`, `Transaction::is_coinbase`, `Script::is_op_return`,
-- `ScriptBuf::new_op_return`, `Txid::from_str`, `Txid::to_string`, and `sha256_txid b`: the txid
-- whose display form is the hex of the SHA-256 of `b` (the `sha2` and `hex` crates), `hex::decode`.
pub record Bitcoin : Type 0 where
  pub compute_txid : Transaction → ℕ
  pub is_coinbase : Transaction → Bool
  pub is_op_return : Bytes → Bool
  pub new_op_return : Bytes → Bytes
  pub txid_from_str : Bytes → Option ℕ
  pub txid_to_string : ℕ → Bytes
  pub sha256_txid : Bytes → ℕ
  pub hex_decode : Bytes → Option Bytes

abbrev outpoint_eq : OutPoint → OutPoint → Bool
outpoint_eq a b = (a.txid == b.txid) && (a.vout == b.vout)

abbrev outpoint_below : OutPoint → OutPoint → Bool
outpoint_below a b = ltb a.txid b.txid || ((a.txid == b.txid) && ltb a.vout b.vout)

pub outpoint_eq_iff : (a b : OutPoint) → (outpoint_eq a b ≡ true) ↔ (a ≡ b)
outpoint_eq_iff a b = ground arith

instance abbrev pub outpoint_ord : Ord OutPoint
outpoint_ord = record { eqb = outpoint_eq; below = outpoint_below; eqb_iff = outpoint_eq_iff }
