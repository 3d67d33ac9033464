-- ===== src/Tests/Chain.antt =====
-- A stand-in for the `bitcoin` crate, and a few transactions. A transaction's id is its version,
-- and a lock time of 1 marks the shape of a coinbase.
use sidestr_rs.Base.{
  ℕ, suc, ◌+◌, ◌-◌, ◌%◌, Bool, false, some, List, [], ◌∷◌, ◌++◌, ◌==◌, leb, if◌then◌else◌, length,
}
use sidestr_rs.Base.Bytes.{Bytes, codes}
use sidestr_rs.Bitcoin.{Bitcoin, OutPoint, TxIn, TxOut, Transaction}
use sidestr_rs.Records.RoundTrip.{minimal_script}

abbrev hex_value : Bytes → ℕ
hex_value [] = 0
hex_value (b ∷ s) = (if leb b b'9' then b - b'0' else b - b'a' + 10) + hex_value s

abbrev repeat : ℕ → ℕ → Bytes
repeat = elim [ Prim.Native.Nat.zero ↦ λ b. [] | suc (n → ih) ↦ λ b. b ∷ ih b ]

abbrev is_return : Bytes → Bool
is_return [] = false
is_return (b ∷ s) = b == 0x6a

-- Ids below ten, in 64 digits; the value of a text is the sum of its digits.
abbrev pub btc : Bitcoin
btc = record {
  compute_txid = λ tx. tx.version;
  is_coinbase = λ tx. tx.lock_time == 1;
  is_op_return = is_return;
  new_op_return = minimal_script;
  txid_from_str = λ s. some (hex_value s);
  txid_to_string = λ n. repeat 63 b'0' ++ (b'0' + n % 10) ∷ [];
  sha256_txid = λ s. 1000 + length s;
  hex_decode = λ s. some s;
}

abbrev pub op : ℕ → ℕ → OutPoint
op t v = record { txid = t; vout = v }

abbrev pub spend : OutPoint → TxIn
spend o = record { previous_output = o; script_sig = []; sequence = 0; witness = [] }

abbrev pub coin : ℕ → TxOut
coin v = record { value = v; script_pubkey = 0x51 ∷ 0x20 ∷ [] }

abbrev pub true_coin : ℕ → TxOut
true_coin v = record { value = v; script_pubkey = 0x51 ∷ [] }

abbrev pub rec_out : Bytes → TxOut
rec_out text = record { value = 0; script_pubkey = minimal_script text }

abbrev pub tx_of : ℕ → List TxIn → List TxOut → Transaction
tx_of i ins outs = record { version = i; lock_time = 0; input = ins; output = outs }

abbrev pub coinbase : Transaction
coinbase = record { version = 9; lock_time = 1; input = spend (op 0 0) ∷ []; output = coin 50 ∷ [] }

-- Transaction 1 issues 1000 DREAM on its first output.
abbrev pub issue_tx : Transaction
issue_tx =
    tx_of 1 (spend (op 7 0) ∷ [])
      (coin 330 ∷ rec_out (codes "issue:DREAM:0") ∷ rec_out (codes "tally:self:0=1000") ∷ [])

abbrev pub id_1 : Bytes
id_1 = repeat 63 b'0' ++ b'1' ∷ []

-- Transaction 2 moves 300 on and 700 back.
abbrev pub send_tx : Transaction
send_tx =
    tx_of 2 (spend (op 1 0) ∷ [])
      (coin 330 ∷ coin 330 ∷ rec_out (codes "tally:" ++ (id_1 ++ codes ":0=300,1=700")) ∷ [])

-- Transaction 3 assigns more than its input carries.
abbrev pub greedy_tx : Transaction
greedy_tx =
    tx_of 3 (spend (op 1 0) ∷ [])
      (coin 330 ∷ rec_out (codes "tally:" ++ (id_1 ++ codes ":0=1001")) ∷ [])
