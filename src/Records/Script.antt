-- ===== src/Records/Script.antt =====
-- A record's script: `record_text` and `record_script` of sidestr-core/src/records.rs.
use sidestr_rs.Base.{
  ℕ, ◌+◌, Bool, false, ◌&&◌, ◌||◌, not, Option, none, some, List, [], ◌∷◌, ◌==◌, ltb, leb,
  if◌then◌else◌, length, get_elem?, drop, is_empty, Result, ok, err, and_then, suc,
}
use sidestr_rs.Base.Bytes.{Bytes, from_utf8, utf8_from}
use sidestr_rs.Bitcoin.{Bitcoin, TxOut, Transaction}

-- The longest record, in bytes.
abbrev pub max_record : ℕ
max_record = 255

-- The length and the start of the one push behind `OP_RETURN`: a direct push (1..=75) or
-- `OP_PUSHDATA1` (76..=255), minimal only.
abbrev pub push_header : Bytes → Option (ℕ × ℕ)
push_header bytes = and_then (get_elem? bytes 1) λ n.
    if leb 1 n && leb n 75
    then some (n, 2)
    else if n == 0x4c
    then and_then (get_elem? bytes 2) (λ m. if leb m 75 then none else some (m, 3))
    else none

-- The push must fill the script, and hold UTF-8.
abbrev pub push_text : Bytes → ℕ × ℕ → Option Bytes
push_text bytes (len, start) =
    if not (length bytes == start + len) || ltb max_record len
    then none
    else from_utf8 (drop start bytes)

abbrev starts_op_return : Bytes → Bool
starts_op_return [] = false
starts_op_return (b ∷ bytes) = b == 0x6a

unfoldable pub record_text : Bytes → Option Bytes
unfolding utf8_from
record_text bytes =
    if starts_op_return bytes then and_then (push_header bytes) (push_text bytes) else none

pub data Error : Type 0 where
  record_length : ℕ → Error
  tally_assigns_nothing : Error
  above_largest_amount : ℕ → Error

module _ (btc : Bitcoin) where
  -- A record always fits one push, whose limit is 4 GB.
  unfoldable pub record_script : Bytes → Result Error Bytes
  record_script text =
      if is_empty text || ltb max_record (length text)
      then err (record_length (length text))
      else ok (btc.new_op_return text)

-- The records among the outputs from position `vout` on.
unfoldable pub records_from : ℕ → List TxOut → List (ℕ × Bytes)
records_from vout [] = []
records_from vout (o ∷ os) =
    let rest = records_from (suc vout) os in
    elim (record_text o.script_pubkey) [ none ↦ rest | some t ↦ (vout, t) ∷ rest ]

unfoldable pub records_of : Transaction → List (ℕ × Bytes)
unfolding records_from record_text
records_of tx = records_from 0 tx.output
