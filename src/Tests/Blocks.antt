-- ===== src/Tests/Blocks.antt =====
-- The block's encodings on concrete bytes.
use sidestr_rs.Base.{◌≡◌, refl, some, [], ◌∷◌, ok, none, arith}
use sidestr_rs.Bitcoin.{Transaction}
use sidestr_rs.Blocks.Witness.{encode_witness, decode_witness}
use sidestr_rs.Blocks.RoundTrip.{decode_witness-encode_witness}
use sidestr_rs.Blocks.Height.{height_push, coinbase_height}
use sidestr_rs.Blocks.HeightTrip.{coinbase_height-height_push}

decode_witness-encode_witness_example :
    decode_witness (encode_witness ((1 ∷ 2 ∷ []) ∷ [] ∷ (3 ∷ []) ∷ []))
    ≡ some ((1 ∷ 2 ∷ []) ∷ [] ∷ (3 ∷ []) ∷ [])
unfolding encode_witness
decode_witness-encode_witness_example =
    decode_witness-encode_witness ((1 ∷ 2 ∷ []) ∷ [] ∷ (3 ∷ []) ∷ []) (omega arith)
      (omega arith, (omega arith, (omega arith, tt))) (omega arith)

-- A byte too many is refused.
decode_trailing : decode_witness (1 ∷ 1 ∷ 7 ∷ 0 ∷ []) ≡ none
unfolding decode_witness
decode_trailing = refl

abbrev at_800 : Transaction
at_800 = record {
  version = 1;
  lock_time = 0;
  input =
      record {
        previous_output = record { txid = 0; vout = 0 };
        script_sig = 2 ∷ 32 ∷ 3 ∷ 5 ∷ [];
        sequence = 0;
        witness = [];
      }
      ∷ [];
  output = [];
}

coinbase_height-height_push_example : coinbase_height at_800 ≡ ok 800
unfolding height_push
coinbase_height-height_push_example =
    coinbase_height-height_push 800 (5 ∷ []) at_800 _ (omega arith) refl refl
