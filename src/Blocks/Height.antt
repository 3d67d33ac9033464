-- ===== src/Blocks/Height.antt =====
-- The height that a coinbase pushes: `height_push` and `coinbase_height` of
-- sidestr-core/src/block.rs.
use sidestr_rs.Base.{
  ℕ, zero, suc, ◌+◌, ◌-◌, ◌*◌, ◌/◌, ◌%◌, ◌&&◌, ◌||◌, Option, none, some, [], ◌∷◌, ◌++◌, ◌==◌, ltb,
  leb, if◌then◌else◌, length, get_elem?, first, unwrap_or, u32_max, Result, ok, err, ◌>>◌, fail_if,
}
use sidestr_rs.Base.Bytes.{Bytes}
use sidestr_rs.Bitcoin.{Transaction, TxIn}

-- `while n > 0 { out.push(n & 0xff); n >>= 8 }`, on fuel: a `u32` has four bytes.
unfoldable pub le_bytes : ℕ → ℕ → Bytes
le_bytes zero n = []
le_bytes (suc fuel) n = let rest = le_bytes fuel (n / 256) in if n == 0 then [] else n % 256 ∷ rest

abbrev pub last : Bytes → Option ℕ
last [] = none
last (b ∷ []) = some b
last (b ∷ c ∷ bs) = last (c ∷ bs)

-- A padding byte only after a high bit.
abbrev pub padded : Bytes → Bytes
padded out = if ltb 127 (unwrap_or 0 (last out)) then out ++ 0 ∷ [] else out

abbrev pub pushed : Bytes → Bytes
pushed [] = 0 ∷ []
pushed (b ∷ bs) = length (b ∷ bs) ∷ b ∷ bs

unfoldable pub height_push : ℕ → Bytes
unfolding le_bytes
height_push height = pushed (padded (le_bytes 4 height))

pub data HeightError : Type 0 where
  no_script not_a_push not_minimal negative too_long : HeightError

-- `sig[i]`, which stands within the script where it is read.
abbrev pub byte_at : Bytes → ℕ → ℕ
byte_at sig i = unwrap_or 0 (get_elem? sig i)

-- `(1..=n).rev().fold(h, |h, i| h * 256 + sig[i])`
abbrev pub fold_down : Bytes → ℕ → ℕ → ℕ
fold_down sig zero h = h
fold_down sig (suc i) h = fold_down sig i (h * 256 + byte_at sig (suc i))

abbrev pub to_u32 : ℕ → Result HeightError ℕ
to_u32 h = if leb h u32_max then ok h else err too_long

abbrev pub read_push : Bytes → ℕ → Result HeightError ℕ
read_push sig n =
    fail_if (ltb 75 n || ltb (length sig) (1 + n)) not_a_push
    >> fail_if (ltb 1 n && (byte_at sig n == 0) && ltb (byte_at sig (n - 1)) 128) not_minimal
    >> fail_if (ltb 127 (byte_at sig n)) negative
    >> fail_if (ltb 5 n) too_long
    >> to_u32 (fold_down sig n 0)

abbrev pub script_height : Bytes → Result HeightError ℕ
script_height [] = err no_script
script_height (n ∷ rest) =
    if n == 0
    then ok 0
    else if leb 0x51 n && leb n 0x60
    then ok (n - 0x50)
    else read_push (n ∷ rest) n

abbrev pub script_of : Option TxIn → Bytes
script_of none = []
script_of (some i) = i.script_sig

unfoldable pub coinbase_height : Transaction → Result HeightError ℕ
coinbase_height coinbase = script_height (script_of (first coinbase.input))
