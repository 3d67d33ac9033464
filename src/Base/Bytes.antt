-- ===== src/Base/Bytes.antt =====
-- Byte strings, with the operations of `str` and `[u8]` that the parsers use.
use Prim.Native.Char.{code}
use Prim.Native.String.{String}
use sidestr_rs.Base.Tests.{ltb, leb, ◌==◌, if◌then◌else◌}
use sidestr_rs.Base.Lists.{is_empty, all}
use sidestr_rs.Base.Results.{and_then}
use Prim.Native.Nat.{ℕ, zero, suc, ◌+◌, ◌-◌, ◌*◌}
use mathlib.Core.Path.{◌≡◌, refl}
use mathlib.Core.Bool.{Bool, true, false, ◌&&◌, ◌||◌, not}
use mathlib.Core.Option.{Option, none, some}
use mathlib.Core.List.{List, [], ◌∷◌}
use native.Mathlib.Omega.{arith}

abbrev pub Bytes : Type 0
Bytes = List ℕ

-- The bytes of an ASCII literal.
abbrev pub codes : String → Bytes
codes String.[] = []
codes (String.◌∷◌ c s) = code c ∷ codes s

abbrev pub bytes_eq : Bytes → Bytes → Bool
bytes_eq [] [] = true
bytes_eq (a ∷ as') (b ∷ bs) = (a == b) && bytes_eq as' bs
bytes_eq _ _ = false

-- `s.strip_prefix(p)`
abbrev pub strip_prefix : Bytes → Bytes → Option Bytes
strip_prefix [] s = some s
strip_prefix (p ∷ ps) [] = none
strip_prefix (p ∷ ps) (b ∷ s) = if p == b then strip_prefix ps s else none

-- `s.starts_with(p)`
abbrev pub starts_with : Bytes → Bytes → Bool
starts_with [] s = true
starts_with (p ∷ ps) [] = false
starts_with (p ∷ ps) (b ∷ s) = (p == b) && starts_with ps s

-- `s.split_once(c)`: what stands before the first `c`, and what follows it.
abbrev pub split_once : ℕ → Bytes → Option (Bytes × Bytes)
split_once c [] = none
split_once c (b ∷ s) =
    if b == c then some ([], s) else and_then (split_once c s) λ r. some (b ∷ r.0, r.1)

abbrev push_front : ℕ → List Bytes → List Bytes
push_front b [] = (b ∷ []) ∷ []
push_front b (s ∷ ss) = (b ∷ s) ∷ ss

-- `s.split(c)`: always one part at least.
abbrev pub split : ℕ → Bytes → List Bytes
split c [] = [] ∷ []
split c (b ∷ s) = if b == c then [] ∷ split c s else push_front b (split c s)

abbrev pub is_digit : ℕ → Bool
is_digit b = leb b'0' b && leb b b'9'

abbrev pub is_upper : ℕ → Bool
is_upper b = leb b'A' b && leb b b'Z'

-- `matches!(b, b'0'..=b'9' | b'a'..=b'f')`
abbrev pub is_lower_hex : ℕ → Bool
is_lower_hex b = is_digit b || (leb b'a' b && leb b b'f')

abbrev pub digits_value : ℕ → Bytes → ℕ
digits_value n [] = n
digits_value n (b ∷ s) = digits_value (n * 10 + (b - b'0')) s

-- `s.parse()` into an unsigned type whose largest value is `bound`, on text without a sign: every
-- caller has tested that the text is all digits, so the sign that `parse` would take never shows.
abbrev pub parse_uint : ℕ → Bytes → Option ℕ
parse_uint bound s =
    if is_empty s || not (all is_digit s)
    then none
    else if leb (digits_value 0 s) bound
    then some (digits_value 0 s)
    else none

-- What a first byte of a UTF-8 sequence asks for: how many bytes follow, and the range of the next
-- (`str::from_utf8` accepts Unicode's table of well-formed sequences and nothing else).
abbrev utf8_lead : ℕ → Option (ℕ × ℕ × ℕ)
utf8_lead b =
    if ltb b 0x80
    then some (0, 0x80, 0xbf)
    else if leb 0xc2 b && leb b 0xdf
    then some (1, 0x80, 0xbf)
    else if b == 0xe0
    then some (2, 0xa0, 0xbf)
    else if b == 0xed
    then some (2, 0x80, 0x9f)
    else if leb 0xe1 b && leb b 0xef
    then some (2, 0x80, 0xbf)
    else if b == 0xf0
    then some (3, 0x90, 0xbf)
    else if leb 0xf1 b && leb b 0xf3
    then some (3, 0x80, 0xbf)
    else if b == 0xf4
    then some (3, 0x80, 0x8f)
    else none

-- `pending` continuation bytes are still due, the next of them in `lo..=hi`.
unfoldable pub utf8_from : ℕ → ℕ → ℕ → Bytes → Bool
utf8_from pending lo hi [] = pending == 0
utf8_from zero lo hi (b ∷ s) = elim (utf8_lead b) [
  | none ↦ false
  | some (n, l, h) ↦ utf8_from n l h s
]
utf8_from (suc n) lo hi (b ∷ s) = (leb lo b && leb b hi) && utf8_from n 0x80 0xbf s

-- `String::from_utf8(bytes).ok()`: a text is its bytes.
abbrev pub from_utf8 : Bytes → Option Bytes
from_utf8 s = if utf8_from 0 0x80 0xbf s then some s else none

pub bytes_eq→eq : (a b : Bytes) → bytes_eq a b ≡ true → a ≡ b
bytes_eq→eq [] [] h = refl
bytes_eq→eq [] (b ∷ bs) h = cc
bytes_eq→eq (a ∷ as') [] h = cc
bytes_eq→eq (a ∷ as') (b ∷ bs) h = ground (arith, bytes_eq→eq as' bs)

pub bytes_eq_refl : (a : Bytes) → bytes_eq a a ≡ true
bytes_eq_refl [] = refl
bytes_eq_refl (a ∷ as') = ground (arith, bytes_eq_refl as')
