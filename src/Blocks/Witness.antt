-- ===== src/Blocks/Witness.antt =====
-- The serialised script witness of a solution: `compact_size`, `read_compact`, `encode_witness` and
-- `decode_witness` of sidestr-core/src/block.rs. A byte is a number below 256; bytes joined by
-- shifts and `|` are sums, since their bits do not meet.
use sidestr_rs.Base.{
  ℕ, zero, suc, ◌+◌, ◌-◌, ◌*◌, ◌/◌, ◌%◌, ◌&&◌, Option, none, some, List, [], ◌∷◌, ◌++◌, ◌==◌, ltb,
  leb, if◌then◌else◌, length, get_elem?, take, drop, and_then, checked_add, u64_max,
}
use sidestr_rs.Base.Bytes.{Bytes}

-- `MAX_WITNESS_ITEMS`
abbrev pub max_witness_items : ℕ
max_witness_items = 256

unfoldable pub compact_size : ℕ → Bytes
compact_size n =
    if leb n 0xfc
    then n ∷ []
    else if leb n 0xffff
    then 0xfd ∷ n % 256 ∷ n / 256 ∷ []
    else 0xfe ∷ n % 256 ∷ n / 256 % 256 ∷ n / 65_536 % 256 ∷ n / 16_777_216 % 256 ∷ []

-- `(n >= low).then_some((n, at))`
abbrev pub minimal : ℕ → ℕ → ℕ → Option (ℕ × ℕ)
minimal low n at = if leb low n then some (n, at) else none

abbrev pub read_two : Bytes → ℕ → Option (ℕ × ℕ)
read_two b i =
    and_then (get_elem? b (i + 1))
      λ b0. and_then (get_elem? b (i + 2)) λ b1. minimal 0xfd (b0 + b1 * 256) (i + 3)

abbrev pub read_four : Bytes → ℕ → Option (ℕ × ℕ)
read_four b i = and_then (get_elem? b (i + 1)) λ b0. and_then (get_elem? b (i + 2)) λ b1.
    and_then (get_elem? b (i + 3)) λ b2.
      and_then (get_elem? b (i + 4))
        λ b3. minimal 0x1_0000 (b0 + b1 * 256 + b2 * 65_536 + b3 * 16_777_216) (i + 5)

-- A number read at `i`, and the position behind it.
unfoldable pub read_compact : Bytes → ℕ → Option (ℕ × ℕ)
read_compact b i = and_then (get_elem? b i) λ f.
    if leb f 0xfc
    then some (f, i + 1)
    else if f == 0xfd
    then read_two b i
    else if f == 0xfe
    then read_four b i
    else none

unfoldable pub encode_items : List Bytes → Bytes
unfolding compact_size
encode_items [] = []
encode_items (it ∷ items) = compact_size (length it) ++ (it ++ encode_items items)

unfoldable pub encode_witness : List Bytes → Bytes
unfolding compact_size encode_items
encode_witness items = compact_size (length items) ++ encode_items items

-- `bytes.get(at..end)`
abbrev pub slice : Bytes → ℕ → ℕ → Option Bytes
slice b at end =
    if leb at end && leb end (length b) then some (take (end - at) (drop at b)) else none

-- `n` items from `i` on, and the position behind them. A position is a 64-bit `usize`.
unfoldable pub read_items : ℕ → Bytes → ℕ → Option (List Bytes × ℕ)
unfolding read_compact
read_items zero b i = some ([], i)
read_items (suc n) b i = and_then (read_compact b i) λ (len, at).
    and_then (checked_add u64_max at len) λ end.
      and_then (slice b at end)
        λ it. and_then (read_items n b end) λ (items, last). some (it ∷ items, last)

abbrev pub all_read : Bytes → List Bytes × ℕ → Option (List Bytes)
all_read b (items, i) = if i == length b then some items else none

unfoldable pub decode_witness : Bytes → Option (List Bytes)
unfolding read_compact read_items
decode_witness b =
    and_then (read_compact b 0)
      λ (n, i). if ltb max_witness_items n then none else and_then (read_items n b i) (all_read b)
