-- ===== src/Blocks/RoundTrip.antt =====
-- A serialised witness is read back (`encode_witness` and `decode_witness` of
-- sidestr-core/src/block.rs).
use sidestr_rs.Base.{
  ℕ, ◌+◌, ◌-◌, ◌*◌, ◌/◌, ◌%◌, ◌≤◌, ◌<◌, ◌≡◌, refl, sym, ap, ◌∙◌, inl, inr, true, false, some, List,
  [], ◌∷◌, ◌++◌, ◌==◌, ltb, leb, length, u64_max, All, arith, Bool-cases, get_elem?-append,
  get_elem?-append_head, drop-append, take-append, length-append,
}
use mathlib.Core.List.{append-nil, append_assoc}
use sidestr_rs.Base.Bytes.{Bytes}
use sidestr_rs.Blocks.Witness.{
  compact_size, read_two, read_four, minimal, read_compact, encode_items, encode_witness, slice,
  read_items, decode_witness,
}

-- Four bytes of a number below 2^32 give it back.
four_bytes :
    (n : ℕ)
    → n < 4_294_967_296
    → n % 256 + n / 256 % 256 * 256 + n / 65_536 % 256 * 65_536 + n / 16_777_216 % 256 * 16_777_216
      ≡ n
four_bytes n h = omega arith

minimal-some : (low n m at : ℕ) → n ≡ m → low ≤ m → minimal low n at ≡ some (m, at)
minimal-some low n m at e h = ground (arith, e, h)

module _ (p rest : Bytes) where
  read_two_lem :
      (a b : ℕ)
      → read_two (p ++ 0xfd ∷ a ∷ b ∷ rest) (length p) ≡ minimal 0xfd (a + b * 256) (length p + 3)
  read_two_lem a b =
      rw
        (
          read_two,
          get_elem?-append p (0xfd ∷ a ∷ b ∷ rest) 1,
          get_elem?-append p (0xfd ∷ a ∷ b ∷ rest) 2,
        )
        refl

  read_four_lem :
      (a b c d : ℕ)
      → read_four (p ++ 0xfe ∷ a ∷ b ∷ c ∷ d ∷ rest) (length p)
        ≡ minimal 0x1_0000 (a + b * 256 + c * 65_536 + d * 16_777_216) (length p + 5)
  read_four_lem a b c d =
      let at = get_elem?-append p (0xfe ∷ a ∷ b ∷ c ∷ d ∷ rest) in
      rw (read_four, at 1, at 2, at 3, at 4) refl

  -- A number below 2^32 is read back wherever it stands.
  pub read_compact-compact_size :
      (n : ℕ)
      → n < 4_294_967_296
      → read_compact (p ++ (compact_size n ++ rest)) (length p)
        ≡ some (n, length p + length (compact_size n))
  unfolding read_compact compact_size
  read_compact-compact_size n h = elim (Bool-cases (leb n 0xfc)) [
    | inl one ↦ rw (compact_size, one, get_elem?-append_head p (n ∷ rest), one) refl
    | inr more ↦ elim (Bool-cases (leb n 0xffff)) [
      | inl two ↦
          rw (compact_size, more, two, get_elem?-append_head p (0xfd ∷ n % 256 ∷ n / 256 ∷ rest))
            (read_two_lem (n % 256) (n / 256)
              ∙ minimal-some 0xfd (n % 256 + n / 256 * 256) n (length p + 3) (omega arith)
                  (ground arith))
      | inr wide ↦
          rw
            (
              compact_size,
              more,
              wide,
              get_elem?-append_head p
                  (0xfe ∷ n % 256 ∷ n / 256 % 256 ∷ n / 65_536 % 256 ∷ n / 16_777_216 % 256 ∷ rest),
            )
            (read_four_lem (n % 256) (n / 256 % 256) (n / 65_536 % 256) (n / 16_777_216 % 256)
              ∙ minimal-some 0x1_0000 _ n (length p + 5) (four_bytes n h) (ground arith))
    ]
  ]

-- The same with the position and the bytes given by equations.
read_compact-eq :
    (b p rest : Bytes) (i n : ℕ)
    → b ≡ p ++ (compact_size n ++ rest)
    → i ≡ length p
    → n < 4_294_967_296
    → read_compact b i ≡ some (n, i + length (compact_size n))
read_compact-eq b p rest i n eb ei h = rw (eb, ei) (read_compact-compact_size p rest n h)

slice-eq :
    (b p it rest : Bytes) (at : ℕ)
    → b ≡ p ++ (it ++ rest)
    → at ≡ length p
    → slice b at (at + length it) ≡ some it
slice-eq b p it rest at eb ei =
    let size = length-append p (it ++ rest) in
    let inner = length-append it rest in
    let within : leb (length p + length it) (length (p ++ (it ++ rest))) ≡ true = ground arith in
    let ordered : leb (length p) (length p + length it) ≡ true = ground arith in
    let gap : (length p + length it) - length p ≡ length it = omega arith in
    rw (eb, ei, slice, within, ordered, gap, drop-append p (it ++ rest), take-append it rest) refl

abbrev pub Short : Bytes → Type 0
Short it = length it < 4_294_967_296

read_items-encode_items :
    (items : List Bytes) (b p rest : Bytes) (i : ℕ)
    → b ≡ p ++ (encode_items items ++ rest)
    → i ≡ length p
    → All Short items
    → i + length (encode_items items) ≤ u64_max
    → read_items (length items) b i ≡ some (items, i + length (encode_items items))
unfolding read_items encode_items
read_items-encode_items [] b p rest i eb ei short fits =
    let e : i + 0 ≡ i = omega arith in rw e refl
read_items-encode_items (it ∷ items) b p rest i eb ei short fits =
    let cs = compact_size (length it) in
    let e1 : b ≡ p ++ (cs ++ (it ++ (encode_items items ++ rest))) = eb ∙ simp append_assoc in
    let e2 : b ≡ (p ++ cs) ++ (it ++ (encode_items items ++ rest)) = e1 ∙ simp append_assoc in
    let e3 : b ≡ ((p ++ cs) ++ it) ++ (encode_items items ++ rest) = e2 ∙ simp append_assoc in
    let size = length-append cs (it ++ encode_items items) in
    let size2 = length-append it (encode_items items) in
    let at : ℕ = i + length cs in
    let at_eq : at ≡ length (p ++ cs) = omega (arith, ei, length-append p cs) in
    let end_eq : at + length it ≡ length ((p ++ cs) ++ it) =
      omega (arith, at_eq, length-append (p ++ cs) it) in
    let fits_here : leb (at + length it) u64_max ≡ true = ground (arith, fits, size, size2) in
    let rest_read =
      read_items-encode_items items b ((p ++ cs) ++ it) rest (at + length it) e3 end_eq short.1
        (omega (arith, fits, size, size2)) in
    rw
      (
        read_items,
        read_compact-eq b p _ i (length it) e1 ei short.0,
        fits_here,
        slice-eq b (p ++ cs) it _ at e2 at_eq,
        rest_read,
      )
      (ap (λ (n : ℕ). some (it ∷ items, n)) (omega (arith, size, size2)))

encode_witness_lem :
    (items : List Bytes) → encode_witness items ≡ compact_size (length items) ++ encode_items items
unfolding encode_witness
encode_witness_lem items = refl

-- At most 256 items of less than 2^32 bytes, whose bytes are less than 2^64, are read back from their
-- serialisation.
pub decode_witness-encode_witness :
    (items : List Bytes)
    → length items ≤ 256
    → All Short items
    → length (encode_witness items) ≤ u64_max
    → decode_witness (encode_witness items) ≡ some items
unfolding decode_witness
decode_witness-encode_witness items few short fits =
    let b = encode_witness items in
    let cs = compact_size (length items) in
    let e : b ≡ cs ++ encode_items items = encode_witness_lem items in
    let e' : b ≡ cs ++ (encode_items items ++ []) =
      e ∙ ap (λ l. cs ++ l) (sym (append-nil (encode_items items))) in
    let size : length b ≡ length cs + length (encode_items items) =
      ap length e ∙ length-append cs (encode_items items) in
    let head : read_compact b 0 ≡ some (length items, length cs) =
      read_compact-eq b [] (encode_items items) 0 (length items) e refl (omega (arith, few))
      ∙ ap (λ (n : ℕ). some (length items, n)) (omega arith) in
    let body =
      read_items-encode_items items b cs [] (length cs) e' refl short (omega (arith, size, fits)) in
    let not_many : ltb 256 (length items) ≡ false = ground (arith, few) in
    let whole : (length cs + length (encode_items items) == length b) ≡ true =
      ground (arith, size) in
    rw (decode_witness, head, not_many, body, whole) refl
