-- ===== src/Blocks/HeightTrip.antt =====
-- A pushed height is read back (`height_push` and `coinbase_height` of sidestr-core/src/block.rs).
use sidestr_rs.Base.{
  ℕ, ◌+◌, ◌*◌, ◌/◌, ◌%◌, ◌≤◌, ◌<◌, ◌≡◌, refl, ap, ◌∙◌, inl, inr, some, [], ◌∷◌, ◌++◌, ◌==◌, ltb,
  first, ok, arith, Bool-cases,
}
use sidestr_rs.Base.Bytes.{Bytes}
use sidestr_rs.Bitcoin.{Transaction, TxIn}
use sidestr_rs.Blocks.Height.{le_bytes, padded, pushed, height_push, script_height, coinbase_height}

le_one : (h : ℕ) → 1 ≤ h → h < 256 → le_bytes 4 h ≡ h ∷ []
unfolding le_bytes
le_one h lo hi = ground arith

le_two : (h : ℕ) → 256 ≤ h → h < 65_536 → le_bytes 4 h ≡ h % 256 ∷ h / 256 ∷ []
unfolding le_bytes
le_two h lo hi = ground arith

le_three :
    (h : ℕ) → 65_536 ≤ h → h < 16_777_216 → le_bytes 4 h ≡ h % 256 ∷ h / 256 % 256 ∷ h / 65_536 ∷ []
unfolding le_bytes
le_three h lo hi = ground arith

le_four :
    (h : ℕ)
    → 16_777_216 ≤ h
    → h < 4_294_967_296
    → le_bytes 4 h ≡ h % 256 ∷ h / 256 % 256 ∷ h / 65_536 % 256 ∷ h / 16_777_216 ∷ []
unfolding le_bytes
le_four h lo hi = ground arith

module _ (rest : Bytes) where
  -- The bytes of a height, padded and pushed, are read as the number they spell.
  one_byte : (a : ℕ) → 1 ≤ a → a < 256 → script_height (pushed (padded (a ∷ [])) ++ rest) ≡ ok a
  one_byte a lo hi = elim (Bool-cases (ltb 127 a)) [
    | inl high ↦ rw high (ground arith)
    | inr low ↦ rw low (ground arith)
  ]

  two_bytes :
      (a b : ℕ)
      → a < 256
      → 1 ≤ b
      → b < 256
      → script_height (pushed (padded (a ∷ b ∷ [])) ++ rest) ≡ ok (a + b * 256)
  two_bytes a b ha lo hi = elim (Bool-cases (ltb 127 b)) [
    | inl high ↦ rw high (ground arith)
    | inr low ↦ rw low (ground arith)
  ]

  three_bytes :
      (a b c : ℕ)
      → a < 256
      → b < 256
      → 1 ≤ c
      → c < 256
      → script_height (pushed (padded (a ∷ b ∷ c ∷ [])) ++ rest) ≡ ok (a + b * 256 + c * 65_536)
  three_bytes a b c ha hb lo hi = elim (Bool-cases (ltb 127 c)) [
    | inl high ↦ rw high (ground arith)
    | inr low ↦ rw low (ground arith)
  ]

  four_bytes :
      (a b c d : ℕ)
      → a < 256
      → b < 256
      → c < 256
      → 1 ≤ d
      → d < 256
      → script_height (pushed (padded (a ∷ b ∷ c ∷ d ∷ [])) ++ rest)
        ≡ ok (a + b * 256 + c * 65_536 + d * 16_777_216)
  four_bytes a b c d ha hb hc lo hi = elim (Bool-cases (ltb 127 d)) [
    | inl high ↦ rw high (ground arith)
    | inr low ↦ rw low (ground arith)
  ]

  -- Every height that fits 32 bits.
  script_height-height_push :
      (h : ℕ) → h < 4_294_967_296 → script_height (height_push h ++ rest) ≡ ok h
  unfolding height_push
  script_height-height_push h fits = elim (Bool-cases (h == 0)) [
    | inl zero_height ↦ let e : h ≡ 0 = ground arith in rw e refl
    | inr more ↦ elim (Bool-cases (ltb h 256)) [
      | inl one ↦
          rw (le_one h (ground arith) (ground arith)) (one_byte h (ground arith) (ground arith))
      | inr more ↦ elim (Bool-cases (ltb h 65_536)) [
        | inl two ↦ rw (le_two h (ground arith) (ground arith)) (
            two_bytes (h % 256) (h / 256) (omega arith) (ground arith) (ground arith)
            ∙ ap ok (omega arith))
        | inr more ↦ elim (Bool-cases (ltb h 16_777_216)) [
          | inl three ↦ rw (le_three h (ground arith) (ground arith)) (
              three_bytes (h % 256) (h / 256 % 256) (h / 65_536) (omega arith) (omega arith)
                (ground arith) (ground arith)
              ∙ ap ok (omega arith))
          | inr more ↦ rw (le_four h (ground arith) fits) (
              four_bytes (h % 256) (h / 256 % 256) (h / 65_536 % 256) (h / 16_777_216) (omega arith)
                (omega arith) (omega arith) (ground arith) (omega arith)
              ∙ ap ok (omega arith))
        ]
      ]
    ]
  ]

-- The height that a coinbase script starts with is read back from it, for every 32-bit height and
-- whatever follows the push.
pub coinbase_height-height_push :
    (h : ℕ) (rest : Bytes) (coinbase : Transaction) (i : TxIn)
    → h < 4_294_967_296
    → first coinbase.input ≡ some i
    → i.script_sig ≡ height_push h ++ rest
    → coinbase_height coinbase ≡ ok h
unfolding coinbase_height
coinbase_height-height_push h rest coinbase i fits head script =
    rw (head, script) (script_height-height_push rest h fits)
