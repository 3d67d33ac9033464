-- ===== src/Pool/Root.antt =====
-- `isqrt` of sidestr-core/src/pool.rs is the integer square root, and its fuel is enough.
use sidestr_rs.Base.{
  ℕ, zero, suc, ◌+◌, ◌-◌, ◌*◌, ◌/◌, ◌≤◌, ◌<◌, ◌≡◌, sym, ap, inl, inr, ltb, leb, leb→le, ltb→lt,
  arith, Bool-cases,
}
use sidestr_rs.Pool.Transition.{isqrt_loop, isqrt, div_ceil_2}

four_products : (a d : ℕ) → 4 * (a * (a + d)) ≤ (a + (a + d)) * (a + (a + d))
four_products a d = omega arith

-- Four times a product is at most the square of the sum.
amgm : (a b : ℕ) → 4 * (a * b) ≤ (a + b) * (a + b)
amgm a b = elim (Bool-cases (leb a b)) [
  | inl le ↦
      let e : b ≡ a + (b - a) = omega (arith, leb→le a b le) in rw e (four_products a (b - a))
  | inr gt ↦
      let lt : b ≤ a = ground arith in
      let e : a ≡ b + (a - b) = omega arith in rw e (omega (arith, four_products b (a - b)))
]

abbrev newton : ℕ → ℕ → ℕ
newton n x = (x + n / x) / 2

square_mono : (a b : ℕ) → a ≤ b → a * a ≤ b * b
square_mono a b h = grind arith

-- A Newton step never falls below the root.
newton-above : (n x : ℕ) → 1 ≤ x → n < (newton n x + 1) * (newton n x + 1)
newton-above n x h =
    let q : ℕ = n / x in
    let y : ℕ = newton n x in
    let below : n < x * (q + 1) = omega arith in
    let halves : x + (q + 1) ≤ 2 * (y + 1) = omega arith in
    omega (arith, amgm x (q + 1), square_mono (x + (q + 1)) (2 * (y + 1)) halves, below)

newton-pos : (n x : ℕ) → 2 ≤ n → 1 ≤ x → 1 ≤ newton n x
newton-pos n x hn hx = elim (Bool-cases (leb x 1)) [
  | inl one ↦ let e : x ≡ 1 = omega (arith, leb→le x 1 one) in rw e (omega arith)
  | inr more ↦ let two : 2 ≤ x = ground arith in omega arith
]

-- Where the step does not fall the root is reached.
newton-stop : (n x : ℕ) → 1 ≤ x → x ≤ newton n x → x * x ≤ n
newton-stop n x hx h =
    let q : ℕ = n / x in
    let le : x ≤ q = omega arith in let step : x * x ≤ x * q = grind arith in omega arith

div_self : (n : ℕ) → 1 ≤ n → n / n ≡ 1
div_self n h = grind arith

-- The loop's result, from any state that it meets: `x` is no smaller than the root, and `y` is the
-- Newton step from `x`.
isqrt_loop_lem :
    (fuel n x : ℕ)
    → 2 ≤ n
    → 1 ≤ x
    → x ≤ fuel
    → n < (x + 1) * (x + 1)
    → let r = isqrt_loop fuel n x (newton n x) in (r * r ≤ n) × (n < (r + 1) * (r + 1))
unfolding isqrt_loop
isqrt_loop_lem zero n x hn hx hf ha = absurd (omega arith)
isqrt_loop_lem (suc fuel) n x hn hx hf ha = elim (Bool-cases (ltb (newton n x) x)) [
  | inl falls ↦
      rw (falls, isqrt_loop)
        (isqrt_loop_lem fuel n (newton n x) hn (newton-pos n x hn hx)
          (omega (arith, ltb→lt (newton n x) x falls)) (newton-above n x hx))
  | inr stops ↦ rw (stops, isqrt_loop) (newton-stop n x hx (ground arith), ha)
]

-- `isqrt n` is the largest number whose square is at most `n`, for every `n`.
pub isqrt_lem : (n : ℕ) → (isqrt n * isqrt n ≤ n) × (n < (isqrt n + 1) * (isqrt n + 1))
unfolding isqrt
isqrt_lem n = elim (Bool-cases (ltb n 2)) [
  | inl small ↦
      rw (small, isqrt)
        (elim (Bool-cases (leb n 0)) [
          | inl zero_root ↦
              let e : n ≡ 0 = omega (arith, leb→le n 0 zero_root) in rw e (omega arith)
          | inr one ↦ let e : n ≡ 1 = ground arith in rw e (omega arith)
        ])
  | inr large ↦
      let two : 2 ≤ n = ground arith in
      let start : div_ceil_2 n ≡ newton n n =
        ap (λ (q : ℕ). (n + q) / 2) (sym (div_self n (omega arith))) in
      rw (large, isqrt, start) (isqrt_loop_lem n n n two (omega arith) (omega arith) (omega arith))
]
