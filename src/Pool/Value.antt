-- ===== src/Pool/Value.antt =====
-- What a share of a pool is worth never falls (`check_transition` of sidestr-core/src/pool.rs). With
-- `x` sats, `y` units and `s` shares the worth is measured by `x * y` over `s * s`.
use sidestr_rs.Base.{
  ℕ, ◌+◌, ◌-◌, ◌*◌, ◌/◌, ◌%◌, ◌^◌, ◌≤◌, ◌<◌, ◌≡◌, ap, inl, inr, Bool, false, ◌||◌, ◌==◌, ltb, arith,
  Bool-cases, Result, ok, ◌>>◌, fail_if, fail_if-eq-ok, fail_if-ok,
}
use sidestr_rs.Pool.Transition.{
  Pool, PoolError, swap_product, add_shrinks, add_above_cap, division_panic, remove_grows,
  remove_above_part, after_fee, check_swap, check_add, check_remove, check_transition, add_cap,
}
use native.Mathlib.Nat.{mul-le-mul, mul-le-mul_left, mul-le-mul_right, mul-div-le, mod-eq_of_lt}

-- The largest sum of outputs (`Params::max_money` of sidestr-core/src/rules.rs) and the largest
-- amount of a tally bound what a pool holds, so that no product of the swap test wraps.
abbrev pub max_money : ℕ
max_money = 2_100_000_000_000_000

abbrev pub max_amount : ℕ
max_amount = 9_007_199_254_740_991

ltb-false→le : (a b : ℕ) → ltb a b ≡ false → b ≤ a
ltb-false→le a b h = ground arith

product_below : (a b : ℕ) → a ≤ 1000 * max_money → b ≤ 1000 * max_amount → a * b < 2 ^ 128
product_below a b ha hb = omega (arith, mul-le-mul ha hb)

fee_product : (x y x2 y2 : ℕ) → after_fee x x2 * after_fee y y2 ≤ 1000 * x2 * (1000 * y2)
fee_product x y x2 y2 = mul-le-mul (omega arith) (omega arith)

-- A swap that is accepted keeps the product of the two sides.
pub check_swap-product :
    (x y x2 y2 : ℕ)
    → x ≤ max_money
    → x2 ≤ max_money
    → y ≤ max_amount
    → y2 ≤ max_amount
    → check_swap x y x2 y2 ≡ ok tt
    → x * y ≤ x2 * y2
unfolding check_swap
check_swap-product x y x2 y2 hx hx2 hy hy2 e =
    let left : ℕ = after_fee x x2 * after_fee y y2 in
    let right : ℕ = 1_000_000 * x * y in
    let holds = fail_if-ok (ltb (left % 2 ^ 128) (right % 2 ^ 128)) swap_product e in
    let no_less : right % 2 ^ 128 ≤ left % 2 ^ 128 = ltb-false→le _ _ holds in
    let left_fits : left < 2 ^ 128 =
      product_below (after_fee x x2) (after_fee y y2) (omega arith) (omega arith) in
    let right_fits : 1000 * x * (1000 * y) < 2 ^ 128 =
      product_below (1000 * x) (1000 * y) (omega arith) (omega arith) in
    let right_whole : right % 2 ^ 128 ≡ right = mod-eq_of_lt (omega arith) in
    omega (arith, mod-eq_of_lt left_fits, fee_product x y x2 y2)

-- The worth of a share after a move, cross-multiplied: no less than before.
abbrev pub WorthKept : ℕ → ℕ → ℕ → ℕ → ℕ → ℕ → Type 0
WorthKept x y s x2 y2 s2 = x * y * (s2 * s2) ≤ x2 * y2 * (s * s)

-- Both sides in proportion.
proportional : (x y s x2 y2 s2 : ℕ) → x * s2 ≤ x2 * s → y * s2 ≤ y2 * s → WorthKept x y s x2 y2 s2
proportional x y s x2 y2 s2 hx hy = omega (arith, mul-le-mul hx hy)

-- What is added covers the new shares on each side.
add_side : (x s x2 s2 : ℕ) → 1 ≤ x → x ≤ x2 → s ≤ s2 → s2 - s ≤ (x2 - x) * s / x → x * s2 ≤ x2 * s
add_side x s x2 s2 hx hg hs h =
    let dx : ℕ = x2 - x in
    let ds : ℕ = s2 - s in
    let part : x * (dx * s / x) ≤ dx * s = mul-div-le (dx * s) x in
    let cover : x * ds ≤ dx * s = omega (arith, mul-le-mul_left x h) in
    let ex : x2 ≡ x + dx = omega arith in
    let es : s2 ≡ s + ds = omega arith in rw (ex, es) (omega arith)

-- What is taken out is no more than the destroyed shares' part.
remove_side : (x s x2 s2 : ℕ) → x2 ≤ x → s2 ≤ s → x - x2 ≤ x * (s - s2) / s → x * s2 ≤ x2 * s
remove_side x s x2 s2 hg hs h =
    let dx : ℕ = x - x2 in
    let ds : ℕ = s - s2 in
    let part : s * (x * ds / s) ≤ x * ds = mul-div-le (x * ds) s in
    let cover : s * dx ≤ x * ds = omega (arith, mul-le-mul_left s h) in
    let ex : x ≡ x2 + dx = omega arith in
    let es : s ≡ s2 + ds = omega arith in
    omega (arith, ap (λ (t : ℕ). x * t) es, ap (λ (t : ℕ). t * s) ex)

check_add-WorthKept :
    (x y s x2 y2 s2 : ℕ) → s ≤ s2 → check_add x y s x2 y2 s2 ≡ ok tt → WorthKept x y s x2 y2 s2
unfolding check_add
check_add-WorthKept x y s x2 y2 s2 hs e =
    let cap : ℕ = add_cap x y s x2 y2 in
    let last : Result PoolError (Unit {0}) = fail_if (ltb cap (s2 - s)) (add_above_cap cap) in
    let (grown, e') =
      fail_if-eq-ok (ltb x2 x || ltb y2 y) add_shrinks
        (fail_if ((x == 0) || (y == 0)) division_panic >> last) e in
    let (divides, e'') = fail_if-eq-ok ((x == 0) || (y == 0)) division_panic last e' in
    let capped = fail_if-ok (ltb cap (s2 - s)) (add_above_cap cap) e'' in
    let below : s2 - s ≤ cap = ltb-false→le _ _ capped in
    let sides : (1 ≤ x) × (1 ≤ y) × (x ≤ x2) × (y ≤ y2) = ground arith in
    proportional x y s x2 y2 s2 (add_side x s x2 s2 sides.0 sides.2 hs (omega arith))
      (add_side y s y2 s2 sides.1 sides.3 hs (omega arith))

check_remove-WorthKept :
    (x y s x2 y2 s2 : ℕ) → s2 ≤ s → check_remove x y s x2 y2 s2 ≡ ok tt → WorthKept x y s x2 y2 s2
unfolding check_remove
check_remove-WorthKept x y s x2 y2 s2 hs e =
    let above : Bool = ltb (x * (s - s2) / s) (x - x2) || ltb (y * (s - s2) / s) (y - y2) in
    let (shrunk, e') =
      fail_if-eq-ok (ltb x x2 || ltb y y2) remove_grows (fail_if above remove_above_part) e in
    let parted = fail_if-ok above remove_above_part e' in
    let sides : (x2 ≤ x) × (y2 ≤ y) = ground arith in
    let parts : (x - x2 ≤ x * (s - s2) / s) × (y - y2 ≤ y * (s - s2) / s) = ground arith in
    proportional x y s x2 y2 s2 (remove_side x s x2 s2 sides.0 hs parts.0)
      (remove_side y s y2 s2 sides.1 hs parts.1)

-- Whatever move of a pool is accepted (a swap, an addition or a removal), the product of the two
-- sides over the square of the shares is no less than before, where both states hold at most the
-- largest sum of money in sats and the largest tally amount in units.
pub check_transition-WorthKept :
    (before : Pool) (sats assets shares : ℕ)
    → before.sats ≤ max_money
    → before.assets ≤ max_amount
    → sats ≤ max_money
    → assets ≤ max_amount
    → check_transition before sats assets shares ≡ ok tt
    → WorthKept before.sats before.assets before.shares sats assets shares
unfolding check_transition
check_transition-WorthKept before sats assets shares hx hy hx2 hy2 e =
    let x : ℕ = before.sats in
    let y : ℕ = before.assets in
    let s : ℕ = before.shares in
    elim (Bool-cases (shares == s)) [
      | inl same ↦
          let kept : x * y ≤ sats * assets =
            check_swap-product x y sats assets hx hx2 hy hy2 (rw (same, check_transition) at e) in
          let es : shares ≡ s = ground arith in rw es (mul-le-mul_right (s * s) kept)
      | inr differ ↦ elim (Bool-cases (ltb s shares)) [
        | inl more ↦
            check_add-WorthKept x y s sats assets shares (ground arith)
              (rw (differ, more, check_transition) at e)
        | inr less ↦
            check_remove-WorthKept x y s sats assets shares (ground arith)
              (rw (differ, less, check_transition) at e)
      ]
    ]
