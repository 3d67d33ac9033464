-- ===== src/Pool/Transition.antt =====
-- The arithmetic of a pool's moves: `check_transition` and `isqrt` of sidestr-core/src/pool.rs.
use sidestr_rs.Base.{
  ℕ, zero, suc, ◌+◌, ◌-◌, ◌*◌, ◌/◌, ◌%◌, ◌^◌, min, true, false, ◌||◌, ltb, ◌==◌, if◌then◌else◌,
  Result, ◌>>◌, fail_if,
}
use sidestr_rs.Bitcoin.{OutPoint}

pub record Pool : Type 0 where
  pub id : ℕ
  pub asset : ℕ
  pub sats : ℕ
  pub assets : ℕ
  pub shares : ℕ
  pub outpoint : OutPoint
  pub opened : ℕ

pub data PoolError : Type 0 where
  coinbase_records several_pool_coins several_pool_records opens_and_spends : PoolError
  not_a_pool_coin not_one_asset holds_own_shares shares_overflow : PoolError
  opening_shares : ℕ → PoolError
  names_unspent_pool unknown_pool not_recreated not_its_asset emptied : PoolError
  more_shares_destroyed swap_product add_shrinks : PoolError
  add_above_cap : ℕ → PoolError
  remove_grows remove_above_part : PoolError
  division_panic : PoolError

-- A `u128` product, which wraps in a release build.
abbrev pub mul_u128 : ℕ → ℕ → ℕ
mul_u128 a b = (a * b) % 2 ^ 128

-- What a side of the pool counts for in a swap: 0.3 % of what was added is held back.
abbrev pub after_fee : ℕ → ℕ → ℕ
after_fee x x2 = 1000 * x2 - 3 * (x2 - x)

unfoldable pub check_swap : ℕ → ℕ → ℕ → ℕ → Result PoolError (Unit {0})
check_swap x y x2 y2 =
    fail_if (ltb (mul_u128 (after_fee x x2) (after_fee y y2)) (mul_u128 (1_000_000 * x) y))
      swap_product

-- At most this many shares for what was added. A division by zero would panic.
abbrev pub add_cap : ℕ → ℕ → ℕ → ℕ → ℕ → ℕ
add_cap x y s x2 y2 = min ((x2 - x) * s / x) ((y2 - y) * s / y)

unfoldable pub check_add : ℕ → ℕ → ℕ → ℕ → ℕ → ℕ → Result PoolError (Unit {0})
check_add x y s x2 y2 s2 =
    fail_if (ltb x2 x || ltb y2 y) add_shrinks
    >> (fail_if ((x == 0) || (y == 0)) division_panic
        >> fail_if (ltb (add_cap x y s x2 y2) (s2 - s)) (add_above_cap (add_cap x y s x2 y2)))

-- Here `s` is the larger of two numbers, so it is no zero.
unfoldable pub check_remove : ℕ → ℕ → ℕ → ℕ → ℕ → ℕ → Result PoolError (Unit {0})
check_remove x y s x2 y2 s2 =
    fail_if (ltb x x2 || ltb y y2) remove_grows
    >> fail_if (ltb (x * (s - s2) / s) (x - x2) || ltb (y * (s - s2) / s) (y - y2))
        remove_above_part

unfoldable pub check_transition : Pool → ℕ → ℕ → ℕ → Result PoolError (Unit {0})
unfolding check_swap check_add check_remove
check_transition before sats assets shares =
    if shares == before.shares
    then check_swap before.sats before.assets sats assets
    else if ltb before.shares shares
    then check_add before.sats before.assets before.shares sats assets shares
    else check_remove before.sats before.assets before.shares sats assets shares

-- `while y < x { x = y; y = (x + n / x) / 2 }`, on fuel; what is left is `x`.
unfoldable pub isqrt_loop : ℕ → ℕ → ℕ → ℕ → ℕ
isqrt_loop zero n x y = x
isqrt_loop (suc fuel) n x y = elim (ltb y x) [
  | true ↦ isqrt_loop fuel n y ((y + n / y) / 2)
  | false ↦ x
]

-- `x.div_ceil(2)`
abbrev pub div_ceil_2 : ℕ → ℕ
div_ceil_2 x = (x + 1) / 2

-- The loop lowers `x` at each round, so `n` rounds are enough.
unfoldable pub isqrt : ℕ → ℕ
unfolding isqrt_loop
isqrt n = if ltb n 2 then n else isqrt_loop n n n (div_ceil_2 n)
