-- ===== src/Pool/Life.antt =====
-- A pool over any number of moves (`PoolView::check` of sidestr-core/src/pool.rs): what a share is
-- worth from one state to any later one.
use sidestr_rs.Base.{
  ℕ, ◌+◌, ◌*◌, ◌≤◌, ◌≡◌, inl, inr, Option, none, some, ◌==◌, leb, leb→le, arith, Bool-cases, ok,
  >>=-eq-ok, fail_if-eq-ok, ok_or, ok-injective,
}
use sidestr_rs.Bitcoin.{Transaction}
use sidestr_rs.Assets.Rule.{AssetTrace}
use sidestr_rs.Pool.Transition.{Pool, PoolError, not_a_pool_coin, emptied, check_transition}
use sidestr_rs.Pool.View.{
  pool_coin, only_amount, carried_at, shares_after, carry_in, carry_out, check_move,
}
use sidestr_rs.Pool.Value.{WorthKept, max_money, max_amount, check_transition-WorthKept}
use native.Mathlib.Nat.{mul-le-mul, mul-le-mul_right}

cancel : (t a b : ℕ) → 1 ≤ t → a * t ≤ b * t → a ≤ b
cancel t a b ht h = elim (Bool-cases (leb a b)) [
  | inl le ↦ leb→le a b le
  | inr gt ↦ let more : b + 1 ≤ a = ground arith in absurd (omega (arith, mul-le-mul_right t more))
]

-- Worth is kept along two moves where the state between them holds something on both sides.
chain : (a b c s t u : ℕ) → 1 ≤ b → a * t ≤ b * s → b * u ≤ c * t → a * u ≤ c * s
chain a b c s t u hb h k = elim (Bool-cases (leb t 0)) [
  | inl gone ↦
      let et : t ≡ 0 = omega (arith, leb→le t 0 gone) in
      let ec : c * t ≡ 0 = rw et (omega arith) in
      let eu : u ≡ 0 = omega (arith, mul-le-mul_right u hb) in rw eu (omega arith)
  | inr there ↦
      let ht : 1 ≤ t = ground arith in
      cancel t (a * u) (c * s) ht (omega (arith, mul-le-mul_right u h, mul-le-mul_right s k))
]

pool_coin-pos : (tx : Transaction) (vout : ℕ) {v : ℕ} → pool_coin tx vout ≡ some v → 1 ≤ v
unfolding pool_coin
pool_coin-pos tx vout e = ground arith

ok_or-some : (e : PoolError) (o : Option ℕ) {n : ℕ} → ok_or e o ≡ ok n → o ≡ some n
ok_or-some e none h = cc
ok_or-some e (some n) h = ground arith

-- A pool that holds what the sums of money and the tallies allow, and something on both sides.
abbrev pub Bounded : Pool → Type 0
Bounded p = (1 ≤ p.sats) × (p.sats ≤ max_money) × (1 ≤ p.assets) × (p.assets ≤ max_amount)

abbrev pub Worth : Pool → Pool → Type 0
Worth p q = WorthKept p.sats p.assets p.shares q.sats q.assets q.shares

module _ (txid : ℕ) (tx : Transaction) (trace : AssetTrace) where
  -- A move that is accepted keeps the pool's id, asset and opening height, leaves something on both
  -- sides and keeps the worth of a share, where both states are within the sums of money and the
  -- largest tally amount.
  pub check_move_lem :
      (i vout : ℕ) (p : Pool) {q : Pool}
      → check_move txid tx trace i p vout ≡ ok q
      → p.sats ≤ max_money
      → p.assets ≤ max_amount
      → q.sats ≤ max_money
      → q.assets ≤ max_amount
      → (q.id ≡ i)
        × (q.asset ≡ p.asset)
        × (q.opened ≡ p.opened)
        × (1 ≤ q.sats)
        × (1 ≤ q.assets)
        × Worth p q
  unfolding check_move
  check_move_lem i vout p {q} e hx hy hx2 hy2 =
      let (sats, coin, e1) = >>=-eq-ok (ok_or not_a_pool_coin (pool_coin tx vout)) _ e in
      let (assets, only, e2) = >>=-eq-ok (only_amount p.asset (carried_at trace vout)) _ e1 in
      let (full, e3) = fail_if-eq-ok (assets == 0) emptied _ e2 in
      let (shares, left, e4) =
        >>=-eq-ok (shares_after p.shares (carry_in trace i) (carry_out trace i)) _ e3 in
      let (_, moved, e5) = >>=-eq-ok (check_transition p sats assets shares) _ e4 in
      let made = ok-injective e5 in
      let ex : q.sats ≡ sats = ground arith in
      let ey : q.assets ≡ assets = ground arith in
      let es : q.shares ≡ shares = ground arith in
      let worth : WorthKept p.sats p.assets p.shares sats assets shares =
        check_transition-WorthKept p sats assets shares hx hy (omega arith) (omega arith) moved in
      let pos : 1 ≤ sats =
        pool_coin-pos tx vout (ok_or-some not_a_pool_coin (pool_coin tx vout) coin) in
      (ground arith, ground arith, ground arith, omega arith, ground arith, rw (ex, ey, es) worth)

-- The states of a pool from one on: each later one by an accepted move.
pub data PoolLife (first : Pool) : Pool → Type 0 where
  here : PoolLife first first
  moves :
      {p q : Pool} (txid : ℕ) (tx : Transaction) (trace : AssetTrace) (vout : ℕ)
      → PoolLife first p
      → check_move txid tx trace p.id p vout ≡ ok q
      → q.sats ≤ max_money
      → q.assets ≤ max_amount
      → PoolLife first q

-- From any state of a pool to any later one the worth of a share does not fall, and something is
-- left on both sides, where every state is within the sums of money and the largest tally amount.
pub PoolLife-Worth :
    {first last : Pool} → Bounded first → PoolLife first last → Worth first last × Bounded last
PoolLife-Worth {first} b here = (omega arith, b)
PoolLife-Worth {first} b (moves {p} {q} txid tx trace vout life e hx hy) =
    let (worth, bounds) = PoolLife-Worth b life in
    let (same_id, same_asset, same_height, sats, assets, step) =
      check_move_lem txid tx trace p.id vout p e bounds.1 bounds.3 hx hy in
    (
      chain (first.sats * first.assets) (p.sats * p.assets) (q.sats * q.assets)
          (first.shares * first.shares) (p.shares * p.shares) (q.shares * q.shares)
          (mul-le-mul bounds.0 bounds.2) worth step,
      (sats, hx, assets, hy),
    )
