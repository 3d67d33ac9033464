-- ===== src/Pool/View.antt =====
-- `PoolView` of sidestr-core/src/pool.rs: the pools that the applied blocks leave, and the check of
-- one transaction against them.
use sidestr_rs.Base.{
  ℕ, ◌*◌, Bool, true, false, ◌&&◌, ◌||◌, not, Option, none, some, List, [], ◌∷◌, ◌==◌, ltb, leb,
  if◌then◌else◌, u64_max, saturating_add, checked_add, checked_sub, and_then, unwrap_or, length,
  get_elem?, first, is_empty, retain, Result, ok, err, ◌>>=◌, ◌>>◌, fail_if, ok_or,
}
use sidestr_rs.Base.Bytes.{Bytes, bytes_eq}
use sidestr_rs.Base.Map.{Map, lookup, insert, remove, contains_key, nat_ord}
use sidestr_rs.Bitcoin.{Bitcoin, Transaction, TxIn, OutPoint, outpoint_ord}
use sidestr_rs.Records.Grammar.{AssetRef, self_tx, id, PoolRecord, is_self}
use sidestr_rs.Records.Classify.{Classified, classify}
use sidestr_rs.Assets.Carry.{Carry, carry_of}
use sidestr_rs.Assets.Rule.{AssetTrace}
use sidestr_rs.Pool.Transition.{
  Pool, PoolError, coinbase_records, several_pool_coins, several_pool_records, opens_and_spends,
  not_a_pool_coin, not_one_asset, holds_own_shares, shares_overflow, opening_shares,
  names_unspent_pool, unknown_pool, not_recreated, not_its_asset, emptied, more_shares_destroyed,
  check_transition, isqrt,
}

pub record PoolView : Type 0 where
  pub pools : Map ℕ Pool
  pub by_outpoint : Map OutPoint ℕ

abbrev pub no_pools : PoolView
no_pools = record { pools = []; by_outpoint = [] }

-- `PoolView::contains`
abbrev pub contains : PoolView → ℕ → Bool
contains view pool = contains_key pool view.pools

abbrev pub forget_coin : Option Pool → Map OutPoint ℕ → Map OutPoint ℕ
forget_coin none by_outpoint = by_outpoint
forget_coin (some before) by_outpoint = remove before.outpoint by_outpoint

-- `PoolView::apply`
unfoldable pub apply : PoolView → Pool → PoolView
apply view pool = record {
  pools = insert pool.id pool view.pools;
  by_outpoint =
      insert pool.outpoint pool.id (forget_coin (lookup pool.id view.pools) view.by_outpoint);
}

-- `OP_TRUE`
abbrev pub pool_script : Bytes
pool_script = 0x51 ∷ []

-- The value of the output at `vout` where that is a pool coin.
unfoldable pub pool_coin : Transaction → ℕ → Option ℕ
pool_coin tx vout =
    and_then (get_elem? tx.output vout)
      λ o. if bytes_eq o.script_pubkey pool_script && leb 1 o.value then some o.value else none

-- A saturating sum of what a map of carries holds of the asset.
unfoldable pub sum_carry {ℓ} : {K : Type ℓ} → ℕ → ℕ → Map K Carry → ℕ
sum_carry asset sum [] = sum
sum_carry asset sum ((k, c) ∷ m) = sum_carry asset (saturating_add u64_max sum (carry_of asset c)) m

abbrev pub carry_in : AssetTrace → ℕ → ℕ
carry_in trace asset = sum_carry asset 0 trace.inputs

abbrev pub carry_out : AssetTrace → ℕ → ℕ
carry_out trace asset = sum_carry asset 0 trace.outputs

-- The pools whose coins the inputs spend.
abbrev with_pool : Option ℕ → List ℕ → List ℕ
with_pool none ids = ids
with_pool (some i) ids = i ∷ ids

unfoldable pub spent_pools : Map OutPoint ℕ → List TxIn → List ℕ
spent_pools by_outpoint [] = []
spent_pools by_outpoint (i ∷ is) =
    with_pool (lookup i.previous_output by_outpoint) (spent_pools by_outpoint is)

abbrev opening : Classified → Option (ℕ × PoolRecord)
opening cls = first (retain (λ (p : ℕ × PoolRecord). is_self p.1.pool) cls.pools)

abbrev continuing : Classified → Option (ℕ × PoolRecord)
continuing cls = first (retain (λ (p : ℕ × PoolRecord). not (is_self p.1.pool)) cls.pools)

-- `record.pool == AssetRef::Id(id)`
abbrev names : AssetRef → ℕ → Bool
names self_tx i = false
names (id j) i = j == i

-- The one asset that a carry holds.
abbrev pub sole_entry : Carry → Result PoolError (ℕ × ℕ)
sole_entry (e ∷ []) = ok e
sole_entry _ = err not_one_asset

-- What the output of a record's `vout` carries.
abbrev pub carried_at : AssetTrace → ℕ → Carry
carried_at trace vout = unwrap_or [] (lookup vout trace.outputs)

-- The amount of the pool's asset, where the coin carries that asset and no other.
abbrev pub only_amount : ℕ → Carry → Result PoolError ℕ
only_amount asset c =
    if not (length c == 1) || not (contains_key asset c)
    then err not_its_asset
    else ok (carry_of asset c)

-- `before.shares.checked_sub(shares_in).and_then(|n| n.checked_add(shares_out))`
abbrev pub shares_after : ℕ → ℕ → ℕ → Result PoolError ℕ
shares_after shares shares_in shares_out =
    ok_or more_shares_destroyed
      (and_then (checked_sub shares shares_in) λ n. checked_add u64_max n shares_out)

-- `u128::saturating_mul` of two 64-bit values, which never saturates.
abbrev pub opening_root : ℕ → ℕ → ℕ
opening_root sats assets = isqrt (sats * assets)

module _ (txid : ℕ) (tx : Transaction) (trace : AssetTrace) where
  -- The transaction opens a pool.
  unfoldable pub check_opening : ℕ → List ℕ → PoolRecord → Result PoolError Pool
  unfolding pool_coin sum_carry isqrt
  check_opening height spent record' = do
    fail_if (not (is_empty spent)) opens_and_spends
    output ← ok_or not_a_pool_coin (pool_coin tx record'.vout)
    entry ← sole_entry (carried_at trace record'.vout)
    fail_if (entry.0 == txid) holds_own_shares
    let shares = opening_root output entry.1
    fail_if (ltb u64_max shares) shares_overflow
    fail_if (not (carry_out trace txid == shares)) (opening_shares shares)
    ok (record {
      id = txid;
      asset = entry.0;
      sats = output;
      assets = entry.1;
      shares = shares;
      outpoint = record { txid = txid; vout = record'.vout };
      opened = height;
    })

  -- The transaction spends the coin of pool `i`, whose state is `before`, and recreates it at `vout`.
  unfoldable pub check_move : ℕ → Pool → ℕ → Result PoolError Pool
  unfolding pool_coin sum_carry check_transition
  check_move i before vout = do
    sats ← ok_or not_a_pool_coin (pool_coin tx vout)
    assets ← only_amount before.asset (carried_at trace vout)
    fail_if (assets == 0) emptied
    shares ← shares_after before.shares (carry_in trace i) (carry_out trace i)
    check_transition before sats assets shares
    ok (record {
      id = i;
      asset = before.asset;
      sats = sats;
      assets = assets;
      shares = shares;
      outpoint = record { txid = txid; vout = vout };
      opened = before.opened;
    })

module _ (btc : Bitcoin) where
  -- The coin of pool `i` is spent.
  unfoldable pub check_continuing :
      PoolView → Transaction → AssetTrace → Classified → ℕ → Result PoolError Pool
  unfolding check_move
  check_continuing view tx trace cls i = do
    before ← ok_or unknown_pool (lookup i view.pools)
    rec ← ok_or not_recreated (continuing cls)
    fail_if (not (names rec.1.pool i)) not_recreated
    check_move (btc.compute_txid tx) tx trace i before rec.1.vout

  abbrev check_effect :
      PoolView
      → Transaction
      → AssetTrace
      → ℕ
      → Classified
      → List ℕ
      → Option (ℕ × PoolRecord)
      → Option ℕ
      → Result PoolError Pool
  check_effect view tx trace height cls spent (some (v, r)) spent_id =
      check_opening (btc.compute_txid tx) tx trace height spent r
  check_effect view tx trace height cls spent none none = err names_unspent_pool
  check_effect view tx trace height cls spent none (some i) = check_continuing view tx trace cls i

  -- `PoolView::check`: the pool's new state, or `none` where the transaction touches no pool.
  unfoldable pub check :
      PoolView → Transaction → AssetTrace → ℕ → Bool → Result PoolError (Option Pool)
  unfolding spent_pools check_opening check_continuing
  check view tx trace height true =
      if is_empty (classify btc tx).pools then ok none else err coinbase_records
  check view tx trace height false = do
    let cls = classify btc tx
    let spent = spent_pools view.by_outpoint tx.input
    fail_if (ltb 1 (length spent)) several_pool_coins
    fail_if (ltb 1 (length cls.pools)) several_pool_records
    if is_empty spent && is_empty cls.pools
        then ok none
        else (check_effect view tx trace height cls spent (opening cls) (first spent) >>= λ pool.
            ok (some pool))
