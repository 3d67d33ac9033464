-- ===== src/Pool/Rule.antt =====
-- `PoolRule` of sidestr-core/src/pool.rs: a block's transactions against the pools, with the traces
-- that the assets rule keeps for the same block.
use sidestr_rs.Base.{
  ℕ, suc, Bool, not, Option, none, some, List, [], ◌∷◌, ◌++◌, ◌==◌, if◌then◌else◌, length, find,
  retain, Result, ok, err, ◌>>=◌,
}
use sidestr_rs.Bitcoin.{Bitcoin, Transaction}
use sidestr_rs.Assets.Rule.{AssetTrace, Block, Verdict, valid, invalid, crashed}
use sidestr_rs.Pool.Transition.{Pool, PoolError, division_panic}
use sidestr_rs.Pool.View.{PoolView, apply, check}

pub record Candidate : Type 0 where
  pub hash : ℕ
  pub view : PoolView

pub record PoolHeld : Type 0 where
  pub view : PoolView
  pub pending : List Candidate

abbrev pub is_hash : ℕ → Candidate → Bool
is_hash h c = c.hash == h

abbrev pub apply_effect : PoolView → Option Pool → PoolView
apply_effect view none = view
apply_effect view (some pool) = apply view pool

module _ (btc : Bitcoin) (height : ℕ) where
  -- The loop over the transactions and their traces, from position `index` on.
  unfoldable pub check_from :
      ℕ → PoolView → List Transaction → List AssetTrace → Result PoolError PoolView
  unfolding check apply
  check_from index next [] traces = ok next
  check_from index next (tx ∷ txs) [] = ok next
  check_from index next (tx ∷ txs) (trace ∷ traces) =
      check btc next tx trace height (index == 0) >>= λ effect.
      check_from (suc index) (apply_effect next effect) txs traces

  abbrev keep_candidate : PoolHeld → ℕ → Result PoolError PoolView → PoolHeld × Verdict
  keep_candidate held hash (ok next) = (
    record held {
      pending =
          retain (λ c. not (is_hash hash c)) held.pending
          ++ record { hash = hash; view = next } ∷ [];
    },
    valid,
  )
  keep_candidate held hash (err division_panic) = (held, crashed)
  keep_candidate held hash (err e) = (held, invalid)

  -- `BlockRule::check`, given what the assets rule traced for the block.
  unfoldable pub check_block : PoolHeld → Block → Option (List AssetTrace) → PoolHeld × Verdict
  unfolding check_from
  check_block held block none = (held, invalid)
  check_block held block (some traces) =
      if not (length traces == length block.txdata)
      then (held, invalid)
      else keep_candidate held block.hash (check_from 0 held.view block.txdata traces)

-- `BlockRule::applied`: what was pending is dropped, whichever block was applied.
unfoldable pub applied : PoolHeld → ℕ → PoolHeld
applied held hash = elim (find (is_hash hash) held.pending) [
  | some c ↦ record { view = c.view; pending = [] }
  | none ↦ record { view = held.view; pending = [] }
]
