-- ===== src/Markets/Rule.antt =====
-- `MarketsRule` of sidestr-core/src/markets.rs: a block's transactions against the markets.
use sidestr_rs.Base.{
  ℕ, suc, Bool, not, Option, none, some, List, [], ◌∷◌, ◌++◌, ◌==◌, ltb, if◌then◌else◌, length,
  find, retain, unwrap_or, Result, ok, err, ◌>>=◌,
}
use sidestr_rs.Base.Bytes.{Bytes}
use sidestr_rs.Base.Map.{Map, lookup, insert, nat_ord}
use sidestr_rs.Bitcoin.{Bitcoin, Transaction, TxOut}
use sidestr_rs.Assets.Rule.{
  AssetTrace, Block, Verdict, valid, invalid, crashed, Held, register_market_assets,
}
use sidestr_rs.Markets.State.{Market, MarketView, apply, contains, no_id_of}
use sidestr_rs.Markets.Actions.{MarketError, panicked}
use sidestr_rs.Markets.View.{check}

pub record Candidate : Type 0 where
  pub hash : ℕ
  pub view : MarketView
  pub opened : List ℕ

pub record MarketHeld : Type 0 where
  pub view : MarketView
  pub pending : List Candidate

abbrev pub is_hash : ℕ → Candidate → Bool
is_hash h c = c.hash == h

-- `ctx.spending.resolved`: transaction index, input index and the coin that the input spends.
abbrev pub Resolved : Type 0
Resolved = List (ℕ × ℕ × TxOut)

-- The coins' scripts by transaction and input.
unfoldable pub scripts_of : Resolved → Map ℕ (Map ℕ Bytes) → Map ℕ (Map ℕ Bytes)
scripts_of [] m = m
scripts_of ((ti, ii, o) ∷ rs) m =
    scripts_of rs (insert ti (insert ii o.script_pubkey (unwrap_or [] (lookup ti m))) m)

-- A candidate's view, and the markets that it opens in order.
abbrev pub apply_effect : MarketView × List ℕ → Option Market → MarketView × List ℕ
apply_effect (next, opened) none = (next, opened)
apply_effect (next, opened) (some m) =
    (apply next m, if contains next m.id then opened else opened ++ m.id ∷ [])

module _ (btc : Bitcoin) (height : ℕ) where
  unfoldable pub check_from :
      Map ℕ (Map ℕ Bytes)
      → ℕ
      → MarketView × List ℕ
      → List Transaction
      → List AssetTrace
      → Result MarketError (MarketView × List ℕ)
  unfolding check apply
  check_from scripts index next [] traces = ok next
  check_from scripts index next (tx ∷ txs) [] = ok next
  check_from scripts index next (tx ∷ txs) (trace ∷ traces) =
      check btc next.0 tx trace height (unwrap_or [] (lookup index scripts)) (index == 0)
      >>= λ effect. check_from scripts (suc index) (apply_effect next effect) txs traces

  abbrev keep_candidate :
      MarketHeld → ℕ → Result MarketError (MarketView × List ℕ) → MarketHeld × Verdict
  keep_candidate held hash (ok (next, opened)) = (
    record held {
      pending =
          retain (λ c. not (is_hash hash c)) held.pending
          ++ record { hash = hash; view = next; opened = opened } ∷ [];
    },
    valid,
  )
  keep_candidate held hash (err panicked) = (held, crashed)
  keep_candidate held hash (err e) = (held, invalid)

  -- `BlockRule::check` of a rule that is in force from height `from` on.
  unfoldable pub check_block :
      ℕ → MarketHeld → Block → Resolved → Option (List AssetTrace) → MarketHeld × Verdict
  unfolding check_from scripts_of
  check_block from held block resolved none =
      if ltb height from then (held, valid) else (held, invalid)
  check_block from held block resolved (some traces) =
      if ltb height from
      then (held, valid)
      else if not (length traces == length block.txdata)
      then (held, invalid)
      else keep_candidate held block.hash
          (check_from (scripts_of resolved []) 0 (held.view, []) block.txdata traces)

  -- The markets that a block opened become assets of the assets rule.
  unfoldable pub register_all : List ℕ → Held → Held
  unfolding register_market_assets no_id_of
  register_all [] assets = assets
  register_all (m ∷ ms) assets =
      register_all ms (register_market_assets m (no_id_of btc m) height assets)

  abbrev take_candidate : MarketHeld → Held → Option Candidate → MarketHeld × Held
  take_candidate held assets (some c) =
      (record { view = c.view; pending = [] }, register_all c.opened assets)
  take_candidate held assets none = (record { view = held.view; pending = [] }, assets)

  -- `BlockRule::applied`, on the markets and on the assets that they share.
  unfoldable pub applied : ℕ → MarketHeld → Held → ℕ → MarketHeld × Held
  unfolding register_all
  applied from held assets hash =
      if ltb height from
      then (held, assets)
      else take_candidate held assets (find (is_hash hash) held.pending)
