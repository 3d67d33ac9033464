-- ===== src/Overlays/Sequence.antt =====
-- `OverlayRules::sequence` of sidestr-core/src/overlays.rs: which transactions of a mempool stay,
-- and the temporary views that each of them leaves to the next.
use sidestr_rs.Base.{
  ℕ, suc, false, Option, none, some, List, [], ◌∷◌, leb, if◌then◌else◌, Result, ok, err, ◌>>=◌,
}
use sidestr_rs.Base.Bytes.{Bytes}
use sidestr_rs.Base.Map.{Map, lookup, insert, nat_ord}
use sidestr_rs.Bitcoin.{Bitcoin, Transaction, TxIn, TxOut, OutPoint, outpoint_ord}
use sidestr_rs.Assets.Carry.{AssetView}
use sidestr_rs.Assets.Check.{AssetError, MintPolicy, check_inner}
use sidestr_rs.Assets.View.{apply_transactions}
use sidestr_rs.Assets.Rule.{AssetTrace, trace_inputs}
use sidestr_rs.Pool.Transition.{PoolError}
use sidestr_rs.Pool.View.{PoolView, check, apply}
use sidestr_rs.Pool.Rule.{apply_effect}
use sidestr_rs.Markets.State.{Market, MarketView, apply as apply_market}
use sidestr_rs.Markets.Actions.{MarketError}
use sidestr_rs.Markets.View.{check as check_market}

-- Why a transaction was dropped, by the rule that refused it.
pub data Dropped : Type 0 where
  by_assets : AssetError → Dropped
  by_pool : PoolError → Dropped
  by_markets : MarketError → Dropped

-- The temporary views, and the scripts of the outputs that kept transactions create.
pub record Views : Type 0 where
  pub assets : AssetView
  pub pools : Option PoolView
  pub markets : Option MarketView
  pub created : Map OutPoint Bytes

pub record OverlaySequence : Type 0 where
  pub kept : List ℕ
  pub dropped : List (ℕ × Dropped)
  pub views : Views

unfoldable pub create_outputs : ℕ → ℕ → List TxOut → Map OutPoint Bytes → Map OutPoint Bytes
create_outputs txid vout [] created = created
create_outputs txid vout (o ∷ os) created =
    create_outputs txid (suc vout) os
      (insert (record { txid = txid; vout = vout }) o.script_pubkey created)

abbrev or_else : Option Bytes → Option Bytes → Option Bytes
or_else none b = b
or_else (some a) b = some a

abbrev pub map_error {ℓ} : {A : Type ℓ} {E : Type 0} → (E → Dropped) → Result E A → Result Dropped A
map_error f (ok a) = ok a
map_error f (err e) = err (f e)

abbrev put_script : ℕ → Option Bytes → Map ℕ Bytes → Map ℕ Bytes
put_script i none m = m
put_script i (some s) m = insert i s m

abbrev market_effect : MarketView → Option Market → MarketView
market_effect view none = view
market_effect view (some m) = apply_market view m

-- `from` is the height at which the markets rule begins, `height` that of the block to come, and
-- `script_of` the scripts of confirmed outputs.
module _ (btc : Bitcoin) (policy : MintPolicy) (height from : ℕ)
    (script_of : OutPoint → Option Bytes) where
  unfoldable pub input_scripts : Map OutPoint Bytes → ℕ → List TxIn → Map ℕ Bytes → Map ℕ Bytes
  input_scripts created i [] m = m
  input_scripts created i (inp ∷ is) m = input_scripts created (suc i) is (
      put_script i (or_else (lookup inp.previous_output created) (script_of inp.previous_output)) m)

  abbrev pub pools_after :
      Option PoolView → Transaction → AssetTrace → Result Dropped (Option PoolView)
  pools_after none tx trace = ok none
  pools_after (some view) tx trace =
      map_error by_pool (check btc view tx trace height false) >>= λ effect.
      ok (some (apply_effect view effect))

  abbrev pub markets_after :
      Map OutPoint Bytes
      → Option MarketView
      → Transaction
      → AssetTrace
      → Result Dropped (Option MarketView)
  markets_after created none tx trace = ok none
  markets_after created (some view) tx trace =
      if leb from height
      then (map_error by_markets
            (check_market btc view tx trace height (input_scripts created 0 tx.input []) false)
          >>= λ effect. ok (some (market_effect view effect)))
      else ok (some view)

  -- One transaction: the views that it leaves, or why it is dropped.
  unfoldable pub sequence_step : Views → Transaction → Result Dropped Views
  unfolding check_inner apply_transactions trace_inputs check check_market apply apply_market
      create_outputs input_scripts
  sequence_step v tx = do
    outputs ← map_error by_assets (check_inner btc v.assets policy tx []).1
    let trace : AssetTrace = record {
      inputs = trace_inputs v.assets tx.input [];
      outputs = outputs;
    }
    pools ← pools_after v.pools tx trace
    markets ← markets_after v.created v.markets tx trace
    ok (record {
      assets = (apply_transactions btc height policy v.assets (tx ∷ [])).0;
      pools = pools;
      markets = markets;
      created = create_outputs (btc.compute_txid tx) 0 tx.output v.created;
    })

  abbrev keep : ℕ → OverlaySequence → OverlaySequence
  keep i s = record s { kept = i ∷ s.kept }

  abbrev drop_at : ℕ → Dropped → OverlaySequence → OverlaySequence
  drop_at i why s = record s { dropped = (i, why) ∷ s.dropped }

  -- The loop from position `index` on: a dropped transaction leaves the views as they were.
  unfoldable pub sequence_from : ℕ → Views → List Transaction → OverlaySequence
  unfolding sequence_step
  sequence_from index v [] = record { kept = []; dropped = []; views = v }
  sequence_from index v (tx ∷ txs) = elim (sequence_step v tx) [
    | ok v' ↦ keep index (sequence_from (suc index) v' txs)
    | err why ↦ drop_at index why (sequence_from (suc index) v txs)
  ]

  unfoldable pub sequence :
      AssetView → Option PoolView → Option MarketView → List Transaction → OverlaySequence
  unfolding sequence_from
  sequence assets pools markets txs =
      sequence_from 0 (record { assets = assets; pools = pools; markets = markets; created = [] })
        txs
