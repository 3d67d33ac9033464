-- ===== src/Overlays/Policy.antt =====
-- `MintPolicy::allows` of sidestr-core/src/overlays.rs, on the views of the applied blocks.
use sidestr_rs.Base.{ℕ, Bool, true, false, ◌&&◌, ◌||◌, Option, none, some, ◌==◌, if◌then◌else◌, any}
use sidestr_rs.Bitcoin.{Bitcoin}
use sidestr_rs.Records.Market.{MarketRecord, split_pair}
use sidestr_rs.Records.Classify.{Classified, opens_pool}
use sidestr_rs.Pool.View.{PoolView, contains}
use sidestr_rs.Markets.State.{MarketView, contains as has_market, no_id_of}

abbrev pub pool_allows : Option PoolView → ℕ → ℕ → Classified → Bool
pool_allows none asset txid cls = false
pool_allows (some view) asset txid cls = ((asset == txid) && opens_pool cls) || contains view asset

module _ (btc : Bitcoin) where
  -- Only a split mints, and only the two assets of a known market.
  abbrev pub split_allows : MarketView → ℕ → MarketRecord → Bool
  split_allows view asset (split_pair market vout) =
      has_market view market && ((asset == market) || (asset == no_id_of btc market))
  split_allows view asset _ = false

  abbrev pub market_allows : Option MarketView → ℕ → Classified → Bool
  market_allows none asset cls = false
  market_allows (some view) asset cls =
      any (λ (r : ℕ × MarketRecord). split_allows view asset r.1) cls.markets

  unfoldable pub mint_allows : Option PoolView → Option MarketView → ℕ → ℕ → Classified → Bool
  unfolding no_id_of
  mint_allows pools markets asset txid cls =
      if pool_allows pools asset txid cls then true else market_allows markets asset cls
