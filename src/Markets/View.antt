-- ===== src/Markets/View.antt =====
-- `MarketView::check` of sidestr-core/src/markets.rs: one transaction against the markets.
use sidestr_rs.Base.{
  ℕ, Bool, true, false, ◌&&◌, not, Option, none, some, List, ◌==◌, ltb, if◌then◌else◌, length,
  first, is_empty, Result, ok, err, ◌>>=◌, ◌>>◌, fail_if, ok_or,
}
use sidestr_rs.Base.Bytes.{Bytes}
use sidestr_rs.Base.Map.{Map, lookup, nat_ord}
use sidestr_rs.Bitcoin.{Bitcoin, Transaction}
use sidestr_rs.Records.Market.{
  MarketRecord, open_market, split_pair, merge_pair, redeem, resolve, market_of,
}
use sidestr_rs.Records.Classify.{Classified, classify}
use sidestr_rs.Assets.Rule.{AssetTrace}
use sidestr_rs.Pool.View.{spent_pools}
use sidestr_rs.Markets.State.{Market, MarketView}
use sidestr_rs.Markets.Actions.{
  MarketError, coinbase_records, several_market_coins, several_market_records, stray_question,
  not_recreated, names_unspent_market, names_other_market, unknown_market, check_open, check_action,
}

abbrev is_market : Option ℕ → ℕ → Bool
is_market none i = false
is_market (some m) i = m == i

module _ (btc : Bitcoin) (view : MarketView) (tx : Transaction) (trace : AssetTrace) (height : ℕ)
    (scripts : Map ℕ Bytes) where
  -- A record that is no opening: it must name the one market whose coin is spent.
  unfoldable pub check_spending : Classified → Option ℕ → MarketRecord → Result MarketError Market
  unfolding check_action market_of
  check_spending cls spent rec = do
    i ← ok_or names_unspent_market spent
    fail_if (not (is_market (market_of rec) i)) names_other_market
    fail_if (not (is_empty cls.questions)) stray_question
    before ← ok_or unknown_market (lookup i view.markets)
    check_action btc tx trace height scripts i before rec

  abbrev check_record : Classified → List ℕ → Option (ℕ × MarketRecord) → Result MarketError Market
  check_record cls spent none = err not_recreated
  check_record cls spent (some (v, open_market vout resolver expiry grace)) =
      check_open btc tx trace height cls spent vout resolver expiry grace
  check_record cls spent (some (v, split_pair m o)) =
      check_spending cls (first spent) (split_pair m o)
  check_record cls spent (some (v, merge_pair m o)) =
      check_spending cls (first spent) (merge_pair m o)
  check_record cls spent (some (v, redeem m o)) = check_spending cls (first spent) (redeem m o)
  check_record cls spent (some (v, resolve m o)) = check_spending cls (first spent) (resolve m o)

  -- The inputs' market coins are looked up as a pool's are.
  unfoldable pub check : Bool → Result MarketError (Option Market)
  unfolding spent_pools check_open check_spending
  check true =
      let cls = classify btc tx in
      if is_empty cls.markets && is_empty cls.questions then ok none else err coinbase_records
  check false = do
    let cls = classify btc tx
    let spent = spent_pools view.by_outpoint tx.input
    fail_if (ltb 1 (length spent)) several_market_coins
    fail_if (ltb 1 (length cls.markets)) several_market_records
    if is_empty spent && is_empty cls.markets
        then (if is_empty cls.questions then ok none else err stray_question)
        else (check_record cls spent (first cls.markets) >>= λ market. ok (some market))
