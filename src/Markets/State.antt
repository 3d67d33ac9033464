-- ===== src/Markets/State.antt =====
-- A market, the view of all markets, and their coins (sidestr-core/src/markets.rs).
use sidestr_rs.Base.{
  ℕ, suc, Bool, true, false, ◌&&◌, not, Option, none, some, List, [], ◌∷◌, ◌++◌, leb, if◌then◌else◌,
  get_elem?, and_then,
}
use sidestr_rs.Base.Bytes.{Bytes, bytes_eq, codes}
use sidestr_rs.Base.Map.{Map, lookup, insert, remove, contains_key, nat_ord}
use sidestr_rs.Bitcoin.{Bitcoin, Transaction, TxOut, OutPoint, outpoint_ord}
use sidestr_rs.Records.Market.{MarketOutcome}
use sidestr_rs.Assets.Rule.{AssetTrace}

pub data MarketStatus : Type 0 where
  is_open resolved refunding : MarketStatus

pub record Market : Type 0 where
  pub id : ℕ
  pub coin : OutPoint
  pub collateral : ℕ
  pub resolver : Bytes
  pub expiry : ℕ
  pub grace : ℕ
  pub question : Bytes
  pub status : MarketStatus
  pub winner : Option MarketOutcome
  pub opened : ℕ

pub record MarketView : Type 0 where
  pub markets : Map ℕ Market
  pub by_outpoint : Map OutPoint ℕ

abbrev pub no_markets : MarketView
no_markets = record { markets = []; by_outpoint = [] }

-- `MarketView::contains`
abbrev pub contains : MarketView → ℕ → Bool
contains view market = contains_key market view.markets

abbrev pub forget_coin : Option Market → Map OutPoint ℕ → Map OutPoint ℕ
forget_coin none by_outpoint = by_outpoint
forget_coin (some before) by_outpoint = remove before.coin by_outpoint

-- `MarketView::apply`
unfoldable pub apply : MarketView → Market → MarketView
apply view market = record {
  markets = insert market.id market view.markets;
  by_outpoint =
      insert market.coin market.id (forget_coin (lookup market.id view.markets) view.by_outpoint);
}

-- The NO asset of a market: the hash of `no:` and the market's id as text.
unfoldable pub no_id_of : Bitcoin → ℕ → ℕ
no_id_of btc market = btc.sha256_txid (codes "no:" ++ btc.txid_to_string market)

-- `OP_TRUE`
abbrev pub market_script : Bytes
market_script = 0x51 ∷ []

-- The value of the output at `vout` where that is a market coin and carries no asset.
unfoldable pub market_coin : Transaction → AssetTrace → ℕ → Option ℕ
market_coin tx trace vout = and_then (get_elem? tx.output vout) λ o.
    if (bytes_eq o.script_pubkey market_script && leb 1 o.value)
      && not (contains_key vout trace.outputs)
    then some o.value
    else none

-- Every output under the market script, with its position, from position `vout` on.
unfoldable pub market_coins : ℕ → List TxOut → List (ℕ × ℕ)
market_coins vout [] = []
market_coins vout (o ∷ os) =
    let rest = market_coins (suc vout) os in
    elim (bytes_eq o.script_pubkey market_script) [ true ↦ (vout, o.value) ∷ rest | false ↦ rest ]
