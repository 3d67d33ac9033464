-- ===== src/Records/Market.antt =====
-- The market records and the question of sidestr-core/src/records.rs.
use sidestr_rs.Base.{
  ℕ, ◌&&◌, Option, none, some, List, [], ◌∷◌, ◌==◌, ltb, ◌||◌, if◌then◌else◌, length, is_empty, all,
  and_then,
}
use sidestr_rs.Base.Bytes.{Bytes, codes, bytes_eq, strip_prefix, split, is_lower_hex}
use sidestr_rs.Bitcoin.{Bitcoin}
use sidestr_rs.Records.Grammar.{vout, height, txid}

pub data MarketOutcome : Type 0 where
  yes_wins no_wins : MarketOutcome

-- `open_market vout resolver expiry grace`; the others name their market first.
pub data MarketRecord : Type 0 where
  open_market : ℕ → Bytes → ℕ → ℕ → MarketRecord
  split_pair : ℕ → ℕ → MarketRecord
  merge_pair : ℕ → ℕ → MarketRecord
  redeem : ℕ → ℕ → MarketRecord
  resolve : ℕ → MarketOutcome → MarketRecord

-- `MarketRecord::market`
unfoldable pub market_of : MarketRecord → Option ℕ
market_of (open_market v r e g) = none
market_of (split_pair m v) = some m
market_of (merge_pair m v) = some m
market_of (redeem m v) = some m
market_of (resolve m o) = some m

module _ (btc : Bitcoin) where
  -- `[kind, market, field]`
  abbrev market_action : Bytes → Bytes → Bytes → Option MarketRecord
  market_action kind market field =
      if bytes_eq kind (codes "split")
      then and_then (txid btc market) (λ m. and_then (vout field) (λ v. some (split_pair m v)))
      else if bytes_eq kind (codes "merge")
      then and_then (txid btc market) (λ m. and_then (vout field) (λ v. some (merge_pair m v)))
      else if bytes_eq kind (codes "redeem")
      then and_then (txid btc market) (λ m. and_then (vout field) (λ v. some (redeem m v)))
      else if bytes_eq kind (codes "resolve") && bytes_eq field (codes "yes")
      then and_then (txid btc market) (λ m. some (resolve m yes_wins))
      else if bytes_eq kind (codes "resolve") && bytes_eq field (codes "no")
      then and_then (txid btc market) (λ m. some (resolve m no_wins))
      else none

  -- `["market", "self", output, resolver, expiry, grace]`
  abbrev market_opening : Bytes → Bytes → Bytes → Bytes → Bytes → Bytes → Option MarketRecord
  market_opening kind self output resolver expiry grace =
      if (bytes_eq kind (codes "market") && bytes_eq self (codes "self"))
        && ((length resolver == 64) && all is_lower_hex resolver)
      then and_then (vout output) (λ v.
        and_then (height expiry)
          (λ e. and_then (height grace) (λ g. some (open_market v resolver e g))))
      else none

  abbrev pub market_fields : List Bytes → Option MarketRecord
  market_fields (kind ∷ market ∷ field ∷ []) = market_action kind market field
  market_fields (kind ∷ self ∷ output ∷ resolver ∷ expiry ∷ grace ∷ []) =
      market_opening kind self output resolver expiry grace
  market_fields _ = none

  unfoldable pub parse_market : Bytes → Option MarketRecord
  unfolding txid vout height
  parse_market text = market_fields (split b':' text)

pub record Question : Type 0 where
  pub text : Bytes

unfoldable pub parse_question : Bytes → Option Question
parse_question text = and_then (strip_prefix (codes "question:") text) λ question.
    if is_empty question || ltb 200 (length question)
    then none
    else some (record { text = question })
