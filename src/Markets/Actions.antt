-- ===== src/Markets/Actions.antt =====
-- What each market record must keep, and what it makes of the market: the branches of
-- `MarketView::check` in sidestr-core/src/markets.rs.
use sidestr_rs.Base.{
  ℕ, ◌+◌, ◌-◌, ◌*◌, Bool, true, false, ◌&&◌, ◌||◌, not, Option, none, some, List, [], ◌∷◌, ◌==◌,
  ltb, leb, if◌then◌else◌, u32_max, saturating_add, checked_sub, is_empty, any, Result, ok, err,
  ◌>>=◌, ◌>>◌, fail_if, ok_or,
}
use sidestr_rs.Base.Bytes.{Bytes, bytes_eq}
use sidestr_rs.Base.Map.{Map, contains_key, nat_ord}
use sidestr_rs.Bitcoin.{Bitcoin, Transaction, OutPoint}
use sidestr_rs.Records.Market.{
  MarketRecord, MarketOutcome, yes_wins, no_wins, open_market, split_pair, merge_pair, redeem,
  resolve, Question,
}
use sidestr_rs.Records.Classify.{Classified, opens_pool}
use sidestr_rs.Assets.Rule.{AssetTrace}
use sidestr_rs.Pool.View.{carry_in, carry_out, sum_carry}
use sidestr_rs.Markets.State.{
  Market, MarketStatus, is_open, resolved, refunding, market_coin, market_coins, no_id_of,
}

pub data MarketError : Type 0 where
  coinbase_records several_market_coins several_market_records stray_question : MarketError
  not_recreated opens_and_spends not_a_market_coin question_count : MarketError
  expiry_passed no_grace opening_issues names_unspent_market names_other_market : MarketError
  unknown_market not_open grace_passed no_resolver_input coin_changed : MarketError
  split_not_grown merge_not_shrunk redeem_not_shrunk : MarketError
  split_tallies merge_short merge_kept winner_short refund_short : ℕ → MarketError
  no_winner still_open : MarketError
  panicked : MarketError

abbrev pub status_open : MarketStatus → Bool
status_open is_open = true
status_open _ = false

-- The last height at which the resolver may answer.
abbrev pub deadline : Market → ℕ
deadline m = saturating_add u32_max m.expiry m.grace

-- What the transaction carries in and out of the market's two assets.
pub record Pairs : Type 0 where
  pub yes_in : ℕ
  pub no_in : ℕ
  pub yes_out : ℕ
  pub no_out : ℕ

abbrev the_question : List (ℕ × Question) → Result MarketError Bytes
the_question ((v, q) ∷ []) = ok q.text
the_question _ = err question_count

-- `amount.checked_sub(...)`, with zero refused.
abbrev pub positive : MarketError → Option ℕ → Result MarketError ℕ
positive e none = err e
positive e (some n) = if ltb 0 n then ok n else err e

-- `a.checked_sub(b) == Some(n)`
abbrev pub differ_by : ℕ → ℕ → ℕ → Bool
differ_by a b n = leb b a && (a - b == n)

unfoldable pub check_split : ℕ → ℕ → Pairs → Result MarketError (Unit {0})
check_split before after p = do
  amount ← positive split_not_grown (checked_sub after before)
  fail_if (not (differ_by p.yes_out p.yes_in amount) || not (differ_by p.no_out p.no_in amount))
      (split_tallies amount)

unfoldable pub check_merge : ℕ → ℕ → Pairs → Result MarketError (Unit {0})
check_merge before after p = do
  amount ← positive merge_not_shrunk (checked_sub before after)
  fail_if (ltb p.yes_in amount || ltb p.no_in amount) (merge_short amount)
  fail_if (ltb (p.yes_in - amount) p.yes_out || ltb (p.no_in - amount) p.no_out) (merge_kept amount)

-- What the winner's holder brought and kept.
abbrev pub winner_in : MarketOutcome → Pairs → ℕ
winner_in yes_wins p = p.yes_in
winner_in no_wins p = p.no_in

abbrev pub winner_out : MarketOutcome → Pairs → ℕ
winner_out yes_wins p = p.yes_out
winner_out no_wins p = p.no_out

abbrev pub enough_destroyed : Pairs → ℕ → Bool
enough_destroyed p amount =
    (leb p.yes_out p.yes_in && leb p.no_out p.no_in)
    && leb (2 * amount) ((p.yes_in - p.yes_out) + (p.no_in - p.no_out))

-- A redemption of a resolved market pays the winner at par.
abbrev pub redeem_winner : Option MarketOutcome → ℕ → Pairs → Result MarketError MarketStatus
redeem_winner none amount p = err no_winner
redeem_winner (some w) amount p =
    if ltb (winner_in w p) amount || ltb (winner_in w p - amount) (winner_out w p)
    then err (winner_short amount)
    else ok resolved

-- Of any other, after the deadline, it refunds both sides at half par.
abbrev pub refund : Market → ℕ → ℕ → Pairs → Result MarketError MarketStatus
refund before height amount p = do
  fail_if (leb height (deadline before)) still_open
  fail_if (not (enough_destroyed p amount)) (refund_short amount)
  ok refunding

abbrev pub redeem_at : MarketStatus → Market → ℕ → ℕ → Pairs → Result MarketError MarketStatus
redeem_at resolved before height amount p = redeem_winner before.winner amount p
redeem_at _ before height amount p = refund before height amount p

-- The market's status afterwards.
unfoldable pub check_redeem : Market → ℕ → ℕ → Pairs → Result MarketError MarketStatus
check_redeem before height after p = do
  amount ← positive redeem_not_shrunk (checked_sub before.collateral after)
  redeem_at before.status before height amount p

module _ (btc : Bitcoin) (tx : Transaction) (trace : AssetTrace) (height : ℕ) where
  abbrev pub coin_at : ℕ → OutPoint
  coin_at vout = record { txid = btc.compute_txid tx; vout = vout }

  abbrev pub pairs : ℕ → Pairs
  pairs market = record {
    yes_in = carry_in trace market;
    no_in = carry_in trace (no_id_of btc market);
    yes_out = carry_out trace market;
    no_out = carry_out trace (no_id_of btc market);
  }

  unfoldable pub check_open : Classified → List ℕ → ℕ → Bytes → ℕ → ℕ → Result MarketError Market
  unfolding market_coin
  check_open cls spent vout resolver expiry grace = do
    fail_if (not (is_empty spent)) opens_and_spends
    collateral ← ok_or not_a_market_coin (market_coin tx trace vout)
    question ← the_question cls.questions
    fail_if (leb expiry height) expiry_passed
    fail_if (ltb grace 1) no_grace
    fail_if (not (is_empty cls.issues) || opens_pool cls) opening_issues
    ok (record {
      id = btc.compute_txid tx;
      coin = coin_at vout;
      collateral = collateral;
      resolver = resolver;
      expiry = expiry;
      grace = grace;
      question = question;
      status = is_open;
      winner = none;
      opened = height;
    })

  -- The one market coin of a resolution: unchanged in value, with no asset.
  abbrev unchanged_coin : ℕ → List (ℕ × ℕ) → Result MarketError ℕ
  unchanged_coin collateral ((vout, value) ∷ []) =
      if not (value == collateral) || contains_key vout trace.outputs
      then err coin_changed
      else ok vout
  unchanged_coin collateral _ = err coin_changed

  abbrev values_any : Bytes → Map ℕ Bytes → Bool
  values_any script scripts = any (λ (e : ℕ × Bytes). bytes_eq e.1 script) scripts

  unfoldable pub check_resolve : Map ℕ Bytes → Market → MarketOutcome → Result MarketError Market
  unfolding market_coins
  check_resolve scripts before outcome = do
    fail_if (not (status_open before.status)) not_open
    fail_if (ltb (deadline before) height) grace_passed
    resolver ← ok_or panicked (btc.hex_decode before.resolver)
    fail_if (not (values_any (0x51 ∷ 0x20 ∷ resolver) scripts)) no_resolver_input
    vout ← unchanged_coin before.collateral (market_coins 0 tx.output)
    ok (record before { coin = coin_at vout; status = resolved; winner = some outcome })

  abbrev moved : Market → ℕ → ℕ → MarketStatus → Market
  moved before vout collateral status = record before {
    coin = coin_at vout;
    collateral = collateral;
    status = status;
  }

  -- A record that spends the coin of market `i`, whose state is `before`.
  unfoldable pub check_action : Map ℕ Bytes → ℕ → Market → MarketRecord → Result MarketError Market
  unfolding check_resolve check_split check_merge check_redeem market_coin no_id_of sum_carry
  check_action scripts i before (resolve market outcome) = check_resolve scripts before outcome
  check_action scripts i before (split_pair market vout) = do
    collateral ← ok_or not_a_market_coin (market_coin tx trace vout)
    check_split before.collateral collateral (pairs i)
    ok (moved before vout collateral before.status)
  check_action scripts i before (merge_pair market vout) = do
    collateral ← ok_or not_a_market_coin (market_coin tx trace vout)
    check_merge before.collateral collateral (pairs i)
    ok (moved before vout collateral before.status)
  check_action scripts i before (redeem market vout) = do
    collateral ← ok_or not_a_market_coin (market_coin tx trace vout)
    status ← check_redeem before height collateral (pairs i)
    ok (moved before vout collateral status)
  check_action scripts i before (open_market vout resolver expiry grace) = err panicked
