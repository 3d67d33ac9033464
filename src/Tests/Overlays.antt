-- ===== src/Tests/Overlays.antt =====
-- The pool, market and sequence theorems at inputs where their hypotheses hold.
use sidestr_rs.Base.{◌+◌, ◌*◌, ◌≤◌, ◌<◌, ◌≡◌, refl, none, some, [], ◌∷◌, ◌++◌, arith, ok}
use mathlib.Core.List.{Perm}
use sidestr_rs.Base.Bytes.{codes}
use sidestr_rs.Bitcoin.{Transaction}
use sidestr_rs.Records.Market.{split_pair}
use sidestr_rs.Records.Classify.{no_records, Classified}
use sidestr_rs.Assets.Carry.{empty_view}
use sidestr_rs.Assets.Rule.{AssetTrace}
use sidestr_rs.Pool.Transition.{Pool, isqrt, check_transition}
use sidestr_rs.Pool.Root.{isqrt_lem}
use sidestr_rs.Pool.Value.{WorthKept, check_transition-WorthKept}
use sidestr_rs.Pool.View.{no_pools, apply, check_move}
use sidestr_rs.Pool.Life.{here, moves, Worth, Bounded, check_move_lem, PoolLife-Worth}
use sidestr_rs.Pool.Invariant.{IsValid, no_pools-IsValid, apply-IsValid}
use sidestr_rs.Markets.State.{Market, is_open}
use sidestr_rs.Markets.Actions.{check_open, check_action}
use sidestr_rs.Markets.Solvency.{Covered}
use sidestr_rs.Markets.Life.{opens, acts, Life-Covered, SameTerms, Phase, check_action-Phase}
use sidestr_rs.Overlays.Sequence.{sequence}
use sidestr_rs.Overlays.Partition.{positions, Rising, sequence-partition}
use sidestr_rs.Overlays.Production.{picked, BothAccept, sequence-BothAccept}
use sidestr_rs.Tests.Chain.{btc, op, spend, coin, true_coin, tx_of, issue_tx, send_tx, greedy_tx}

isqrt_lem_example : (isqrt 600 * isqrt 600 ≤ 600) × (600 < (isqrt 600 + 1) * (isqrt 600 + 1))
isqrt_lem_example = isqrt_lem 600

abbrev pool : Pool
pool = record {
  id = 4;
  asset = 1;
  sats = 1000;
  assets = 1000;
  shares = 1000;
  outpoint = op 4 0;
  opened = 5;
}

check_transition-WorthKept_example : WorthKept 1000 1000 1000 1100 910 1000
check_transition-WorthKept_example =
    check_transition-WorthKept pool 1100 910 1000 (omega arith) (omega arith) (omega arith)
      (omega arith) swap_passes
  where
    swap_passes : check_transition pool 1100 910 1000 ≡ ok tt
    swap_passes = unfold check_transition in refl

-- A swap: the pool's coin grows by 100 sats and loses 90 units.
abbrev swap_tx : Transaction
swap_tx = tx_of 5 (spend (op 4 0) ∷ []) (true_coin 1100 ∷ [])

abbrev swap_trace : AssetTrace
swap_trace = record { inputs = (op 4 0, (1, 1000) ∷ []) ∷ []; outputs = (0, (1, 910) ∷ []) ∷ [] }

abbrev swapped : Pool
swapped = record pool { sats = 1100; assets = 910; outpoint = op 5 0 }

swap_passes : check_move 5 swap_tx swap_trace 4 pool 0 ≡ ok swapped
unfolding check_move
swap_passes = refl

check_move_lem_example :
    (4 ≡ swapped.id)
    × (swapped.asset ≡ pool.asset)
    × (swapped.opened ≡ pool.opened)
    × (1 ≤ swapped.sats)
    × (1 ≤ swapped.assets)
    × Worth pool swapped
check_move_lem_example =
    check_move_lem 5 swap_tx swap_trace 4 0 pool swap_passes (omega arith) (omega arith)
      (omega arith) (omega arith)

PoolLife-Worth_example : Worth pool swapped × Bounded swapped
PoolLife-Worth_example =
    PoolLife-Worth {first = pool} {last = swapped} (omega arith)
      (moves 5 swap_tx swap_trace 0 here swap_passes (omega arith) (omega arith))

apply-IsValid_example : IsValid (apply no_pools pool)
apply-IsValid_example = apply-IsValid no_pools no_pools-IsValid pool (omega arith) refl

-- A market over 10 sats, then a split of 5.
abbrev open_tx : Transaction
open_tx = tx_of 6 (spend (op 7 0) ∷ []) (true_coin 10 ∷ [])

abbrev no_trace : AssetTrace
no_trace = record { inputs = []; outputs = [] }

abbrev open_records : Classified
open_records = record no_records { questions = (1, record { text = codes "Rain?" }) ∷ [] }

abbrev market : Market
market = record {
  id = 6;
  coin = op 6 0;
  collateral = 10;
  resolver = 7 ∷ [];
  expiry = 100;
  grace = 10;
  question = codes "Rain?";
  status = is_open;
  winner = none;
  opened = 5;
}

market_opens : check_open btc open_tx no_trace 5 open_records [] 0 (7 ∷ []) 100 10 ≡ ok market
unfolding check_open
market_opens = refl

abbrev split_tx : Transaction
split_tx = tx_of 8 (spend (op 6 0) ∷ []) (true_coin 15 ∷ coin 330 ∷ [])

-- The NO asset's id is 1067 on the stand-in.
abbrev split_trace : AssetTrace
split_trace = record { inputs = []; outputs = (1, (6, 5) ∷ (1067, 5) ∷ []) ∷ [] }

abbrev after_split : Market
after_split = record market { coin = op 8 0; collateral = 15 }

split_passes : check_action btc split_tx split_trace 6 [] 6 market (split_pair 6 0) ≡ ok after_split
unfolding check_action
split_passes = refl

Life-Covered_example : Covered is_open none 15 (record { yes_supply = 5; no_supply = 5 })
unfolding check_action
Life-Covered_example = Life-Covered btc (
    acts split_tx split_trace 6 [] (split_pair 6 0)
      (opens open_tx no_trace 5 open_records [] 0 (7 ∷ []) 100 10 market_opens) split_passes
      (omega arith) (λ h. cc))

check_action-Phase_example : SameTerms market after_split × Phase 6 market after_split
check_action-Phase_example =
    check_action-Phase btc split_tx split_trace 6 [] 6 market (split_pair 6 0) split_passes

sequence-partition_example :
    let s =
      sequence btc none 6 0
        (λ o. none)
        empty_view
        (some no_pools)
        none
        (issue_tx ∷ greedy_tx ∷ send_tx ∷ []) in
    Perm (s.kept ++ positions s.dropped) (0 ∷ 1 ∷ 2 ∷ []) × Rising 0 s.kept
sequence-partition_example =
    sequence-partition btc none 6 0 (λ o. none) empty_view (some no_pools) none
      (issue_tx ∷ greedy_tx ∷ send_tx ∷ [])

sequence-BothAccept_example :
    let s =
      sequence btc none 6 0
        (λ o. none)
        empty_view
        (some no_pools)
        none
        (issue_tx ∷ greedy_tx ∷ send_tx ∷ []) in
    BothAccept btc none 6 0
      (λ o. none)
      0
      empty_view
      no_pools
      (picked 0 s.kept (issue_tx ∷ greedy_tx ∷ send_tx ∷ []))
      s.views
sequence-BothAccept_example =
    sequence-BothAccept btc none 6 0 (λ o. none) empty_view no_pools none
      (issue_tx ∷ greedy_tx ∷ send_tx ∷ []) (refl, (refl, (refl, tt)))
