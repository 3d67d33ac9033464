-- ===== src/Tests/Witnesses.antt =====
-- Each theorem that has hypotheses, at an input where they hold.
use sidestr_rs.Base.{◌≤◌, ◌≡◌, refl, none, some, List, [], ◌∷◌, ◌++◌, length, arith, ok, err}
use sidestr_rs.Base.Bytes.{Bytes, codes, utf8_from}
use sidestr_rs.Base.Map.{insert, remove}
use sidestr_rs.Bitcoin.{Transaction}
use sidestr_rs.Records.Script.{record_text, record_script}
use sidestr_rs.Records.Classify.{classify}
use sidestr_rs.Records.RoundTrip.{
  record_text-record_script, record_text-minimal, minimal_script, ValidUtf8,
}
use sidestr_rs.Assets.Carry.{AssetView, empty_view}
use sidestr_rs.Assets.View.{apply_transaction, apply_transactions}
use sidestr_rs.Assets.Rule.{AssetTrace, Block, candidate, applied, panicked}
use sidestr_rs.Assets.Supply.{total}
use sidestr_rs.Assets.Conservation.{apply_transaction-total}
use sidestr_rs.Assets.Blocks.{apply_transactions-total}
use sidestr_rs.Assets.Verdict.{
  Accepted, candidate-Accepted, candidate_complete, candidate-stray_coinbase,
}
use sidestr_rs.Assets.Commit.{check_all, reading, applied-check_all}
use sidestr_rs.Tests.Chain.{btc, op, coinbase, issue_tx, send_tx, greedy_tx}

abbrev funded : AssetView
funded = record { carried = (op 1 0, (1, 1000) ∷ []) ∷ []; issued = [] }

apply_transaction-total_example :
    total 1 (apply_transaction btc 6 none funded send_tx).0.carried ≤ 1000
apply_transaction-total_example = apply_transaction-total 1 btc none 6 funded send_tx (tt, tt) refl

apply_transactions-total_example :
    total 1 (apply_transactions btc 6 none funded (send_tx ∷ greedy_tx ∷ [])).0.carried ≤ 1000
apply_transactions-total_example =
    apply_transactions-total btc none 6 1 funded (send_tx ∷ greedy_tx ∷ [])
      (((tt, tt), refl), (((tt, tt), refl), tt))

abbrev good_block : List Transaction
good_block = coinbase ∷ issue_tx ∷ send_tx ∷ []

abbrev left_view : AssetView
left_view = record {
  carried = (op 2 0, (1, 300) ∷ []) ∷ (op 2 1, (1, 700) ∷ []) ∷ [];
  issued =
      (1, record { ticker = codes "DREAM"; decimals = 0; height = 5; supply = 1000; market = none })
      ∷ [];
}

abbrev left : AssetView × List AssetTrace
left = (
  left_view,
  record { inputs = []; outputs = [] }
      ∷ record { inputs = []; outputs = (0, (1, 1000) ∷ []) ∷ [] }
      ∷ record {
        inputs = (op 1 0, (1, 1000) ∷ []) ∷ [];
        outputs = (0, (1, 300) ∷ []) ∷ (1, (1, 700) ∷ []) ∷ [];
      }
      ∷ [],
)

good_block-candidate : candidate btc none 5 empty_view good_block ≡ ok left
unfolding candidate insert remove classify
good_block-candidate = refl

candidate-Accepted_example : Accepted btc none 5 0 empty_view good_block left
candidate-Accepted_example =
    candidate-Accepted btc none 5 empty_view good_block left good_block-candidate

candidate_complete_example :
    (traces : List AssetTrace) × (candidate btc none 5 empty_view good_block
      ≡ ok ((apply_transactions btc 5 none empty_view good_block).0, traces))
unfolding apply_transactions insert remove classify
candidate_complete_example =
    candidate_complete btc none 5 empty_view good_block refl
      ((λ h. cc), ((λ _. refl), ((λ _. refl), tt))) (refl, (refl, tt))

candidate-stray_coinbase_example :
    candidate btc none 5 empty_view (good_block ++ coinbase ∷ []) ≡ err panicked
candidate-stray_coinbase_example =
    candidate-stray_coinbase btc none 5 empty_view coinbase (issue_tx ∷ send_tx ∷ []) coinbase []
      left good_block-candidate refl

abbrev block_a : Block
block_a = record { hash = 11; txdata = good_block }

abbrev block_b : Block
block_b = record { hash = 12; txdata = coinbase ∷ issue_tx ∷ greedy_tx ∷ [] }

applied-check_all_example :
    (applied btc none 5
      (check_all btc none 5
        (record { view = empty_view; pending = [] })
        (block_a ∷ block_b ∷ block_a ∷ []))
      block_a).view
    ≡ reading btc none 5 empty_view good_block
applied-check_all_example =
    applied-check_all btc none 5 empty_view (block_a ∷ block_b ∷ block_a ∷ []) block_a
      ((λ _. refl), ((λ h. cc), ((λ _. refl), tt)))

abbrev dream : Bytes
dream = codes "issue:DREAM:0"

dream-valid : ValidUtf8 dream
unfolding utf8_from
dream-valid = refl

record_text-record_script_example :
    (script : Bytes) × (record_script btc dream ≡ ok script) × (record_text script ≡ some dream)
record_text-record_script_example =
    record_text-record_script btc dream dream-valid (omega arith) (omega arith) refl

record_text-minimal_example :
    (minimal_script dream ≡ minimal_script dream)
    × (1 ≤ length dream)
    × (length dream ≤ 255)
    × ValidUtf8 dream
unfolding record_text
record_text-minimal_example = record_text-minimal (minimal_script dream) dream refl
