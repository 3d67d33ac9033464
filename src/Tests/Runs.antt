-- ===== src/Tests/Runs.antt =====
-- Runs of the definitions at fixed inputs, after the unit tests of the source.
use sidestr_rs.Base.{◌≡◌, refl, Option, none, some, List, [], ◌∷◌, map}
use sidestr_rs.Base.Bytes.{codes}
use sidestr_rs.Base.Map.{insert, remove}
use sidestr_rs.Assets.Carry.{empty_view}
use sidestr_rs.Assets.View.{apply_transactions, Outcome}
use sidestr_rs.Assets.Check.{assigns_more}
use sidestr_rs.Records.Grammar.{parse_issue}
use sidestr_rs.Records.Classify.{classify}
use sidestr_rs.Pool.Transition.{isqrt}
use sidestr_rs.Tests.Chain.{btc, issue_tx, send_tx, greedy_tx, op}

issue_grammar :
    parse_issue (codes "issue:DREAM:0") ≡ some (record { ticker = codes "DREAM"; decimals = 0 })
unfolding parse_issue
issue_grammar = refl

issue_grammar_lower : parse_issue (codes "issue:dream:0") ≡ none
unfolding parse_issue
issue_grammar_lower = refl

isqrt_boundary :
    map isqrt (0 ∷ 1 ∷ 599_999_999_999 ∷ 600_000_000_000 ∷ 600_001_000_000 ∷ [])
    ≡ 0 ∷ 1 ∷ 774_596 ∷ 774_596 ∷ 774_597 ∷ []
unfolding isqrt
isqrt_boundary = refl

issued_then_sent :
    (apply_transactions btc 5 none empty_view (issue_tx ∷ send_tx ∷ [])).0.carried
    ≡ (op 2 0, (1, 300) ∷ []) ∷ (op 2 1, (1, 700) ∷ []) ∷ []
unfolding apply_transactions insert remove classify
issued_then_sent = refl

abbrev errors : List Outcome → List (Option sidestr_rs.Assets.Check.AssetError)
errors = map λ o. o.error

over_assigning :
    errors (apply_transactions btc 5 none empty_view (issue_tx ∷ greedy_tx ∷ [])).1
    ≡ none ∷ some (assigns_more 1001 1 1000) ∷ []
unfolding apply_transactions insert remove classify
over_assigning = refl
