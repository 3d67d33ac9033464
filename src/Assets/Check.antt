-- ===== src/Assets/Check.antt =====
-- `AssetView::check_inner` of sidestr-core/src/assets.rs: one transaction against the view. An
-- error keeps the data of its message; the message's wording is not modelled.
use sidestr_rs.Base.{
  ℕ, Bool, false, ◌&&◌, not, Option, none, some, List, [], ◌∷◌, ◌==◌, ltb, if◌then◌else◌, u64_max,
  checked_add, unwrap_or, length, get_elem?, first, is_empty, any, Result, ok, err, ◌>>=◌, ◌>>◌,
  fail_if, ok_or,
}
use sidestr_rs.Base.Bytes.{Bytes}
use sidestr_rs.Base.Map.{Map, lookup, insert, nat_ord}
use sidestr_rs.Bitcoin.{Bitcoin, Transaction, TxOut}
use sidestr_rs.Records.Grammar.{AssetRef, self_tx, id, Tally}
use sidestr_rs.Records.Classify.{Classified, classify, opens_pool}
use sidestr_rs.Assets.Carry.{Carry, AssetView, carry_of, add_inputs}

pub data AssetError : Type 0 where
  malformed_record : Bytes → AssetError
  several_issues : AssetError
  pool_opening_issues : AssetError
  self_without_issue : AssetError
  tallied_twice : ℕ → AssetError
  no_output : ℕ → AssetError
  op_return_output : ℕ → AssetError
  valueless_output : ℕ → AssetError
  tally_overflow : AssetError
  assigns_more : ℕ → ℕ → ℕ → AssetError

-- `AssetMintPolicy::allows` by asset, txid and records; `none` where no collateral rule stands.
abbrev pub MintPolicy : Type 0
MintPolicy = Option (ℕ → ℕ → Classified → Bool)

abbrev pub allows : MintPolicy → ℕ → ℕ → Classified → Bool
allows none asset txid cls = false
allows (some p) asset txid cls = p asset txid cls

-- The tests that come before anything is read from the view.
abbrev malformed : Option Bytes → Result AssetError (Unit {0})
malformed none = ok tt
malformed (some text) = err (malformed_record text)

unfoldable pub check_records : Classified → Result AssetError (Unit {0})
check_records cls = do
  malformed (first cls.bad)
  fail_if (ltb 1 (length cls.issues)) several_issues
  fail_if (not (is_empty cls.issues) && opens_pool cls) pool_opening_issues

-- The variables of the loop over the tallies.
pub record TallyState : Type 0 where
  pub out : Map ℕ Carry
  pub assigned : Carry
  pub seen : List ℕ

abbrev pub no_tallies : TallyState
no_tallies = record { out = []; assigned = []; seen = [] }

abbrev contains : List ℕ → ℕ → Bool
contains xs a = any (λ x. x == a) xs

-- The asset that a tally names.
abbrev pub tally_asset : ℕ → Classified → AssetRef → Result AssetError ℕ
tally_asset txid cls self_tx =
    if is_empty cls.issues && not (opens_pool cls) then err self_without_issue else ok txid
tally_asset txid cls (id i) = ok i

-- `out.entry(vout).or_default().insert(asset, amount)`
abbrev pub put_out : ℕ → ℕ → ℕ → Map ℕ Carry → Map ℕ Carry
put_out vout asset amount out =
    insert vout (insert asset amount (unwrap_or [] (lookup vout out))) out

-- The conservation test on what was assigned of one asset.
abbrev pub uncovered : MintPolicy → ℕ → Classified → Carry → ℕ → ℕ → Bool
uncovered policy txid cls carried_in asset n =
    not ((asset == txid) && not (is_empty cls.issues))
    && (not (allows policy asset txid cls) && ltb (carry_of asset carried_in) n)

unfoldable pub check_assigned :
    MintPolicy → ℕ → Classified → Carry → List (ℕ × ℕ) → Result AssetError (Unit {0})
check_assigned policy txid cls carried_in [] = ok tt
check_assigned policy txid cls carried_in ((asset, n) ∷ rest) =
    fail_if (uncovered policy txid cls carried_in asset n)
      (assigns_more n asset (carry_of asset carried_in))
    >> check_assigned policy txid cls carried_in rest

module _ (btc : Bitcoin) where
  -- One assignment of a tally: the output must exist, be spendable and have value.
  unfoldable pub tally_assign : List TxOut → ℕ → TallyState → ℕ × ℕ → Result AssetError TallyState
  tally_assign outputs asset st (vout, amount) = do
    o ← ok_or (no_output vout) (get_elem? outputs vout)
    fail_if (btc.is_op_return o.script_pubkey) (op_return_output vout)
    fail_if (ltb o.value 1) (valueless_output vout)
    total ← ok_or tally_overflow (checked_add u64_max (carry_of asset st.assigned) amount)
    ok (record st {
      out = put_out vout asset amount st.out;
      assigned = insert asset total st.assigned;
    })

  unfoldable pub tally_assigns :
      List TxOut → ℕ → TallyState → List (ℕ × ℕ) → Result AssetError TallyState
  unfolding tally_assign
  tally_assigns outputs asset st [] = ok st
  tally_assigns outputs asset st (va ∷ rest) =
      tally_assign outputs asset st va >>= λ st'. tally_assigns outputs asset st' rest

  unfoldable pub tally_step :
      ℕ → Classified → List TxOut → TallyState → Tally → Result AssetError TallyState
  unfolding tally_assigns
  tally_step txid cls outputs st t = do
    asset ← tally_asset txid cls t.asset
    fail_if (contains st.seen asset) (tallied_twice asset)
    tally_assigns outputs asset (record st { seen = asset ∷ st.seen }) t.assigns

  unfoldable pub tally_all :
      ℕ → Classified → List TxOut → TallyState → List (ℕ × Tally) → Result AssetError TallyState
  unfolding tally_step
  tally_all txid cls outputs st [] = ok st
  tally_all txid cls outputs st ((v, t) ∷ rest) =
      tally_step txid cls outputs st t >>= λ st'. tally_all txid cls outputs st' rest

  -- The rest of `check_inner`, once `carried_in` is filled.
  unfoldable pub check_tallies : MintPolicy → Transaction → Carry → Result AssetError (Map ℕ Carry)
  unfolding tally_all check_assigned
  check_tallies policy tx carried_in = do
    let txid = btc.compute_txid tx
    let cls = classify btc tx
    st ← tally_all txid cls tx.output no_tallies cls.tallies
    check_assigned policy txid cls carried_in st.assigned
    ok st.out

  -- `carried_in` as the call leaves it, and the result.
  unfoldable pub check_inner :
      AssetView → MintPolicy → Transaction → Carry → Carry × Result AssetError (Map ℕ Carry)
  unfolding check_records add_inputs check_tallies
  check_inner view policy tx carried_in = elim (check_records (classify btc tx)) [
    | err e ↦ (carried_in, err e)
    | ok _ ↦
        let filled = add_inputs view.carried tx.input carried_in in
        (filled, check_tallies policy tx filled)
  ]
