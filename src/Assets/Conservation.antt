-- ===== src/Assets/Conservation.antt =====
-- The assets rule creates nothing (sidestr-core/src/assets.rs): what one transaction's tallies
-- assign, and what a view holds before and after it.
use sidestr_rs.Base.{
  ℕ, ◌+◌, ◌≤◌, ◌≡◌, refl, ap, inl, inr, Bool, false, ◌&&◌, ◌||◌, not, List, [], ◌∷◌, ◌==◌,
  if◌then◌else◌, unwrap_or, is_empty, arith, Bool-cases, Result, ok, err, >>=-eq-ok, fail_if-eq-ok,
  Result-cases,
}
use sidestr_rs.Base.Map.{Map, lookup, insert, sum_values, sum_values-insert, lookup-insert, nat_ord}
use sidestr_rs.Bitcoin.{Bitcoin, Transaction, TxOut}
use sidestr_rs.Records.Grammar.{Tally}
use sidestr_rs.Records.Classify.{Classified, classify}
use sidestr_rs.Assets.Carry.{Carry, AssetView, carry_of, add_inputs}
use sidestr_rs.Assets.Check.{
  AssetError, MintPolicy, allows, TallyState, no_tallies, tally_asset, put_out, check_assigned,
  check_records, tally_assign, tally_assigns, tally_step, tally_all, check_tallies, check_inner,
}
use sidestr_rs.Assets.View.{remove_inputs, apply_transaction, settle}
use sidestr_rs.Assets.Supply.{
  held, held_by, total, DistinctInputs, carry_of-le-held, held-insert_self, held-insert_ne,
  held-add_inputs, total-remove_inputs, total-insert_outputs,
}

module _ (asset : ℕ) where
  -- The outputs hold no more of the asset than was counted as assigned.
  abbrev Counted : TallyState → Type 0
  Counted st = sum_values (held asset) st.out ≤ carry_of asset st.assigned

  sum-put_out :
      (vout k amount : ℕ) (out : Map ℕ Carry)
      → sum_values (held asset) (put_out vout k amount out)
        ≤ (if k == asset then amount else 0) + sum_values (held asset) out
  sum-put_out vout k amount out =
      let c : Carry = unwrap_or [] (lookup vout out) in
      elim (Bool-cases (k == asset)) [
        | inl same ↦ ground (
          arith,
          sum_values-insert (held asset) vout (insert k amount c) out,
          held-insert_self asset amount c,
        )
        | inr other ↦ ground (
          arith,
          sum_values-insert (held asset) vout (insert k amount c) out,
          held-insert_ne asset k amount c other,
        )
      ]

  carry_of-insert :
      (k n : ℕ) (c : Carry)
      → carry_of asset (insert k n c) ≡ (if k == asset then n else carry_of asset c)
  carry_of-insert k n c = ground (arith, lookup-insert k asset n c)

  module _ (btc : Bitcoin) (outputs : List TxOut) where
    tally_assign-Counted :
        (k : ℕ) (st st' : TallyState) (va : ℕ × ℕ)
        → tally_assign btc outputs k st va ≡ ok st'
        → Counted st
        → Counted st'
    unfolding tally_assign
    tally_assign-Counted k st st' (vout, amount) e h = ground (
      arith,
      sum-put_out vout k amount st.out,
      carry_of-insert k (carry_of k st.assigned + amount) st.assigned,
    )

    tally_assigns-Counted :
        (k : ℕ) (st st' : TallyState) (vas : List (ℕ × ℕ))
        → tally_assigns btc outputs k st vas ≡ ok st'
        → Counted st
        → Counted st'
    unfolding tally_assigns
    tally_assigns-Counted k st st' [] e h = ground arith
    tally_assigns-Counted k st st' (va ∷ rest) e h =
        let (mid, first, then') = >>=-eq-ok (tally_assign btc outputs k st va) _ e in
        tally_assigns-Counted k mid st' rest then' (tally_assign-Counted k st mid va first h)

    tally_step-Counted :
        (txid : ℕ) (cls : Classified) (st st' : TallyState) (t : Tally)
        → tally_step btc txid cls outputs st t ≡ ok st'
        → Counted st
        → Counted st'
    unfolding tally_step
    tally_step-Counted txid cls st st' t e h =
        let (k, named, e') = >>=-eq-ok (tally_asset txid cls t.asset) _ e in
        let (fresh, e'') = fail_if-eq-ok _ _ _ e' in tally_assigns-Counted k _ st' t.assigns e'' h

    tally_all-Counted :
        (txid : ℕ) (cls : Classified) (st st' : TallyState) (ts : List (ℕ × Tally))
        → tally_all btc txid cls outputs st ts ≡ ok st'
        → Counted st
        → Counted st'
    unfolding tally_all
    tally_all-Counted txid cls st st' [] e h = ground arith
    tally_all-Counted txid cls st st' ((v, t) ∷ ts) e h =
        let (mid, first, then') = >>=-eq-ok (tally_step btc txid cls outputs st t) _ e in
        tally_all-Counted txid cls mid st' ts then' (tally_step-Counted txid cls st mid t first h)

  -- The asset is issued by this transaction, or a collateral rule accounts for it.
  abbrev pub mints : MintPolicy → ℕ → Classified → Bool
  mints policy txid cls =
      ((asset == txid) && not (is_empty cls.issues)) || allows policy asset txid cls

  check_assigned-covers :
      (policy : MintPolicy) (txid : ℕ) (cls : Classified) (carried_in : Carry)
      (entries : List (ℕ × ℕ))
      → check_assigned policy txid cls carried_in entries ≡ ok tt
      → mints policy txid cls ≡ false
      → carry_of asset entries ≤ carry_of asset carried_in
  unfolding check_assigned
  check_assigned-covers policy txid cls carried_in [] e m = omega arith
  check_assigned-covers policy txid cls carried_in ((k, n) ∷ rest) e m =
      ground (arith, check_assigned-covers policy txid cls carried_in rest)

  module _ (btc : Bitcoin) (policy : MintPolicy) where
    check_tallies-covers :
        (tx : Transaction) (carried_in : Carry) {out : Map ℕ Carry}
        → check_tallies btc policy tx carried_in ≡ ok out
        → mints policy (btc.compute_txid tx) (classify btc tx) ≡ false
        → sum_values (held asset) out ≤ carry_of asset carried_in
    unfolding check_tallies
    check_tallies-covers tx carried_in {out} e m =
        let txid : ℕ = btc.compute_txid tx in
        let cls : Classified = classify btc tx in
        let (st, tallied, e') =
          >>=-eq-ok (tally_all btc txid cls tx.output no_tallies cls.tallies) _ e in
        let (_, covered, e'') =
          >>=-eq-ok (check_assigned policy txid cls carried_in st.assigned) _ e' in
        ground (
          arith,
          tally_all-Counted btc tx.output txid cls no_tallies st cls.tallies tallied (omega arith),
          check_assigned-covers policy txid cls carried_in st.assigned covered m,
        )

    check_inner-covers :
        (view : AssetView) (tx : Transaction) {carried_in : Carry} {out : Map ℕ Carry}
        → check_inner btc view policy tx [] ≡ (carried_in, ok out)
        → mints policy (btc.compute_txid tx) (classify btc tx) ≡ false
        → sum_values (held asset) out ≤ held_by asset view.carried tx.input
    unfolding check_inner
    check_inner-covers view tx e m =
        let filled : Carry = add_inputs view.carried tx.input [] in
        elim (Result-cases (check_records (classify btc tx))) [
          | inl (_, passed) ↦ omega (
            arith,
            held-add_inputs asset view.carried tx.input [],
            carry_of-le-held asset filled,
            check_tallies-covers tx filled (rw (passed, check_inner) at (ap (λ r. r.1) e)) m,
          )
          | inr (x, failed) ↦ cc (rw (failed, check_inner) at e)
        ]

    settle-total :
        (height : ℕ) (view : AssetView) (tx : Transaction)
        (r : Carry × Result AssetError (Map ℕ Carry))
        → check_inner btc view policy tx [] ≡ r
        → DistinctInputs tx.input
        → mints policy (btc.compute_txid tx) (classify btc tx) ≡ false
        → total asset (settle btc height policy view tx r).0.carried ≤ total asset view.carried
    settle-total height view tx (carried_in, ok out) e d m = omega (
      arith,
      check_inner-covers view tx e m,
      total-remove_inputs asset tx.input view.carried d,
      total-insert_outputs asset (btc.compute_txid tx) out (remove_inputs tx.input view.carried),
    )
    settle-total height view tx (carried_in, err x) e d m =
        omega (arith, total-remove_inputs asset tx.input view.carried d)

    -- A transaction whose inputs are distinct and that does not mint the asset (it neither issues
    -- it nor is allowed by the mint policy) leaves no more of it on unspent outputs than before.
    pub apply_transaction-total :
        (height : ℕ) (view : AssetView) (tx : Transaction)
        → DistinctInputs tx.input
        → mints policy (btc.compute_txid tx) (classify btc tx) ≡ false
        → total asset (apply_transaction btc height policy view tx).0.carried
          ≤ total asset view.carried
    unfolding apply_transaction
    apply_transaction-total height view tx d m = settle-total height view tx _ refl d m
