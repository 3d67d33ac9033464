-- ===== src/Assets/Supply.antt =====
-- How much of an asset a carry, an input list and a view hold, and what each helper of the rule
-- (sidestr-core/src/assets.rs) does to that amount.
use sidestr_rs.Base.{
  ℕ, ◌+◌, ◌≤◌, ◌≡◌, refl, inl, inr, false, Option, none, some, List, [], ◌∷◌, ◌==◌, if◌then◌else◌,
  saturating_add, u64_max, arith, Bool-cases,
}
use sidestr_rs.Base.Map.{
  Map, lookup, insert, remove, sum_values, measure, sum_values-insert, sum_values-remove-le,
  lookup-remove, nat_ord,
}
use sidestr_rs.Bitcoin.{OutPoint, TxIn, outpoint_ord}
use sidestr_rs.Assets.Carry.{Carry, carry_of, sum_into, add_carried, add_inputs}
use sidestr_rs.Assets.View.{remove_inputs, insert_outputs}

-- The amounts of all entries of the asset.
abbrev pub held : ℕ → Carry → ℕ
held asset [] = 0
held asset ((a, n) ∷ c) = (if a == asset then n else 0) + held asset c

-- All that a view's unspent outputs hold of the asset.
abbrev pub total : ℕ → Map OutPoint Carry → ℕ
total asset carried = sum_values (held asset) carried

pub carry_of-le-held : (asset : ℕ) (c : Carry) → carry_of asset c ≤ held asset c
carry_of-le-held asset [] = omega arith
carry_of-le-held asset ((a, n) ∷ c) = ground (arith, carry_of-le-held asset c)

pub held-insert_self :
    (asset n : ℕ) (c : Carry) → held asset (insert asset n c) + carry_of asset c ≡ n + held asset c
unfolding insert
held-insert_self asset n [] = ground arith
held-insert_self asset n ((a, m) ∷ c) = ground (arith, held-insert_self asset n c)

pub held-insert_ne :
    (asset k n : ℕ) (c : Carry) → (k == asset) ≡ false → held asset (insert k n c) ≡ held asset c
unfolding insert
held-insert_ne asset k n [] h = ground arith
held-insert_ne asset k n ((a, m) ∷ c) h = ground (arith, held-insert_ne asset k n c h)

held-sum_into : (asset : ℕ) (t c : Carry) → held asset (sum_into t c) ≤ held asset t + held asset c
unfolding sum_into
held-sum_into asset t [] = omega arith
held-sum_into asset t ((a, n) ∷ c) =
    let t' = insert a (saturating_add u64_max (carry_of a t) n) t in
    elim (Bool-cases (a == asset)) [
      | inl same ↦ ground (
        arith,
        held-sum_into asset t' c,
        held-insert_self asset (saturating_add u64_max (carry_of a t) n) t,
      )
      | inr other ↦ ground (
        arith,
        held-sum_into asset t' c,
        held-insert_ne asset a (saturating_add u64_max (carry_of a t) n) t other,
      )
    ]

-- What the inputs hold, each input counted.
abbrev pub held_by : ℕ → Map OutPoint Carry → List TxIn → ℕ
held_by asset carried [] = 0
held_by asset carried (i ∷ is) =
    measure (held asset) (lookup i.previous_output carried) + held_by asset carried is

held-add_carried :
    (asset : ℕ) (t : Carry) (o : Option Carry)
    → held asset (add_carried t o) ≤ held asset t + measure (held asset) o
held-add_carried asset t none = omega arith
held-add_carried asset t (some c) = held-sum_into asset t c

pub held-add_inputs :
    (asset : ℕ) (carried : Map OutPoint Carry) (is : List TxIn) (t : Carry)
    → held asset (add_inputs carried is t) ≤ held asset t + held_by asset carried is
unfolding add_inputs
held-add_inputs asset carried [] t = omega arith
held-add_inputs asset carried (i ∷ is) t = omega (
  arith,
  held-add_inputs asset carried is (add_carried t (lookup i.previous_output carried)),
  held-add_carried asset t (lookup i.previous_output carried),
)

-- No input is spent twice, which `validate_transaction` and `resolve_spending` see to
-- (sidestr-core/src/rules.rs).
abbrev pub NotSpent : OutPoint → List TxIn → Type 0
NotSpent op [] = Unit {0}
NotSpent op (i ∷ is) = (outpoint_ord.eqb op i.previous_output ≡ false) × NotSpent op is

abbrev pub DistinctInputs : List TxIn → Type 0
DistinctInputs [] = Unit {0}
DistinctInputs (i ∷ is) = NotSpent i.previous_output is × DistinctInputs is

held_by-remove :
    (asset : ℕ) (op : OutPoint) (carried : Map OutPoint Carry) (is : List TxIn)
    → NotSpent op is
    → held_by asset (remove op carried) is ≡ held_by asset carried is
held_by-remove asset op carried [] h = refl
held_by-remove asset op carried (i ∷ is) h =
    rw (lookup-remove op i.previous_output carried, h.0, held_by-remove asset op carried is h.1)
      refl

-- Spending the inputs takes from the view all that they hold.
pub total-remove_inputs :
    (asset : ℕ) (is : List TxIn) (carried : Map OutPoint Carry)
    → DistinctInputs is
    → total asset (remove_inputs is carried) + held_by asset carried is ≤ total asset carried
unfolding remove_inputs
total-remove_inputs asset [] carried h = omega arith
total-remove_inputs asset (i ∷ is) carried h = omega (
  arith,
  total-remove_inputs asset is (remove i.previous_output carried) h.1,
  held_by-remove asset i.previous_output carried is h.0,
  sum_values-remove-le (held asset) i.previous_output carried,
)

pub total-insert_outputs :
    (asset txid : ℕ) (out : Map ℕ Carry) (carried : Map OutPoint Carry)
    → total asset (insert_outputs txid out carried)
      ≤ sum_values (held asset) out + total asset carried
unfolding insert_outputs
total-insert_outputs asset txid [] carried = omega arith
total-insert_outputs asset txid ((v, c) ∷ out) carried =
    let op : OutPoint = record { txid = txid; vout = v } in
    omega (
      arith,
      total-insert_outputs asset txid out (insert op c carried),
      sum_values-insert (held asset) op c carried,
    )
