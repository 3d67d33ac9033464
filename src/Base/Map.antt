-- ===== src/Base/Map.antt =====
-- Maps with ordered keys, for `BTreeMap` and `HashMap`: a list of entries by rising key. Nothing
-- modelled here reads the iteration order of a `HashMap`, so one order serves both.
use Prim.Native.Nat.{ℕ, ◌+◌, ◌≤◌}
use mathlib.Core.Path.{◌≡◌, refl}
use mathlib.Core.Logic.{◌↔◌, inl, inr}
use mathlib.Core.Bool.{Bool, true, false, ◌&&◌, not}
use mathlib.Core.Option.{Option, none, some}
use mathlib.Core.List.{List, [], ◌∷◌}
use native.Mathlib.Omega.{arith}
use sidestr_rs.Base.Tests.{ltb, ◌==◌ as nat_beq, ==_iff, if◌then◌else◌, Bool-cases}

pub record Ord {ℓ} (K : Type ℓ) : Type ℓ where
  pub eqb : K → K → Bool
  pub below : K → K → Bool
  pub eqb_iff : (a b : K) → (eqb a b ≡ true) ↔ (a ≡ b)

instance abbrev pub nat_ord : Ord ℕ
nat_ord = record { eqb = nat_beq; below = ltb; eqb_iff = ==_iff }

abbrev pub Map {ℓ κ} : Type ℓ → Type κ → Type (ℓ ⊔ κ)
Map K V = List (K × V)

eqb_self {ℓ} : {K : Type ℓ} ⦃o : Ord K⦄ (k : K) → o.eqb k k ≡ true
eqb_self ⦃o⦄ k = (o.eqb_iff k k).1 refl

-- What an entry adds to a sum, and a missing one: nothing.
abbrev pub measure {κ} : {V : Type κ} → (V → ℕ) → Option V → ℕ
measure f none = 0
measure f (some v) = f v

module _ {ℓ κ} {K : Type ℓ} {V : Type κ} ⦃o : Ord K⦄ where
  abbrev pub lookup : K → Map K V → Option V
  lookup k [] = none
  lookup k ((j, v) ∷ m) = if o.eqb j k then some v else lookup k m

  abbrev pub contains_key : K → Map K V → Bool
  contains_key k m = elim (lookup k m) [ none ↦ false | some _ ↦ true ]

  -- A key that is present is replaced where it stands, and a new one goes to its place in the order.
  unfoldable pub insert : K → V → Map K V → Map K V
  insert k v [] = (k, v) ∷ []
  insert k v ((j, w) ∷ m) =
      if o.eqb j k
      then (k, v) ∷ m
      else if o.below k j && not (contains_key k m)
      then (k, v) ∷ (j, w) ∷ m
      else (j, w) ∷ insert k v m

  unfoldable pub remove : K → Map K V → Map K V
  remove k [] = []
  remove k ((j, w) ∷ m) = if o.eqb j k then remove k m else (j, w) ∷ remove k m

  pub lookup-insert_self : (k : K) (v : V) (m : Map K V) → lookup k (insert k v m) ≡ some v
  unfolding insert
  lookup-insert_self k v [] = rw (eqb_self k)
  lookup-insert_self k v ((j, w) ∷ m) = ground (arith, eqb_self k, lookup-insert_self k v m)

  pub lookup-insert_ne :
      (k i : K) (v : V) (m : Map K V) → o.eqb k i ≡ false → lookup i (insert k v m) ≡ lookup i m
  unfolding insert
  lookup-insert_ne k i v [] h = rw h
  lookup-insert_ne k i v ((j, w) ∷ m) h =
      ground (arith, lookup-insert_ne k i v m, o.eqb_iff j k, o.eqb_iff k i)

  pub lookup-insert :
      (k i : K) (v : V) (m : Map K V)
      → lookup i (insert k v m) ≡ (if o.eqb k i then some v else lookup i m)
  lookup-insert k i v m = elim (Bool-cases (o.eqb k i)) [
    | inl hit ↦ rw hit (rw (← (o.eqb_iff k i).0 hit) (lookup-insert_self k v m))
    | inr miss ↦ rw miss (lookup-insert_ne k i v m miss)
  ]

  pub lookup-remove :
      (k i : K) (m : Map K V) → lookup i (remove k m) ≡ (if o.eqb k i then none else lookup i m)
  unfolding remove
  lookup-remove k i [] = ground arith
  lookup-remove k i ((j, w) ∷ m) =
      ground (arith, lookup-remove k i m, o.eqb_iff j k, o.eqb_iff k i, o.eqb_iff j i)

  -- The sum of a measure over the values.
  abbrev pub sum_values : (V → ℕ) → Map K V → ℕ
  sum_values f [] = 0
  sum_values f ((j, w) ∷ m) = f w + sum_values f m

  -- The new value joins the sum and the old one leaves it.
  pub sum_values-insert :
      (f : V → ℕ) (k : K) (v : V) (m : Map K V)
      → sum_values f (insert k v m) + measure f (lookup k m) ≡ f v + sum_values f m
  unfolding insert
  sum_values-insert f k v [] = omega arith
  sum_values-insert f k v ((j, w) ∷ m) = ground (arith, sum_values-insert f k v m)

  -- Where the key was present the old value leaves the sum.
  pub sum_values-remove-le :
      (f : V → ℕ) (k : K) (m : Map K V)
      → sum_values f (remove k m) + measure f (lookup k m) ≤ sum_values f m
  unfolding remove
  sum_values-remove-le f k [] = omega arith
  sum_values-remove-le f k ((j, w) ∷ m) = ground (arith, sum_values-remove-le f k m)

  pub measure-le-sum_values :
      (f : V → ℕ) (k : K) (m : Map K V) → measure f (lookup k m) ≤ sum_values f m
  measure-le-sum_values f k [] = omega arith
  measure-le-sum_values f k ((j, w) ∷ m) = ground (arith, measure-le-sum_values f k m)
