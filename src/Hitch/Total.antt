-- ===== src/Hitch/Total.antt =====
-- Every state that a channel holds divides the same total: the predicate, and the shared steps that
-- keep it (sidestr-hitch/src/protocol/machine.rs).
use sidestr_rs.Base.{
  ℕ, ◌≡◌, ◌&&◌, not, Option, none, some, List, [], ◌∷◌, ◌++◌, ◌==◌, All, any, unwrap_or, arith,
  if-elim, sym, subst, ltb,
}
use sidestr_rs.Base.Map.{Map, lookup, insert, remove, contains_key, nat_ord}
use sidestr_rs.Hitch.Data.{ProtocolState, Update}
use sidestr_rs.Hitch.Messages.{Reason}
use sidestr_rs.Hitch.Machine.{Machine, PendingUpdate, SignedAlternative}
use sidestr_rs.Hitch.Internals.{
  drop_pending, announce_dropped, with_alternative, set_aside, same_outputs,
}
use sidestr_rs.Hitch.Conservation.{value}

-- A predicate of every value of a map.
abbrev pub AllValues {ℓ κ} : {V : Type ℓ} → (V → Type κ) → Map ℕ V → Type κ
AllValues P m = All (λ (i, v). P v) m

pub insert-AllValues {ℓ κ} :
    {V : Type ℓ} (P : V → Type κ) (i : ℕ) (v : V) (m : Map ℕ V)
    → P v
    → AllValues P m
    → AllValues P (insert i v m)
unfolding insert
insert-AllValues P i v [] p all_m = (p, all_m)
insert-AllValues P i v ((j, w) ∷ m) p (q, all_m) =
    if-elim (AllValues P) (j == i) (λ _. (p, all_m))
      λ _.
        if-elim (AllValues P) (ltb i j && not (contains_key i m)) (λ _. (p, (q, all_m)))
          (λ _. (q, insert-AllValues P i v m p all_m))

remove-AllValues {ℓ κ} :
    {V : Type ℓ} (P : V → Type κ) (i : ℕ) (m : Map ℕ V) → AllValues P m → AllValues P (remove i m)
unfolding remove
remove-AllValues P i [] all_m = all_m
remove-AllValues P i ((j, w) ∷ m) (q, all_m) =
    if-elim (AllValues P) (j == i) (λ _. remove-AllValues P i m all_m)
      (λ _. (q, remove-AllValues P i m all_m))

-- What a lookup gives, or a predicate of it.
abbrev pub Given {ℓ κ} : {V : Type ℓ} → (V → Type κ) → Option V → Type κ
Given P none = Unit
Given P (some v) = P v

pub lookup-AllValues {ℓ κ} :
    {V : Type ℓ} (P : V → Type κ) (i : ℕ) (m : Map ℕ V) → AllValues P m → Given P (lookup i m)
lookup-AllValues P i [] all_m = tt
lookup-AllValues P i ((j, w) ∷ m) (q, all_m) =
    if-elim (Given P) (j == i) (λ _. q) (λ _. lookup-AllValues P i m all_m)

module _ (total : ℕ) where
  abbrev pub Divides : ProtocolState → Type 0
  Divides s = value s ≡ total

  abbrev pub AllDivide : List SignedAlternative → Type 0
  AllDivide alternatives = All (λ alt. Divides alt.state) alternatives

  -- Every state held, and every alternative signed, divides the total.
  abbrev pub IsFunded : Machine → Type 0
  IsFunded m = AllValues Divides m.states × AllValues AllDivide m.signed_alternatives

  All-append_one :
      (alts : List SignedAlternative) (s : ProtocolState) (u : Update)
      → Divides s
      → AllDivide alts
      → AllDivide (alts ++ record { state = s; update = u } ∷ [])
  All-append_one [] s u d all_alts = (d, tt)
  All-append_one (alt ∷ alts) s u d (q, all_alts) = (q, All-append_one alts s u d all_alts)

  with_alternative-AllDivide :
      (s : ProtocolState) (u : Update) (alts : List SignedAlternative)
      → Divides s
      → AllDivide alts
      → AllDivide (with_alternative s u alts)
  with_alternative-AllDivide s u alts d all_alts =
      if-elim AllDivide (any (λ alt. same_outputs alt.state s) alts) (λ _. all_alts)
        (λ _. All-append_one alts s u d all_alts)

  held-AllDivide :
      (o : Option (List SignedAlternative)) → Given AllDivide o → AllDivide (unwrap_or [] o)
  held-AllDivide none g = tt
  held-AllDivide (some alts) g = g

  pub alternatives-AllDivide :
      (m : Machine) (n : ℕ) → IsFunded m → AllDivide (unwrap_or [] (lookup n m.signed_alternatives))
  alternatives-AllDivide m n funded =
      held-AllDivide (lookup n m.signed_alternatives)
        (lookup-AllValues AllDivide n m.signed_alternatives funded.1)

  set_aside-IsFunded :
      (p : PendingUpdate) (o : Option ProtocolState) (m : Machine)
      → Given Divides o
      → IsFunded m
      → IsFunded (set_aside p o m)
  set_aside-IsFunded p none m g funded = funded
  set_aside-IsFunded p (some s) m d funded = (
    remove-AllValues Divides p.n m.states funded.0,
    insert-AllValues AllDivide p.n
        (with_alternative s p.update (unwrap_or [] (lookup p.n m.signed_alternatives)))
        m.signed_alternatives
        (with_alternative-AllDivide s p.update (unwrap_or [] (lookup p.n m.signed_alternatives)) d
          (alternatives-AllDivide m p.n funded))
        funded.1,
  )

  dropped-IsFunded :
      (o : Option PendingUpdate) (why : Reason) (m : Machine)
      → IsFunded m
      → IsFunded (elim o [
        | none ↦ m
        | some p ↦ record (set_aside p (lookup p.n m.states) (record m { pending = none })) {
          dropped = some (record { update = p.update; reason = why });
        }
      ])
  dropped-IsFunded none why m funded = funded
  dropped-IsFunded (some p) why m funded =
      set_aside-IsFunded p (lookup p.n m.states) (record m { pending = none })
        (lookup-AllValues Divides p.n m.states funded.0) funded

  -- Setting the pending update aside moves its state among the alternatives.
  pub drop_pending-IsFunded :
      (m : Machine) (why : Reason) → IsFunded m → IsFunded (drop_pending why m)
  unfolding drop_pending
  drop_pending-IsFunded m why funded = dropped-IsFunded m.pending why m funded

  -- A machine with the same states and the same alternatives.
  abbrev pub SameStates : Machine → Machine → Type 0
  SameStates m m' = (m'.states ≡ m.states) × (m'.signed_alternatives ≡ m.signed_alternatives)

  pub SameStates-IsFunded : (m m' : Machine) → SameStates m m' → IsFunded m → IsFunded m'
  SameStates-IsFunded m m' same funded = (
    subst (AllValues Divides) (sym (same.0)) (funded.0),
    subst (AllValues AllDivide) (sym (same.1)) (funded.1),
  )

  announce_dropped-SameStates : (m : Machine) → SameStates m (announce_dropped m)
  unfolding announce_dropped
  announce_dropped-SameStates m = ground arith

  pub announce_dropped-IsFunded : (m : Machine) → IsFunded m → IsFunded (announce_dropped m)
  announce_dropped-IsFunded m =
      SameStates-IsFunded m (announce_dropped m) (announce_dropped-SameStates m)
