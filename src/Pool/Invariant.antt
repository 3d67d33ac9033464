-- ===== src/Pool/Invariant.antt =====
-- The two maps of `PoolView` agree (sidestr-core/src/pool.rs): every pool is found by its coin.
use sidestr_rs.Base.{
  ℕ, ◌≤◌, ◌≡◌, refl, sym, ap, ◌∙◌, subst, inl, inr, false, Option, none, some, ◌==◌, arith,
  Bool-cases,
}
use sidestr_rs.Base.Map.{
  Map, lookup, insert, lookup-insert, lookup-insert_self, lookup-insert_ne, lookup-remove, nat_ord,
}
use sidestr_rs.Bitcoin.{OutPoint, outpoint_ord, outpoint_eq_iff}
use sidestr_rs.Pool.Transition.{Pool}
use sidestr_rs.Pool.View.{PoolView, no_pools, apply, forget_coin}

pub record IsValid (view : PoolView) : Type 0 where
  pub coins :
      (i : ℕ) (p : Pool)
      → lookup i view.pools ≡ some p
      → (p.id ≡ i) × (1 ≤ p.sats) × (lookup p.outpoint view.by_outpoint ≡ some i)
  pub owners :
      (o : OutPoint) (i : ℕ)
      → lookup o view.by_outpoint ≡ some i
      → (p : Pool) × (lookup i view.pools ≡ some p) × (p.outpoint ≡ o)

pub no_pools-IsValid : IsValid no_pools
no_pools-IsValid = record { coins = λ i p e. cc; owners = λ o i e. cc }

module _ (view : PoolView) (v : IsValid view) (p : Pool) (live : 1 ≤ p.sats)
    (fresh : lookup p.outpoint view.by_outpoint ≡ none) where
  -- The map of coins without the old coin of the pool.
  abbrev forgotten : Map OutPoint ℕ
  forgotten = forget_coin (lookup p.id view.pools) view.by_outpoint

  -- Another pool's coin is still known.
  forgotten-other :
      (o : Option Pool)
      → lookup p.id view.pools ≡ o
      → (i : ℕ) (c : OutPoint) → (p.id == i) ≡ false
      → lookup c view.by_outpoint ≡ some i
      → lookup c (forget_coin o view.by_outpoint) ≡ some i
  forgotten-other none e i c ne h = h
  forgotten-other (some before) e i c ne h =
      let (_, _, known) = v.coins p.id before e in
      ground
        (arith, lookup-remove before.outpoint c view.by_outpoint, outpoint_eq_iff before.outpoint c)

  -- And what is still known is no coin of this pool.
  forgotten-owner :
      (o : Option Pool)
      → lookup p.id view.pools ≡ o
      → (i : ℕ) (c : OutPoint) → lookup c (forget_coin o view.by_outpoint) ≡ some i
      → (lookup c view.by_outpoint ≡ some i) × ((p.id == i) ≡ false)
  forgotten-owner none e i c h = (
    h,
    elim (Bool-cases (p.id == i)) [
      | inl same ↦
          let (q, known, _) = v.owners c i h in let eq : p.id ≡ i = ground arith in cc (rw eq at e)
      | inr other ↦ other
    ],
  )
  forgotten-owner (some before) e i c h =
      let removed = lookup-remove before.outpoint c view.by_outpoint in
      elim (Bool-cases (outpoint_ord.eqb before.outpoint c)) [
        | inl hit ↦ ground (arith, removed)
        | inr miss ↦
            let known : lookup c view.by_outpoint ≡ some i = ground (arith, removed) in
            (
              known,
              elim (Bool-cases (p.id == i)) [
                | inl same ↦
                    let (q, found, at) = v.owners c i known in
                    let eq : p.id ≡ i = ground arith in
                    let found' : some before ≡ some q = sym (rw eq at e) ∙ found in
                    let one : before ≡ q = cc in
                    let there : before.outpoint ≡ c = ap (λ (x : Pool). x.outpoint) one ∙ at in
                    cc (sym miss ∙ (outpoint_eq_iff before.outpoint c).1 there)
                | inr other ↦ other
              ],
            )
      ]

  -- A coin that is known is not the new one.
  apart :
      (c : OutPoint) (i : ℕ)
      → lookup c view.by_outpoint ≡ some i
      → outpoint_ord.eqb p.outpoint c ≡ false
  apart c i known = elim (Bool-cases (outpoint_ord.eqb p.outpoint c)) [
    | inl hit ↦
        let same : p.outpoint ≡ c = (outpoint_eq_iff p.outpoint c).0 hit in
        cc (sym fresh ∙ (ap (λ x. lookup x view.by_outpoint) same ∙ known))
    | inr miss ↦ miss
  ]

  -- Recording a pool whose coin is new, and has a value, keeps the two maps in agreement.
  pub apply-IsValid : IsValid (apply view p)
  unfolding apply
  apply-IsValid = record {
    coins = λ i q e.
        let at = lookup-insert p.id i p view.pools in
        elim (Bool-cases (p.id == i)) [
          | inl same ↦
              let found : some p ≡ some q = sym (rw same at at) ∙ e in
              let one : p ≡ q = cc in
              let eq : p.id ≡ i = ground arith in
              subst
                (λ (x : Pool).
                  (x.id ≡ i)
                  × (1 ≤ x.sats)
                  × (lookup x.outpoint (insert p.outpoint p.id forgotten) ≡ some i))
                one (eq, live, lookup-insert_self p.outpoint p.id forgotten ∙ ap some eq)
          | inr other ↦
              let found : lookup i view.pools ≡ some q = sym (rw other at at) ∙ e in
              let (named, pos, known) = v.coins i q found in
              (
                named,
                pos,
                lookup-insert_ne p.outpoint q.outpoint p.id forgotten (apart q.outpoint i known)
                    ∙ forgotten-other (lookup p.id view.pools) refl i q.outpoint other known,
              )
        ];
    owners = λ c i e.
        let coin = lookup-insert p.outpoint c p.id forgotten in
        elim (Bool-cases (outpoint_ord.eqb p.outpoint c)) [
          | inl hit ↦
              let found : some p.id ≡ some i = sym (rw hit at coin) ∙ e in
              let eq : p.id ≡ i = cc in
              (
                p,
                subst (λ j. lookup j (insert p.id p view.pools) ≡ some p) eq
                    (lookup-insert_self p.id p view.pools),
                (outpoint_eq_iff p.outpoint c).0 hit,
              )
          | inr miss ↦
              let known : lookup c forgotten ≡ some i = sym (rw miss at coin) ∙ e in
              let (before, differs) = forgotten-owner (lookup p.id view.pools) refl i c known in
              let (q, found, there) = v.owners c i before in
              (q, rw (lookup-insert p.id i p view.pools, differs) found, there)
        ];
  }
