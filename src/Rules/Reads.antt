-- ===== src/Rules/Reads.antt =====
-- Reading a transaction's inputs (`resolve_spending` of sidestr-core/src/rules.rs) beside spending
-- them (`apply_block`): what the two keep of the same coins.
use sidestr_rs.Base.{
  ℕ, suc, ◌+◌, ◌≤◌, ◌≡◌, refl, sym, ap, ◌∙◌, inl, inr, Bool, true, false, some, List, [], ◌∷◌, ◌++◌,
  leb, arith, Bool-cases, Option-cases, u64_max,
}
use sidestr_rs.Base.Map.{
  Map, lookup, insert, remove, contains_key, sum_values, sum_values-remove-le, lookup-insert,
  lookup-remove, measure, sum_values-insert,
}
use sidestr_rs.Bitcoin.{Bitcoin, OutPoint, TxIn, TxOut, outpoint_ord}
use sidestr_rs.Rules.Verdict.{Params}
use sidestr_rs.Rules.Transaction.{sum_from}
use sidestr_rs.Rules.Utxo.{Coin, Utxo, Applying, coin_of, spend_inputs, create_coins}
use sidestr_rs.Rules.Spending.{Reading, coin_at, read_input, read_inputs, create_here}

-- The value of a set of coins, and of a list of outputs.
abbrev pub coin_value : Coin → ℕ
coin_value c = c.output.value

abbrev pub total_value : Utxo → ℕ
total_value u = sum_values coin_value u

abbrev pub outputs_value : List TxOut → ℕ
outputs_value [] = 0
outputs_value (o ∷ os) = o.value + outputs_value os

-- A checked sum is the sum.
pub sum_from-outputs_value :
    (s : ℕ) (os : List TxOut) {t : ℕ} → sum_from s os ≡ some t → t ≡ s + outputs_value os
sum_from-outputs_value s [] h = ground arith
sum_from-outputs_value s (o ∷ os) {t} h = elim (Bool-cases (leb (s + o.value) u64_max)) [
  | inl fits ↦ omega (arith, sum_from-outputs_value (s + o.value) os (rw (fits, sum_from) at h))
  | inr over ↦ cc (rw (over, sum_from) at h)
]

-- What is not spent in the block stands in the set that the block's transactions so far leave.
abbrev pub Agree : Utxo → Map OutPoint Coin → Map OutPoint (Unit {0}) → Utxo → Type 0
Agree utxo created spent u =
    (k : OutPoint) → contains_key k spent ≡ false → coin_at k created utxo ≡ lookup k u

pub append_nonempty {ℓ κ} : {A : Type ℓ} {B : Type κ} (xs : List A) (x : A) → xs ++ x ∷ [] ≡ [] → B
append_nonempty [] x h = cc
append_nonempty (y ∷ ys) x h = cc

-- Spending a coin keeps the agreement.
Agree-spend :
    (utxo : Utxo) (created : Map OutPoint Coin) (spent : Map OutPoint (Unit {0})) (u : Utxo)
    (key : OutPoint)
    → Agree utxo created spent u
    → Agree utxo created (insert key tt spent) (remove key u)
Agree-spend utxo created spent u key agree k h = elim (Bool-cases (outpoint_ord.eqb key k)) [
  | inl same ↦ cc (rw (contains_key, lookup-insert key k tt spent, same) at h)
  | inr other ↦
      rw (lookup-remove key k u, other)
        (agree k (rw (contains_key, lookup-insert key k tt spent, other) at h))
]

-- Creating a coin in both sets keeps the agreement.
Agree-create :
    (utxo : Utxo) (created : Map OutPoint Coin) (spent : Map OutPoint (Unit {0})) (u : Utxo)
    (key : OutPoint) (c : Coin)
    → Agree utxo created spent u
    → Agree utxo (insert key c created) spent (insert key c u)
Agree-create utxo created spent u key c agree k h = elim (Bool-cases (outpoint_ord.eqb key k)) [
  | inl same ↦ rw (coin_at, lookup-insert key k c created, lookup-insert key k c u, same) refl
  | inr other ↦
      rw (coin_at, lookup-insert key k c created, lookup-insert key k c u, other) (agree k h)
]

module _ (params : Params) (height : ℕ) (utxo : Utxo) (created : Map OutPoint Coin) where
  -- As long as nothing is missing, the value left, the value read and the fees so far are within
  -- the bound.
  abbrev pub Reads : ℕ → Reading → Utxo → Type 0
  Reads bound st u =
      st.s.missing ≡ []
      → Agree utxo created st.spent_here u
        × (total_value u + (st.in_sum + st.s.fees) ≤ bound)
        × (st.values_ok ≡ true)

  pub read_input-Reads :
      (ti ii version : ℕ) (i : TxIn) (bound : ℕ) (st : Reading) (u : Utxo)
      → Reads bound st u
      → Reads bound
          (read_input params height utxo created ti ii version i st)
          (remove i.previous_output u)
  unfolding read_input
  read_input-Reads ti ii version i bound st u reads =
      elim (Bool-cases (contains_key i.previous_output st.spent_here)) [
        | inl spent ↦ rw spent (λ h. append_nonempty st.s.missing i.previous_output h)
        | inr free ↦ rw free (elim (Option-cases (coin_at i.previous_output created utxo)) [
          | inl gone ↦ rw gone (λ h. append_nonempty st.s.missing i.previous_output h)
          | inr (c, found) ↦ rw found (λ h.
              let (agree, sum, fine) = reads h in
              let held : lookup i.previous_output u ≡ some c =
                sym (agree i.previous_output free) ∙ found in
              let value : measure coin_value (lookup i.previous_output u) ≡ c.output.value =
                ap (measure coin_value) held in
              (
                Agree-spend utxo created st.spent_here u i.previous_output agree,
                ground (arith, sum, value, sum_values-remove-le coin_value i.previous_output u),
                fine,
              ))
        ])
      ]

  pub read_inputs-Reads :
      (ti ii version : ℕ) (is : List TxIn) (bound : ℕ) (st : Reading) (a : Applying)
      → Reads bound st a.utxo
      → Reads bound
          (read_inputs params height utxo created ti ii version is st)
          (spend_inputs is a).utxo
  unfolding read_inputs spend_inputs
  read_inputs-Reads ti ii version [] bound st a reads = reads
  read_inputs-Reads ti ii version (i ∷ is) bound st a reads =
      read_inputs-Reads ti (suc ii) version is bound _ _
        (read_input-Reads ti ii version i bound st a.utxo reads)

  read_input-fees :
      (ti ii version : ℕ) (i : TxIn) (st : Reading)
      → let st' = read_input params height utxo created ti ii version i st in
        (st'.s.fees ≡ st.s.fees) × (st'.s.deficits ≡ st.s.deficits)
  unfolding read_input
  read_input-fees ti ii version i st =
      elim (Bool-cases (contains_key i.previous_output st.spent_here)) [
        | inl spent ↦ rw spent (refl, refl)
        | inr free ↦ rw free (elim (Option-cases (coin_at i.previous_output created utxo)) [
          | inl gone ↦ rw gone (refl, refl)
          | inr (c, found) ↦ rw found (refl, refl)
        ])
      ]

  -- Reading inputs touches neither the fees nor the deficits.
  pub read_inputs-fees :
      (ti ii version : ℕ) (is : List TxIn) (st : Reading)
      → let st' = read_inputs params height utxo created ti ii version is st in
        (st'.s.fees ≡ st.s.fees) × (st'.s.deficits ≡ st.s.deficits)
  unfolding read_inputs
  read_inputs-fees ti ii version [] st = (refl, refl)
  read_inputs-fees ti ii version (i ∷ is) st =
      let one = read_input-fees ti ii version i st in
      let rest =
        read_inputs-fees ti (suc ii) version is
          (read_input params height utxo created ti ii version i st) in
      (rest.0 ∙ one.0, rest.1 ∙ one.1)

module _ (btc : Bitcoin) (params : Params) (height : ℕ) (txid : ℕ) (coinbase : Bool)
    (utxo : Utxo) where
  -- Creating outputs in the block's set and in the UTXO set keeps the agreement.
  pub create_here-Agree :
      (vout : ℕ) (os : List TxOut) (created : Map OutPoint Coin) (spent : Map OutPoint (Unit {0}))
      (a : Applying)
      → Agree utxo created spent a.utxo
      → Agree utxo
          (create_here btc params height txid coinbase vout os created)
          spent
          (create_coins btc height txid coinbase vout os a).utxo
  unfolding create_here create_coins
  create_here-Agree vout [] created spent a agree = agree
  create_here-Agree vout (o ∷ os) created spent a agree =
      elim (Bool-cases (btc.is_op_return o.script_pubkey)) [
        | inl skipped ↦
            rw (skipped, create_here, create_coins)
              (create_here-Agree (suc vout) os created spent a agree)
        | inr coin ↦
            rw (coin, create_here, create_coins)
              (create_here-Agree (suc vout) os _ spent _ (
                Agree-create utxo created spent a.utxo (record { txid = txid; vout = vout })
                  (coin_of btc height o coinbase) agree))
      ]

  -- The coins created hold no more than the outputs.
  pub total_value-create_coins :
      (vout : ℕ) (os : List TxOut) (a : Applying)
      → total_value (create_coins btc height txid coinbase vout os a).utxo
        ≤ total_value a.utxo + outputs_value os
  unfolding create_coins
  total_value-create_coins vout [] a = omega arith
  total_value-create_coins vout (o ∷ os) a = elim (Bool-cases (btc.is_op_return o.script_pubkey)) [
    | inl skipped ↦
        rw (skipped, create_coins) (omega (arith, total_value-create_coins (suc vout) os a))
    | inr coin ↦
        let key : OutPoint = record { txid = txid; vout = vout } in
        let c : Coin = coin_of btc height o coinbase in
        rw (coin, create_coins)
          (omega (
            arith,
            total_value-create_coins (suc vout) os
                (record a { utxo = insert key c a.utxo; created = suc a.created }),
            sum_values-insert coin_value key c a.utxo,
          ))
  ]
