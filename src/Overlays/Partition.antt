-- ===== src/Overlays/Partition.antt =====
-- Every transaction of a mempool is kept or dropped, once (`OverlayRules::sequence` of
-- sidestr-core/src/overlays.rs).
use sidestr_rs.Base.{
  ℕ, zero, suc, ◌≤◌, inl, inr, Option, List, [], ◌∷◌, map, length, arith, Result-cases,
}
use mathlib.Core.List.{Perm}
use mathlib.Core.List.Perm
use sidestr_rs.Bitcoin.{Bitcoin, Transaction, OutPoint}
use sidestr_rs.Base.Bytes.{Bytes}
use sidestr_rs.Assets.Check.{MintPolicy}
use sidestr_rs.Assets.Carry.{AssetView}
use sidestr_rs.Pool.View.{PoolView}
use sidestr_rs.Markets.State.{MarketView}
use sidestr_rs.Overlays.Sequence.{Views, Dropped, sequence_step, sequence_from, sequence}
use mathlib.Core.List.{◌++◌, perm_middle}

-- The positions from `i` on, `n` of them.
abbrev pub range_from : ℕ → ℕ → List ℕ
range_from i zero = []
range_from i (suc n) = i ∷ range_from (suc i) n

-- The positions rise.
abbrev pub Rising : ℕ → List ℕ → Type 0
Rising i [] = Unit {0}
Rising i (k ∷ ks) = (i ≤ k) × Rising (suc k) ks

abbrev pub positions : List (ℕ × Dropped) → List ℕ
positions = map λ d. d.0

Rising-weaken : (i j : ℕ) (ks : List ℕ) → i ≤ j → Rising j ks → Rising i ks
Rising-weaken i j [] h r = tt
Rising-weaken i j (k ∷ ks) h r = (omega arith, r.1)

module _ (btc : Bitcoin) (policy : MintPolicy) (height from : ℕ)
    (script_of : OutPoint → Option Bytes) where
  sequence_from-perm :
      (i : ℕ) (v : Views) (txs : List Transaction)
      → let s = sequence_from btc policy height from script_of i v txs in
        Perm (s.kept ++ positions s.dropped) (range_from i (length txs))
  unfolding sequence_from
  sequence_from-perm i v [] = Perm.nil
  sequence_from-perm i v (tx ∷ txs) =
      elim (Result-cases (sequence_step btc policy height from script_of v tx)) [
        | inl (v', kept) ↦
            rw (kept, sequence_from) (Perm.cons i (sequence_from-perm (suc i) v' txs))
        | inr (why, dropped) ↦
            rw (dropped, sequence_from)
              (Perm.trans (perm_middle _ _) (Perm.cons i (sequence_from-perm (suc i) v txs)))
      ]

  pub sequence_from-Rising :
      (i : ℕ) (v : Views) (txs : List Transaction)
      → Rising i (sequence_from btc policy height from script_of i v txs).kept
  unfolding sequence_from
  sequence_from-Rising i v [] = tt
  sequence_from-Rising i v (tx ∷ txs) =
      elim (Result-cases (sequence_step btc policy height from script_of v tx)) [
        | inl (v', kept) ↦
            rw (kept, sequence_from) (omega arith, sequence_from-Rising (suc i) v' txs)
        | inr (why, dropped) ↦
            rw (dropped, sequence_from)
              (Rising-weaken i (suc i) _ (omega arith) (sequence_from-Rising (suc i) v txs))
      ]

  -- The kept positions and the dropped ones are together the positions of the mempool, each once,
  -- and the kept ones keep their order.
  pub sequence-partition :
      (assets : AssetView) (pools : Option PoolView) (markets : Option MarketView)
      (txs : List Transaction)
      → let s = sequence btc policy height from script_of assets pools markets txs in
        Perm (s.kept ++ positions s.dropped) (range_from 0 (length txs)) × Rising 0 s.kept
  unfolding sequence
  sequence-partition assets pools markets txs =
      (sequence_from-perm 0 _ txs, sequence_from-Rising 0 _ txs)
