-- ===== src/Assets/Carry.antt =====
-- The state of the assets view, and the sums of what inputs carry (sidestr-core/src/assets.rs).
use sidestr_rs.Base.{ℕ, Option, none, some, List, [], ◌∷◌, u64_max, saturating_add, unwrap_or}
use sidestr_rs.Base.Bytes.{Bytes}
use sidestr_rs.Base.Map.{Map, lookup, insert, nat_ord}
use sidestr_rs.Bitcoin.{OutPoint, TxIn, outpoint_ord}

-- Asset id to amount.
abbrev pub Carry : Type 0
Carry = Map ℕ ℕ

pub record Issued : Type 0 where
  pub ticker : Bytes
  pub decimals : ℕ
  pub height : ℕ
  pub supply : ℕ
  pub market : Option ℕ

pub record AssetView : Type 0 where
  pub carried : Map OutPoint Carry
  pub issued : Map ℕ Issued

-- `AssetView::new`
abbrev pub empty_view : AssetView
empty_view = record { carried = []; issued = [] }

-- `c.get(&asset).copied().unwrap_or(0)`
abbrev pub carry_of : ℕ → Carry → ℕ
carry_of asset c = unwrap_or 0 (lookup asset c)

unfoldable pub sum_into : Carry → Carry → Carry
unfolding insert
sum_into total [] = total
sum_into total ((asset, n) ∷ c) =
    sum_into (insert asset (saturating_add u64_max (carry_of asset total) n) total) c

-- What one input adds: nothing unless its outpoint carries something.
abbrev pub add_carried : Carry → Option Carry → Carry
add_carried total none = total
add_carried total (some c) = sum_into total c

-- The loop of `check_inner` over the inputs.
unfoldable pub add_inputs : Map OutPoint Carry → List TxIn → Carry → Carry
unfolding sum_into
add_inputs carried [] carried_in = carried_in
add_inputs carried (i ∷ is) carried_in =
    add_inputs carried is (add_carried carried_in (lookup i.previous_output carried))

-- `AssetView::holdings`: the outpoints that carry the asset, each with its amount.
unfoldable pub holdings_of : ℕ → Map OutPoint Carry → List (OutPoint × ℕ)
holdings_of asset [] = []
holdings_of asset ((op, c) ∷ m) =
    let rest = holdings_of asset m in
    elim (lookup asset c) [ none ↦ rest | some n ↦ (op, n) ∷ rest ]
