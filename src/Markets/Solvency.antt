-- ===== src/Markets/Solvency.antt =====
-- The collateral of a market covers what its outcome assets are owed (`MarketView::check` of
-- sidestr-core/src/markets.rs).
use sidestr_rs.Base.{
  ℕ, ◌+◌, ◌-◌, ◌*◌, ◌≤◌, ◌<◌, ◌≡◌, Option, none, some, checked_sub, arith, ok, >>=-eq-ok,
}
use sidestr_rs.Records.Market.{MarketOutcome, yes_wins, no_wins}
use sidestr_rs.Markets.State.{Market, MarketStatus, is_open, resolved, refunding}
use sidestr_rs.Markets.Actions.{
  MarketError, Pairs, positive, check_split, check_merge, check_redeem, redeem_at,
  redeem_not_shrunk, redeem_winner, refund,
}

-- The outstanding amounts of the two assets.
pub record Supply : Type 0 where
  pub yes_supply : ℕ
  pub no_supply : ℕ

abbrev pub supply_for : MarketOutcome → Supply → ℕ
supply_for yes_wins s = s.yes_supply
supply_for no_wins s = s.no_supply

-- What a market owes stays below its collateral, so its last holder can be paid and its coin keeps
-- a value: either side while it is open, the winner once it is resolved, half a sat for each unit
-- of both sides while it refunds.
abbrev pub Covered : MarketStatus → Option MarketOutcome → ℕ → Supply → Type 0
Covered is_open w c s = (s.yes_supply < c) × (s.no_supply < c)
Covered resolved none c s = ⊥
Covered resolved (some w) c s = supply_for w s < c
Covered refunding w c s = s.yes_supply + s.no_supply < 2 * c

-- What a transaction does to the supplies: it takes in and gives out.
abbrev pub after_pairs : Pairs → Supply → Supply
after_pairs p s = record {
  yes_supply = s.yes_supply - p.yes_in + p.yes_out;
  no_supply = s.no_supply - p.no_in + p.no_out;
}

-- What comes in was outstanding.
abbrev pub Outstanding : Pairs → Supply → Type 0
Outstanding p s = (p.yes_in ≤ s.yes_supply) × (p.no_in ≤ s.no_supply)

-- Nothing is created of either asset.
abbrev pub NotMinted : Pairs → Type 0
NotMinted p = (p.yes_out ≤ p.yes_in) × (p.no_out ≤ p.no_in)

pub check_split-Covered :
    (st : MarketStatus) (w : Option MarketOutcome) (c c' : ℕ) (p : Pairs) (s : Supply)
    → check_split c c' p ≡ ok tt
    → Outstanding p s
    → Covered st w c s
    → Covered st w c' (after_pairs p s)
unfolding check_split
check_split-Covered is_open w c c' p s e o h = ground arith
check_split-Covered resolved none c c' p s e o h = h
check_split-Covered resolved (some yes_wins) c c' p s e o h = ground arith
check_split-Covered resolved (some no_wins) c c' p s e o h = ground arith
check_split-Covered refunding w c c' p s e o h = ground arith

pub check_merge-Covered :
    (st : MarketStatus) (w : Option MarketOutcome) (c c' : ℕ) (p : Pairs) (s : Supply)
    → check_merge c c' p ≡ ok tt
    → Outstanding p s
    → Covered st w c s
    → Covered st w c' (after_pairs p s)
unfolding check_merge
check_merge-Covered is_open w c c' p s e o h = ground arith
check_merge-Covered resolved none c c' p s e o h = h
check_merge-Covered resolved (some yes_wins) c c' p s e o h = ground arith
check_merge-Covered resolved (some no_wins) c c' p s e o h = ground arith
check_merge-Covered refunding w c c' p s e o h = ground arith

redeem_winner-Covered :
    (w : Option MarketOutcome) (c amount : ℕ) (p : Pairs) (s : Supply) {st : MarketStatus}
    → redeem_winner w amount p ≡ ok st
    → amount ≤ c
    → Outstanding p s
    → Covered resolved w c s
    → Covered st w (c - amount) (after_pairs p s)
redeem_winner-Covered none c amount p s e a o h = absurd h
redeem_winner-Covered (some yes_wins) c amount p s {st = is_open} e a o h = ground arith
redeem_winner-Covered (some yes_wins) c amount p s {st = resolved} e a o h = ground arith
redeem_winner-Covered (some yes_wins) c amount p s {st = refunding} e a o h = ground arith
redeem_winner-Covered (some no_wins) c amount p s {st = is_open} e a o h = ground arith
redeem_winner-Covered (some no_wins) c amount p s {st = resolved} e a o h = ground arith
redeem_winner-Covered (some no_wins) c amount p s {st = refunding} e a o h = ground arith

refund-Covered :
    (m : Market) (height c amount : ℕ) (p : Pairs) (s : Supply) {st : MarketStatus}
    → refund m height amount p ≡ ok st
    → amount ≤ c
    → Outstanding p s
    → s.yes_supply + s.no_supply < 2 * c
    → Covered st m.winner (c - amount) (after_pairs p s)
refund-Covered m height c amount p s {st = is_open} e a o h = ground arith
refund-Covered m height c amount p s {st = resolved} e a o h = ground arith
refund-Covered m height c amount p s {st = refunding} e a o h = ground arith

pub positive-eq-ok :
    (x : MarketError) (o : Option ℕ) {n : ℕ} → positive x o ≡ ok n → (o ≡ some n) × (1 ≤ n)
positive-eq-ok x none e = cc
positive-eq-ok x (some m) e = ground arith

redeem_at-Covered :
    (st₀ : MarketStatus) (m : Market) (height amount : ℕ) (p : Pairs) (s : Supply)
    {st : MarketStatus}
    → redeem_at st₀ m height amount p ≡ ok st
    → amount ≤ m.collateral
    → Outstanding p s
    → Covered st₀ m.winner m.collateral s
    → Covered st m.winner (m.collateral - amount) (after_pairs p s)
redeem_at-Covered is_open m height amount p s e a o h =
    refund-Covered m height m.collateral amount p s e a o (omega arith)
redeem_at-Covered resolved m height amount p s e a o h =
    redeem_winner-Covered m.winner m.collateral amount p s e a o h
redeem_at-Covered refunding m height amount p s e a o h =
    refund-Covered m height m.collateral amount p s e a o h

pub check_redeem-Covered :
    (m : Market) (height c' : ℕ) (p : Pairs) (s : Supply) {st : MarketStatus}
    → check_redeem m height c' p ≡ ok st
    → Outstanding p s
    → Covered m.status m.winner m.collateral s
    → Covered st m.winner c' (after_pairs p s)
unfolding check_redeem
check_redeem-Covered m height c' p s {st} e o h =
    let (amount, found, e') =
      >>=-eq-ok (positive redeem_not_shrunk (checked_sub m.collateral c')) _ e in
    let (shrunk, pos) = positive-eq-ok redeem_not_shrunk (checked_sub m.collateral c') found in
    let left : (amount ≤ m.collateral) × (c' ≡ m.collateral - amount) = ground arith in
    rw (left.1) (redeem_at-Covered m.status m height amount p s e' left.0 o h)

pub resolve-Covered :
    (w : MarketOutcome) (c : ℕ) (p : Pairs) (s : Supply)
    → Outstanding p s
    → NotMinted p
    → Covered is_open none c s
    → Covered resolved (some w) c (after_pairs p s)
resolve-Covered yes_wins c p s o n h = omega arith
resolve-Covered no_wins c p s o n h = omega arith
