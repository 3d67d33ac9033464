-- ===== src/Markets/Life.antt =====
-- A market from its opening on (`MarketView::check` of sidestr-core/src/markets.rs): the moves of
-- its status, and its solvency over any sequence of accepted transactions.
use sidestr_rs.Base.{
  ℕ, ◌≤◌, ◌<◌, ◌≡◌, ◌≢◌, refl, ◌⊎◌, inl, inr, Bool, true, false, Option, none, some, List, arith,
  ok, >>=-eq-ok, ok_or, ok-injective, checked_sub, sym, ◌∙◌, subst,
}
use sidestr_rs.Base.Bytes.{Bytes}
use sidestr_rs.Base.Map.{Map}
use sidestr_rs.Bitcoin.{Bitcoin, Transaction}
use sidestr_rs.Records.Market.{
  MarketRecord, MarketOutcome, open_market, split_pair, merge_pair, redeem, resolve,
}
use sidestr_rs.Records.Classify.{Classified}
use sidestr_rs.Assets.Rule.{AssetTrace}
use sidestr_rs.Markets.State.{Market, MarketStatus, is_open, resolved, refunding, market_coin}
use sidestr_rs.Markets.Actions.{
  not_a_market_coin, Pairs, pairs, deadline, positive, redeem_at, redeem_winner, check_split,
  check_merge, check_redeem, redeem_not_shrunk, check_open, check_resolve, check_action,
}
use sidestr_rs.Markets.Solvency.{
  Supply, Covered, Outstanding, NotMinted, after_pairs, check_split-Covered, check_merge-Covered,
  check_redeem-Covered, resolve-Covered,
}

abbrev pub is_split : MarketRecord → Bool
is_split (split_pair m v) = true
is_split _ = false

-- The terms of a market never change.
abbrev pub SameTerms : Market → Market → Type 0
SameTerms m m' =
    (m'.resolver ≡ m.resolver)
    × (m'.expiry ≡ m.expiry)
    × (m'.grace ≡ m.grace)
    × (m'.question ≡ m.question)
    × (m'.id ≡ m.id)
    × (m'.opened ≡ m.opened)

-- The moves of a market's status at a height.
pub data Phase (height : ℕ) (m m' : Market) : Type 0 where
  stays : m'.status ≡ m.status → m'.winner ≡ m.winner → Phase height m m'
  resolves :
      (w : MarketOutcome)
      → m.status ≡ is_open
      → height ≤ deadline m
      → m'.status ≡ resolved
      → m'.winner ≡ some w
      → m'.collateral ≡ m.collateral
      → Phase height m m'
  refunds :
      m.status ≢ resolved
      → deadline m < height
      → m'.status ≡ refunding
      → m'.winner ≡ m.winner
      → Phase height m m'

redeem_winner-resolved :
    (w : Option MarketOutcome) (amount : ℕ) (p : Pairs) {st : MarketStatus}
    → redeem_winner w amount p ≡ ok st
    → st ≡ resolved
redeem_winner-resolved none amount p e = cc
redeem_winner-resolved (some w) amount p e = ground arith

-- A status after a redemption.
redeem_at-Phase :
    (st : MarketStatus) (m : Market) (height amount : ℕ) (p : Pairs) {st' : MarketStatus}
    → redeem_at st m height amount p ≡ ok st'
    → ((st ≡ resolved) × (st' ≡ resolved))
      ⊎ ((st ≢ resolved) × (deadline m < height) × (st' ≡ refunding))
redeem_at-Phase is_open m height amount p e = inr (λ h. cc, ground arith, ground arith)
redeem_at-Phase resolved m height amount p e =
    inl (refl, redeem_winner-resolved m.winner amount p e)
redeem_at-Phase refunding m height amount p e = inr (λ h. cc, ground arith, ground arith)

check_redeem-Phase :
    (m : Market) (height c : ℕ) (p : Pairs) {st : MarketStatus}
    → check_redeem m height c p ≡ ok st
    → ((m.status ≡ resolved) × (st ≡ resolved))
      ⊎ ((m.status ≢ resolved) × (deadline m < height) × (st ≡ refunding))
unfolding check_redeem
check_redeem-Phase m height c p e =
    let (amount, found, e') =
      >>=-eq-ok (positive redeem_not_shrunk (checked_sub m.collateral c)) _ e in
    redeem_at-Phase m.status m height amount p e'

module _ (btc : Bitcoin) (tx : Transaction) (trace : AssetTrace) (height : ℕ) where
  market_coin-pos : (vout : ℕ) {v : ℕ} → market_coin tx trace vout ≡ some v → 1 ≤ v
  unfolding market_coin
  market_coin-pos vout e = ground arith

  -- A market opens with a collateral and none of its assets outstanding.
  check_open-Covered :
      (cls : Classified) (spent : List ℕ) (vout : ℕ) (resolver : Bytes) (expiry grace : ℕ)
      {m : Market}
      → check_open btc tx trace height cls spent vout resolver expiry grace ≡ ok m
      → Covered m.status m.winner m.collateral (record { yes_supply = 0; no_supply = 0 })
  unfolding check_open
  check_open-Covered cls spent vout resolver expiry grace e = ground (arith, market_coin-pos vout)

  check_resolve_lem :
      (scripts : Map ℕ Bytes) (m : Market) (w : MarketOutcome) {m' : Market}
      → check_resolve btc tx trace height scripts m w ≡ ok m'
      → (m.status ≡ is_open)
        × (height ≤ deadline m)
        × (m'.status ≡ resolved)
        × (m'.winner ≡ some w)
        × (m'.collateral ≡ m.collateral)
        × SameTerms m m'
  unfolding check_resolve
  check_resolve_lem scripts m w e = ground arith

  -- An accepted record that spends the market's coin keeps the market's terms and moves its status
  -- as `Phase` says: it stays, or an open market is resolved by the deadline with its collateral
  -- untouched, or a market that is not resolved begins to refund after the deadline.
  pub check_action-Phase :
      (scripts : Map ℕ Bytes) (i : ℕ) (m : Market) (rec : MarketRecord) {m' : Market}
      → check_action btc tx trace height scripts i m rec ≡ ok m'
      → SameTerms m m' × Phase height m m'
  unfolding check_action
  check_action-Phase scripts i m (resolve market w) e =
      let (opened, early, now, won, kept, terms) = check_resolve_lem scripts m w e in
      (terms, resolves w opened early now won kept)
  check_action-Phase scripts i m (split_pair market vout) e =
      let (c, coin, e1) = >>=-eq-ok (ok_or not_a_market_coin (market_coin tx trace vout)) _ e in
      let (_, passed, e2) =
        >>=-eq-ok (check_split m.collateral c (pairs btc tx trace height i)) _ e1 in
      (ground arith, stays (ground arith) (ground arith))
  check_action-Phase scripts i m (merge_pair market vout) e =
      let (c, coin, e1) = >>=-eq-ok (ok_or not_a_market_coin (market_coin tx trace vout)) _ e in
      let (_, passed, e2) =
        >>=-eq-ok (check_merge m.collateral c (pairs btc tx trace height i)) _ e1 in
      (ground arith, stays (ground arith) (ground arith))
  check_action-Phase scripts i m (redeem market vout) e =
      let (c, coin, e1) = >>=-eq-ok (ok_or not_a_market_coin (market_coin tx trace vout)) _ e in
      let (st, passed, e2) =
        >>=-eq-ok (check_redeem m height c (pairs btc tx trace height i)) _ e1 in
      let made = ok-injective e2 in
      subst (λ x. SameTerms m x × Phase height m x) made
        (
          (refl, refl, refl, refl, refl, refl),
          elim (check_redeem-Phase m height c (pairs btc tx trace height i) passed) [
            | inl (was, now) ↦ stays (now ∙ sym was) refl
            | inr (not_done, late, now) ↦ refunds not_done late now refl
          ],
        )
  check_action-Phase scripts i m (open_market vout resolver expiry grace) e = cc

  -- While its collateral covers what a market owes it does so after any accepted record too, where
  -- what the transaction carries in was outstanding and only a split mints.
  pub check_action-Covered :
      (scripts : Map ℕ Bytes) (i : ℕ) (m : Market) (rec : MarketRecord) (s : Supply) {m' : Market}
      → check_action btc tx trace height scripts i m rec ≡ ok m'
      → Outstanding (pairs btc tx trace height i) s
      → (is_split rec ≡ false → NotMinted (pairs btc tx trace height i))
      → Covered m.status m.winner m.collateral s
      → Covered m'.status m'.winner m'.collateral (after_pairs (pairs btc tx trace height i) s)
  unfolding check_action
  check_action-Covered scripts i m (resolve market w) s {m'} e o n h =
      let (opened, early, now, won, kept, terms) = check_resolve_lem scripts m w e in
      let p : Pairs = pairs btc tx trace height i in
      let h' : Covered is_open none m.collateral s =
        subst (λ st. Covered st m.winner m.collateral s) opened h in
      let done = resolve-Covered w m.collateral p s o (n refl) h' in rw (now, won, kept) done
  check_action-Covered scripts i m (split_pair market vout) s e o n h =
      let p : Pairs = pairs btc tx trace height i in
      let (c, coin, e1) = >>=-eq-ok (ok_or not_a_market_coin (market_coin tx trace vout)) _ e in
      let (_, passed, e2) = >>=-eq-ok (check_split m.collateral c p) _ e1 in
      subst (λ (x : Market). Covered x.status x.winner x.collateral (after_pairs p s))
        (ok-injective e2) (check_split-Covered m.status m.winner m.collateral c p s passed o h)
  check_action-Covered scripts i m (merge_pair market vout) s e o n h =
      let p : Pairs = pairs btc tx trace height i in
      let (c, coin, e1) = >>=-eq-ok (ok_or not_a_market_coin (market_coin tx trace vout)) _ e in
      let (_, passed, e2) = >>=-eq-ok (check_merge m.collateral c p) _ e1 in
      subst (λ (x : Market). Covered x.status x.winner x.collateral (after_pairs p s))
        (ok-injective e2) (check_merge-Covered m.status m.winner m.collateral c p s passed o h)
  check_action-Covered scripts i m (redeem market vout) s e o n h =
      let p : Pairs = pairs btc tx trace height i in
      let (c, coin, e1) = >>=-eq-ok (ok_or not_a_market_coin (market_coin tx trace vout)) _ e in
      let (st, passed, e2) = >>=-eq-ok (check_redeem m height c p) _ e1 in
      subst (λ (x : Market). Covered x.status x.winner x.collateral (after_pairs p s))
        (ok-injective e2) (check_redeem-Covered m height c p s passed o h)
  check_action-Covered scripts i m (open_market vout resolver expiry grace) s e o n h = cc

-- The accepted transactions of one market, from its opening: the market and the outstanding
-- amounts that they leave.
pub data Life (btc : Bitcoin) : Market → Supply → Type 0 where
  opens :
      (tx : Transaction) (trace : AssetTrace) (height : ℕ) (cls : Classified) (spent : List ℕ)
      (vout : ℕ) (resolver : Bytes) (expiry grace : ℕ) {m : Market}
      → check_open btc tx trace height cls spent vout resolver expiry grace ≡ ok m
      → Life btc m (record { yes_supply = 0; no_supply = 0 })
  acts :
      {m : Market} {s : Supply} (tx : Transaction) (trace : AssetTrace) (height : ℕ)
      (scripts : Map ℕ Bytes) (rec : MarketRecord) {m' : Market}
      → Life btc m s
      → check_action btc tx trace height scripts m.id m rec ≡ ok m'
      → Outstanding (pairs btc tx trace height m.id) s
      → (is_split rec ≡ false → NotMinted (pairs btc tx trace height m.id))
      → Life btc m' (after_pairs (pairs btc tx trace height m.id) s)

-- Over its whole life a market's collateral exceeds what it owes: either side while it is open, the
-- winner once it is resolved, half a sat a unit while it refunds. Each transaction carries in what
-- was outstanding, and only splits mint.
pub Life-Covered :
    (btc : Bitcoin) {m : Market} {s : Supply}
    → Life btc m s
    → Covered m.status m.winner m.collateral s
Life-Covered btc (opens tx trace height cls spent vout resolver expiry grace e) =
    check_open-Covered btc tx trace height cls spent vout resolver expiry grace e
Life-Covered btc (acts {m} {s} tx trace height scripts rec life e o n) =
    check_action-Covered btc tx trace height scripts m.id m rec s e o n (Life-Covered btc life)
