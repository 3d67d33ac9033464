-- ===== src/Hitch/Conservation.antt =====
-- What an update keeps of a channel's value (`next_state` of
-- sidestr-hitch/src/protocol/machine.rs).
use sidestr_rs.Base.{
  ℕ, ◌+◌, ◌≡◌, inl, inr, some, List, [], ◌∷◌, ◌++◌, ◌==◌, ltb, ok, >>=-eq-ok, fail_if,
  fail_if-eq-ok, arith, Bool-cases, Option-cases, leb, ◌&&◌, ok_or, ok_or-eq-ok, not, subst,
  ok-injective, ◌≤◌,
}
use sidestr_rs.Base.Map.{contains_key, nat_ord}
use sidestr_rs.Hitch.Data.{
  Side, side_a, side_b, ProtocolHtlc, Update, pay, add, settle, fail, ProtocolState, no_such_htlc,
  offerer_cannot_settle, wrong_preimage, htlc_expired, offerer_fail_before_expiry, known_preimage,
  funder_fee, same_side,
}
use sidestr_rs.Hitch.Transition.{
  Reading, take_htlc, change, locked, next_state, add_balance, subtract_balance,
}

-- What the HTLCs lock, and all that a state divides.
abbrev pub locked_value : List ProtocolHtlc → ℕ
locked_value [] = 0
locked_value (h ∷ hs) = h.amount + locked_value hs

abbrev pub value : ProtocolState → ℕ
value s = s.balance_a + s.balance_b + locked_value s.htlcs

locked_value-append :
    (hs : List ProtocolHtlc) (h : ProtocolHtlc)
    → locked_value (hs ++ h ∷ []) ≡ locked_value hs + h.amount
locked_value-append [] h = omega arith
locked_value-append (g ∷ hs) h = omega (arith, locked_value-append hs h)

-- Taking an HTLC out takes its amount out.
take_htlc-locked_value :
    (id : ℕ) (hs : List ProtocolHtlc) {h : ProtocolHtlc} {rest : List ProtocolHtlc}
    → take_htlc id hs ≡ some (h, rest)
    → locked_value hs ≡ h.amount + locked_value rest
unfolding take_htlc
take_htlc-locked_value id [] e = ground arith
take_htlc-locked_value id (g ∷ hs) e = elim (Bool-cases (g.id == id)) [
  | inl hit ↦ ground (arith, hit)
  | inr miss ↦ elim (Option-cases (take_htlc id hs)) [
    | inl gone ↦ ground (arith, miss, gone)
    | inr ((k, others), found) ↦ ground (arith, miss, found, take_htlc-locked_value id hs found)
  ]
]

subtract_balance-value :
    (s : ProtocolState) (side : Side) (amount : ℕ) {s' : ProtocolState}
    → subtract_balance s side amount ≡ ok s'
    → (value s ≡ value s' + amount) × (s'.htlcs ≡ s.htlcs)
subtract_balance-value s side_a amount e = ground arith
subtract_balance-value s side_b amount e = ground arith

add_balance-value :
    (s : ProtocolState) (side : Side) (amount : ℕ) {s' : ProtocolState}
    → add_balance s side amount ≡ ok s'
    → (value s' ≡ value s + amount) × (s'.htlcs ≡ s.htlcs)
add_balance-value s side_a amount e = ground arith
add_balance-value s side_b amount e = ground arith

module _ (sha : ℕ → ℕ) (m : Reading) where
  change-value :
      (s : ProtocolState) (u : Update) (sender : Side) (height : ℕ) {s' : ProtocolState}
      → change sha m s u sender height ≡ ok s'
      → value s' ≡ value s
  change-value s (pay amount memo) side_a height e = ground arith
  change-value s (pay amount memo) side_b height e = ground arith
  change-value s (add h memo) side_a height e =
      ground (arith, locked_value-append s.htlcs (locked sha m h side_a))
  change-value s (add h memo) side_b height e =
      ground (arith, locked_value-append s.htlcs (locked sha m h side_b))
  change-value s (settle id preimage) sender height e =
      let ((h, rest), found, e1) = >>=-eq-ok (ok_or no_such_htlc (take_htlc id s.htlcs)) _ e in
      let (_, _, e2) = >>=-eq-ok (fail_if (same_side h.from sender) offerer_cannot_settle) _ e1 in
      let (_, _, e3) = >>=-eq-ok (fail_if (not (sha preimage == h.hash)) wrong_preimage) _ e2 in
      let (_, _, e4) = >>=-eq-ok (fail_if (leb h.expiry height) htlc_expired) _ e3 in
      let back = add_balance-value (record s { htlcs = rest }) sender h.amount e4 in
      let taken =
        take_htlc-locked_value id s.htlcs (ok_or-eq-ok no_such_htlc (take_htlc id s.htlcs) found) in
      omega (arith, back, taken)
  change-value s (fail id reason) sender height e =
      let ((h, rest), found, e1) = >>=-eq-ok (ok_or no_such_htlc (take_htlc id s.htlcs)) _ e in
      let mine = same_side h.from sender in
      let (_, _, e2) =
        >>=-eq-ok (fail_if (mine && ltb height h.expiry) offerer_fail_before_expiry) _ e1 in
      let (_, _, e3) =
        >>=-eq-ok (fail_if (mine && contains_key h.hash m.preimages) known_preimage) _ e2 in
      let back = add_balance-value (record s { htlcs = rest }) h.from h.amount e3 in
      let taken =
        take_htlc-locked_value id s.htlcs (ok_or-eq-ok no_such_htlc (take_htlc id s.htlcs) found) in
      omega (arith, back, taken)

  -- An update keeps all that a state divides, and leaves the funder the fee of a commitment.
  pub next_state-value :
      (s : ProtocolState) (u : Update) (sender : Side) (height : ℕ) {s' : ProtocolState}
      → next_state sha m s u sender height ≡ ok s'
      → (value s' ≡ value s) × (m.fee ≤ s'.balance_a)
  unfolding next_state
  next_state-value s u sender height {s'} e =
      let (t, changed, e1) = >>=-eq-ok (change sha m s u sender height) _ e in
      let kept = change-value s u sender height changed in
      let (fee_left, same) = fail_if-eq-ok (ltb t.balance_a m.fee) funder_fee (ok t) e1 in
      subst (λ x. (value x ≡ value s) × (m.fee ≤ x.balance_a)) (ok-injective same)
        (kept, ground (arith, fee_left))
