-- ===== src/Hitch/Received.antt =====
-- What an update of the other side's can make of a channel (`receive_update` of
-- sidestr-hitch/src/protocol/machine.rs).
use sidestr_rs.Base.{
  ℕ, ◌+◌, ◌≡◌, refl, inl, inr, true, ◌&&◌, not, Option, none, some, Result, ok, err, arith, ◌⊎◌,
  Result-cases, subst, Bool-cases, >>=-eq-ok, fail_if, sym, ◌∙◌,
}
use sidestr_rs.Hitch.Data.{other, ProtocolState, ProtocolError, stale_chain}
use sidestr_rs.Hitch.Transition.{next_state}
use sidestr_rs.Hitch.Messages.{AckMessage, UpdateMessage, they_won, update_message_well_formed}
use sidestr_rs.Hitch.Machine.{Crypto, Channel, Context, Machine}
use sidestr_rs.Hitch.Reads.{current_state, reading, their_pop_ok, commitment_at, verifies}
use sidestr_rs.Hitch.Internals.{drop_pending}
use sidestr_rs.Hitch.Signed.{Signs}
use sidestr_rs.Hitch.Proposing.{is_open, is_pay, no_missing_reveal}
use sidestr_rs.Hitch.Answering.{
  Answer, final, took, answered, accepted, verify_update, same_update, next_update, open_update,
  checked_update, receive_update, acknowledge, resend_acknowledgement, acknowledgement,
}

module _ (k : Crypto) (c : Channel) where
  -- The update was taken: it gives the next state of the current one.
  abbrev pub IsTaken : Machine → UpdateMessage → ℕ → Context → Machine → Type 0
  IsTaken m u next ctx m' =
      (current : ProtocolState) × (s : ProtocolState) × (is_open m.status ≡ true)
      × (u.n ≡ m.state_number + 1)
      × (current_state m ≡ ok current)
      × (next_state k.sha (reading k c m) current u.update (other m.role) ctx.height ≡ ok s)
      × Signs k c m u.n s u.sig
      × (m' ≡ accepted k c (drop_pending they_won m) u s next ctx)

  abbrev pub IsReceived : Machine → UpdateMessage → ℕ → Context → Machine → Type 0
  IsReceived m u next ctx m' =
      (m' ≡ m) ⊎ ((m' ≡ record m { buffered = some u }) ⊎ IsTaken m u next ctx m')

  -- The acknowledgement that an answer carries.
  abbrev pub carries : Answer → Option AckMessage
  carries (final (acknowledge x)) = some x
  carries (final (resend_acknowledgement x)) = some x
  carries x = none

  verify_update-cases :
      (m : Machine) (u : UpdateMessage) (s : ProtocolState) (next : ℕ) (ctx : Context)
      {m' : Machine} {a : Answer}
      → verify_update k c m u s next ctx ≡ ok (m', a)
      → (carries a ≡ none) × ((m' ≡ m) ⊎ (m' ≡ accepted k c (drop_pending they_won m) u s next ctx))
  unfolding verify_update
  verify_update-cases m u s next ctx e = ground arith

  verify_update-Signs :
      (m : Machine) (u : UpdateMessage) (s : ProtocolState) (next : ℕ) (ctx : Context)
      {m' : Machine} {a : Answer}
      → verify_update k c m u s next ctx ≡ ok (m', a)
      → (m' ≡ m) ⊎ Signs k c m u.n s u.sig
  unfolding verify_update
  verify_update-Signs m u s next ctx e =
      let (mine, made, e1) = >>=-eq-ok (commitment_at k c m m.role u.n s) _ e in
      elim (Bool-cases (verifies k c m mine u.sig)) [
        | inl good ↦ inr (mine, made, good)
        | inr bad ↦ inl (ground (arith, bad, e1))
      ]

  same_update-unchanged :
      (m : Machine) (u : UpdateMessage) (ctx : Context) {m' : Machine} {a : Answer}
      → same_update k c m u ctx ≡ ok (m', a)
      → m' ≡ m
  unfolding same_update
  same_update-unchanged m u ctx e = ground arith

  next_update-cases :
      (m : Machine) (u : UpdateMessage) (next : ℕ) (ctx : Context) {m' : Machine} {a : Answer}
      → next_update k c m u next ctx ≡ ok (m', a)
      → ((m' ≡ m) × (carries a ≡ none))
        ⊎ ((current : ProtocolState) × (s : ProtocolState) × (current_state m ≡ ok current)
            × (next_state k.sha (reading k c m) current u.update (other m.role) ctx.height ≡ ok s)
            × (verify_update k c m u s next ctx ≡ ok (m', a)))
  unfolding next_update
  next_update-cases m u next ctx e =
      let (_, _, e1) = >>=-eq-ok (no_missing_reveal m) _ e in
      let (_, _, e2) = >>=-eq-ok (fail_if (not (is_pay u.update) && ctx.stale) stale_chain) _ e1 in
      let (current, now, e3) = >>=-eq-ok (current_state m) _ e2 in
      elim (Bool-cases (their_pop_ok k c m (u.n + 1) u.next_rev u.next_rev_pop)) [
        | inr bad ↦ inl (ground (arith, bad, e3), ground (arith, bad, e3))
        | inl good ↦
            elim (Result-cases
              (next_state k.sha (reading k c m) current u.update (other m.role) ctx.height)) [
                | inl (s, next_ok) ↦
                    inr (current, s, now, next_ok, ground (arith, good, next_ok, e3))
                | inr (f, failed) ↦
                    inl (ground (arith, good, failed, e3), ground (arith, good, failed, e3))
              ]
      ]

  open_update-cases :
      (m : Machine) (u : UpdateMessage) (next : ℕ) (ctx : Context) {m' : Machine} {a : Answer}
      → open_update k c m u next ctx ≡ ok (m', a)
      → (is_open m.status ≡ true)
        × ((same_update k c m u ctx ≡ ok (m', a))
            ⊎ (((m' ≡ record m { buffered = some u }) × (carries a ≡ none))
                ⊎ ((u.n ≡ m.state_number + 1) × (next_update k c m u next ctx ≡ ok (m', a)))))
  unfolding open_update
  open_update-cases m u next ctx e = ground arith

  open_update-IsReceived :
      (m : Machine) (u : UpdateMessage) (next : ℕ) (ctx : Context) {m' : Machine} {a : Answer}
      → open_update k c m u next ctx ≡ ok (m', a)
      → IsReceived m u next ctx m'
  open_update-IsReceived m u next ctx e =
      let (opened, cases) = open_update-cases m u next ctx e in
      elim cases [
        | inl again ↦ inl (same_update-unchanged m u ctx again)
        | inr (inl (held, _)) ↦ inr (inl held)
        | inr (inr (numbered, taken)) ↦ elim (next_update-cases m u next ctx taken) [
          | inl (same, _) ↦ inl same
          | inr (current, s, now, next_ok, verified) ↦
              elim (verify_update-cases m u s next ctx verified).1 [
                | inl same ↦ inl same
                | inr taken_so ↦ elim (verify_update-Signs m u s next ctx verified) [
                  | inl same ↦ inl same
                  | inr signed ↦
                      inr (inr (current, s, opened, numbered, now, next_ok, signed, taken_so))
                ]
              ]
        ]
      ]

  checked_update-cases :
      (m : Machine) (u : UpdateMessage) (next : ℕ) (ctx : Context) {m' : Machine} {a : Answer}
      → checked_update k c m u next ctx ≡ ok (m', a)
      → ((m' ≡ m) × (carries a ≡ none)) ⊎ (open_update k c m u next ctx ≡ ok (m', a))
  checked_update-cases m u next ctx e =
      let (_, _, e1) = >>=-eq-ok (update_message_well_formed u) _ e in ground (arith, e1)

  same_update-carries :
      (m : Machine) (u : UpdateMessage) (ctx : Context) {m' : Machine} {a : Answer} {x : AckMessage}
      → same_update k c m u ctx ≡ ok (m', a)
      → carries a ≡ some x
      → acknowledgement k c m ctx ≡ ok (some x)
  unfolding same_update
  same_update-carries m u ctx e is = ground arith

  open_update-carries :
      (m : Machine) (u : UpdateMessage) (next : ℕ) (ctx : Context) {m' : Machine} {a : Answer}
      → open_update k c m u next ctx ≡ ok (m', a)
      → (carries a ≡ none) ⊎ (same_update k c m u ctx ≡ ok (m', a))
  open_update-carries m u next ctx e = elim (open_update-cases m u next ctx e).1 [
    | inl again ↦ inr again
    | inr (inl (_, absent)) ↦ inl absent
    | inr (inr (_, taken)) ↦ elim (next_update-cases m u next ctx taken) [
      | inl (_, absent) ↦ inl absent
      | inr (_, s, _, _, verified) ↦ inl (verify_update-cases m u s next ctx verified).0
    ]
  ]

  -- An acknowledgement that is an answer is the machine's own, made again.
  pub checked_update-carries :
      (m : Machine) (u : UpdateMessage) (next : ℕ) (ctx : Context) {m' : Machine} {a : Answer}
      {x : AckMessage}
      → checked_update k c m u next ctx ≡ ok (m', a)
      → carries a ≡ some x
      → (m' ≡ m) × (acknowledgement k c m ctx ≡ ok (some x))
  checked_update-carries m u next ctx e is = elim (checked_update-cases m u next ctx e) [
    | inl (_, absent) ↦ ground (arith, absent)
    | inr opened ↦ elim (open_update-carries m u next ctx opened) [
      | inl absent ↦ ground (arith, absent)
      | inr same ↦ (same_update-unchanged m u ctx same, same_update-carries m u ctx same is)
    ]
  ]

  answered-machine :
      (m : Machine) (ctx : Context) (r : Result ProtocolError (Machine × Answer))
      → ((answered k c m ctx r).0 ≡ m)
        ⊎ ((m' : Machine) × (a : Answer) × (r ≡ ok (m', a)) × ((answered k c m ctx r).0 ≡ m'))
  answered-machine m ctx (err e) = inl refl
  answered-machine m ctx (ok (m', final r)) = inr (m', final r, refl, refl)
  answered-machine m ctx (ok (m', took)) = inr (m', took, refl, refl)

  -- An update received changes nothing, is held, or is taken as the next state.
  pub receive_update-IsReceived :
      (m : Machine) (u : UpdateMessage) (next : ℕ) (ctx : Context)
      → IsReceived m u next ctx (receive_update k c m u next ctx).0
  unfolding receive_update
  receive_update-IsReceived m u next ctx =
      elim (answered-machine m ctx (checked_update k c m u next ctx)) [
        | inl same ↦ inl same
        | inr (m', a, e, is) ↦ elim (checked_update-cases m u next ctx e) [
          | inl (same, _) ↦ inl (is ∙ same)
          | inr opened ↦
              subst (IsReceived m u next ctx) (sym is) (open_update-IsReceived m u next ctx opened)
        ]
      ]
