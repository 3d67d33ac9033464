-- ===== src/Hitch/Revocation.antt =====
-- Whatever calls drive a channel, and in whatever order its messages come: which secrets it shows,
-- and what a published commitment is worth (sidestr-hitch/src/protocol/machine.rs).
use sidestr_rs.Base.{
  ℕ, ◌≤◌, ◌<◌, ◌≡◌, true, Option, none, some, List, [], ◌∷◌, ◌++◌, ok, arith, inl, inr,
}
use sidestr_rs.Base.Map.{lookup, nat_ord}
use sidestr_rs.Hitch.Machine.{Crypto, Channel, Context, Machine}
use sidestr_rs.Hitch.Internals.{drop_pending, announce_dropped}
use sidestr_rs.Hitch.Closing.{force_close}
use sidestr_rs.Hitch.Steps.{Call, step, run}
use sidestr_rs.Hitch.Sound.{IsSound, StaysShut, is_forced}
use sidestr_rs.Hitch.Shown.{
  IsRevealable, ShowsOnly, KeepsSecrets, KeepsSecrets-trans, KeepsSecrets-same, ShowsOnly-append,
  ShowsOnly-map,
}
use sidestr_rs.Hitch.Guarded.{force_close-facts}
use sidestr_rs.Hitch.Discreet.{step-IsGood}

-- A secret of a state before the current one.
abbrev pub IsPast : Machine → ℕ → Type 0
IsPast m s = (n : ℕ) × (n < m.state_number) × (lookup n m.my_revocation ≡ some s)

-- A secret of a state before a given one.
abbrev pub IsBelow : ℕ → Machine → ℕ → Type 0
IsBelow bound m s = (n : ℕ) × (n < bound) × (lookup n m.my_revocation ≡ some s)

IsRevealable-IsPast : (m : Machine) (s : ℕ) → IsRevealable m s → IsPast m s
IsRevealable-IsPast m s (n, may, is) = (n, ground arith, is)

IsPast-later :
    (m m' : Machine)
    → m.state_number ≤ m'.state_number
    → KeepsSecrets m m'
    → (s : ℕ) → IsPast m s
    → IsPast m' s
IsPast-later m m' le kept s (n, lt, is) = (n, omega (arith, le, lt), kept n s is)

module _ (k : Crypto) (c : Channel) where
  run-facts :
      (m : Machine) (is : List Call)
      → IsSound m
      → IsSound (run k c m is).0
        × (m.state_number ≤ (run k c m is).0.state_number)
        × KeepsSecrets m (run k c m is).0
        × ShowsOnly (IsPast (run k c m is).0) (run k c m is).1
  run-facts m [] sound = (sound, omega arith, λ n s h. h, tt)
  run-facts m (i ∷ is) sound =
      let m1 = (step k c m i).0 in
      let out = (step k c m i).1 in
      let (sound1, le1, kept1, _, shows1) = step-IsGood k c m i sound in
      let m2 = (run k c m1 is).0 in
      let (sound2, le2, kept2, shows2) = run-facts m1 is sound1 in
      (
        sound2,
        omega (arith, le1, le2),
        KeepsSecrets-trans m m1 m2 kept1 kept2,
        ShowsOnly-append (IsPast m2) out (run k c m1 is).1
            (ShowsOnly-map (IsRevealable m1) (IsPast m2)
              (λ s may. IsPast-later m1 m2 le2 kept2 s (IsRevealable-IsPast m1 s may)) out shows1)
            shows2,
      )

  -- The state that a machine has published its commitment of.
  abbrev pub closed_at : Machine → Option ℕ
  closed_at m = elim m.close [ none ↦ none | some r ↦ r.state ]

  abbrev IsShut : ℕ → Machine → Type 0
  IsShut n m = (is_forced m.status ≡ true) × (closed_at m ≡ some n)

  IsShut-kept : (n : ℕ) (m m' : Machine) → IsShut n m → StaysShut m m' → IsShut n m'
  IsShut-kept n m m' shut (inl not_forced) = ground arith
  IsShut-kept n m m' shut (inr (forced, same)) = (forced, rw same (shut.1))

  IsRevealable-IsBelow :
      (n : ℕ) (m : Machine) → IsShut n m → (s : ℕ) → IsRevealable m s → IsBelow n m s
  IsRevealable-IsBelow n m shut s (i, may, is) = (i, ground arith, is)

  IsBelow-later :
      (n : ℕ) (m m' : Machine) → KeepsSecrets m m' → (s : ℕ) → IsBelow n m s → IsBelow n m' s
  IsBelow-later n m m' kept s (i, lt, is) = (i, lt, kept i s is)

  shut_run-IsBelow :
      (n : ℕ) (m : Machine) (is : List Call)
      → IsSound m
      → IsShut n m
      → ShowsOnly (IsBelow n (run k c m is).0) (run k c m is).1
  shut_run-IsBelow n m [] sound shut = tt
  shut_run-IsBelow n m (i ∷ is) sound shut =
      let m1 = (step k c m i).0 in
      let out = (step k c m i).1 in
      let (sound1, _, _, stays, shows1) = step-IsGood k c m i sound in
      let shut1 = IsShut-kept n m m1 shut stays in
      let m2 = (run k c m1 is).0 in
      let (_, _, kept2, _) = run-facts m1 is sound1 in
      ShowsOnly-append (IsBelow n m2) out (run k c m1 is).1
        (ShowsOnly-map (IsRevealable m1) (IsBelow n m2)
          (λ s may. IsBelow-later n m1 m2 kept2 s (IsRevealable-IsBelow n m1 shut1 s may)) out
          shows1)
        (shut_run-IsBelow n m1 is sound1 shut1)

  force_close-IsShut :
      (m : Machine) (ctx : Context) {m' : Machine} {tx : ℕ}
      → force_close k c m none ctx ≡ ok (m', tx)
      → IsShut m.state_number m'
  unfolding force_close announce_dropped drop_pending
  force_close-IsShut m ctx e = ground arith

  -- A channel whose pending update is the next state's, and that can change only while it has
  -- published no close, is such a channel after any calls.
  pub run-IsSound : (m : Machine) (is : List Call) → IsSound m → IsSound (run k c m is).0
  run-IsSound m is sound = (run-facts m is sound).0

  -- Whatever calls drive a sound channel, in whatever order, its state number does not fall and every
  -- secret in the messages it sends is that of a state before the one it is then in.
  pub run-IsPast :
      (m : Machine) (is : List Call)
      → IsSound m
      → (m.state_number ≤ (run k c m is).0.state_number)
        × ShowsOnly (IsPast (run k c m is).0) (run k c m is).1
  run-IsPast m is sound = let (_, le, _, shows) = run-facts m is sound in (le, shows)

  -- Where a sound channel, after any calls, publishes its commitment of the current state, every secret
  -- in the messages it has sent, and in those that any later calls send, is that of an earlier state.
  pub force_close-IsBelow :
      (m : Machine) (before later : List Call) (ctx : Context) {closed : Machine} {tx : ℕ}
      → IsSound m
      → force_close k c (run k c m before).0 none ctx ≡ ok (closed, tx)
      → ShowsOnly
          (IsBelow (run k c m before).0.state_number (run k c closed later).0)
          ((run k c m before).1 ++ (run k c closed later).1)
  force_close-IsBelow m before later ctx {closed} sound e =
      let m1 = (run k c m before).0 in
      let (sound1, _, _, shows1) = run-facts m before sound in
      let (sound2, same, kept, _) = force_close-facts k c m1 sound1 none ctx e in
      let m2 = (run k c closed later).0 in
      let (_, _, kept2, _) = run-facts closed later sound2 in
      let n = m1.state_number in
      ShowsOnly-append (IsBelow n m2) (run k c m before).1 (run k c closed later).1
        (ShowsOnly-map (IsPast m1) (IsBelow n m2)
          (λ s (i, lt, is). (i, lt, kept2 i s (KeepsSecrets-same m1 closed kept i s is)))
          (run k c m before).1 shows1)
        (shut_run-IsBelow n closed later sound2 (force_close-IsShut m1 ctx e))
