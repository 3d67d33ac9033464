-- ===== src/Hitch/Publishable.antt =====
-- The signed commitment that a channel could publish, and the steps that concern it
-- (sidestr-hitch/src/protocol/machine.rs).
use sidestr_rs.Base.{
  ℕ, ◌+◌, ◌≡◌, ◌∙◌, true, false, none, some, inl, inr, ok, arith, subst, sym, ap, ◌==◌,
}
use sidestr_rs.Base.Map.{
  Map, lookup, insert, nat_ord, lookup-insert, lookup-insert_self, lookup-remove,
}
use sidestr_rs.Hitch.Data.{ProtocolState, Update}
use sidestr_rs.Hitch.Messages.{UpdateMessage, Reason, they_won}
use sidestr_rs.Hitch.Machine.{Crypto, Channel, Context, Machine}
use sidestr_rs.Hitch.Internals.{or_insert, drop_pending}
use sidestr_rs.Hitch.Proposing.{propose, sign_update}
use sidestr_rs.Hitch.Answering.{accepted}
use sidestr_rs.Hitch.Sound.{pending_is_next}
use sidestr_rs.Hitch.Held.{SameHeld}
use sidestr_rs.Hitch.Signed.{Signs, Signs-kept}
use sidestr_rs.Hitch.Received.{IsReceived}
use sidestr_rs.Hitch.Funded.{propose-signs}

lookup-or_insert_ne :
    (i v : ℕ) (n : ℕ) (m : Map ℕ ℕ) → (i == n) ≡ false → lookup n (or_insert i v m) ≡ lookup n m
lookup-or_insert_ne i v n m ne = ground (arith, lookup-insert i n v m)

-- What setting the pending update aside leaves as it was, but for its state.
pub drop_pending-keeps :
    (why : Reason) (m : Machine)
    → ((drop_pending why m).state_number ≡ m.state_number)
      × ((drop_pending why m).signatures ≡ m.signatures)
      × ((drop_pending why m).role ≡ m.role)
      × ((drop_pending why m).their_revocation_base ≡ m.their_revocation_base)
      × ((drop_pending why m).my_revocation ≡ m.my_revocation)
      × ((drop_pending why m).pending ≡ none)
unfolding drop_pending
drop_pending-keeps why m = ground arith

drop_pending-state :
    (why : Reason) (m : Machine)
    → pending_is_next m ≡ true
    → lookup m.state_number (drop_pending why m).states ≡ lookup m.state_number m.states
unfolding drop_pending
drop_pending-state why m next = grind (arith, lookup-remove)

module _ (k : Crypto) (c : Channel) where
  -- The state of a number is held, with the other side's signature of this side's commitment of it.
  abbrev IsSignedAt : Machine → ℕ → Type 0
  IsSignedAt m n =
      (s : ProtocolState) × (sig : ℕ) × (lookup n m.states ≡ some s)
      × (lookup n m.signatures ≡ some sig)
      × Signs k c m n s sig

  -- So is the current one, and a pending update is the next state's.
  abbrev pub IsPublishable : Machine → Type 0
  IsPublishable m = (pending_is_next m ≡ true) × IsSignedAt m m.state_number

  IsSignedAt-kept :
      (m m' : Machine) (n : ℕ)
      → lookup n m'.states ≡ lookup n m.states
      → lookup n m'.signatures ≡ lookup n m.signatures
      → m'.role ≡ m.role
      → m'.their_revocation_base ≡ m.their_revocation_base
      → lookup n m'.my_revocation ≡ lookup n m.my_revocation
      → IsSignedAt m n
      → IsSignedAt m' n
  IsSignedAt-kept m m' n states signatures role base secret (s, sig, held, known, signed) = (
    s,
    sig,
    states ∙ held,
    signatures ∙ known,
    Signs-kept k c m m' n s sig role base secret signed,
  )

  pub same-IsPublishable : (m m' : Machine) → SameHeld m m' → IsPublishable m → IsPublishable m'
  same-IsPublishable m m' (states, _, signatures, number, secrets, role, base, _, pending)
        (next, at) =
      (
        pending ∙ next,
        subst (IsSignedAt m') (sym number) (
            IsSignedAt-kept m m' m.state_number (ap (lookup m.state_number) states)
              (ap (lookup m.state_number) signatures) role base (ap (lookup m.state_number) secrets)
              at),
      )

  pub dropped-IsPublishable :
      (m : Machine) (why : Reason) → IsPublishable m → IsPublishable (drop_pending why m)
  dropped-IsPublishable m why (next, at) =
      let d = drop_pending why m in
      let (number, signatures, role, base, secrets, free) = drop_pending-keeps why m in
      (
        ground (arith, free),
        subst (IsSignedAt d) (sym number) (
            IsSignedAt-kept m d m.state_number (drop_pending-state why m next)
              (ap (lookup m.state_number) signatures) role base (ap (lookup m.state_number) secrets)
              at),
      )

  sign_update-facts :
      (m : Machine) (u : Update) (s : ProtocolState) (next : ℕ) (ctx : Context) {m' : Machine}
      {x : UpdateMessage}
      → sign_update k c m u s next ctx ≡ ok (m', x)
      → (m'.states ≡ insert (m.state_number + 1) s m.states)
        × (m'.signatures ≡ m.signatures)
        × (m'.state_number ≡ m.state_number)
        × (m'.role ≡ m.role)
        × (m'.their_revocation_base ≡ m.their_revocation_base)
        × (m'.my_revocation ≡ or_insert (m.state_number + 1 + 1) next m.my_revocation)
        × (pending_is_next m' ≡ true)
  unfolding sign_update
  sign_update-facts m u s next ctx e = ground arith

  pub proposed-IsPublishable :
      (m : Machine) (u : Update) (next : ℕ) (ctx : Context) (m' : Machine) (x : UpdateMessage)
      → IsPublishable m
      → propose k c m u next ctx ≡ ok (m', x)
      → IsPublishable m'
  proposed-IsPublishable m u next ctx m' x (_, at) e =
      let n = m.state_number in
      let (_, v, s, _, _, signed) = propose-signs k c m u next ctx e in
      let (states, signatures, number, role, base, secrets, pending) =
        sign_update-facts m v s next ctx signed in
      (
        pending,
        subst (IsSignedAt m') (sym number) (
            IsSignedAt-kept m m' n (rw states (ground (arith, lookup-insert (n + 1) n s m.states)))
              (ap (lookup n) signatures) role base
              (rw secrets (lookup-or_insert_ne (n + 1 + 1) next n m.my_revocation (ground arith)))
              at),
      )

  -- A machine that went on to a state signed.
  abbrev pub Advances : Machine → ℕ → ProtocolState → ℕ → Machine → Type 0
  Advances m n s sig m' =
      (m'.state_number ≡ n)
      × (lookup n m'.states ≡ some s)
      × (lookup n m'.signatures ≡ some sig)
      × (m'.role ≡ m.role)
      × (m'.their_revocation_base ≡ m.their_revocation_base)
      × (lookup n m'.my_revocation ≡ lookup n m.my_revocation)
      × (pending_is_next m' ≡ true)

  pub Advances-IsPublishable :
      (m m' : Machine) (n : ℕ) (s : ProtocolState) (sig : ℕ)
      → Signs k c m n s sig
      → Advances m n s sig m'
      → IsPublishable m'
  Advances-IsPublishable m m' n s sig signed (number, state, known, role, base, secret, pending) = (
    pending,
    subst (IsSignedAt m') (sym number)
        (s, sig, state, known, Signs-kept k c m m' n s sig role base secret signed),
  )

  accepted-facts :
      (m : Machine) (u : UpdateMessage) (s : ProtocolState) (next : ℕ) (ctx : Context)
      → m.pending ≡ none
      → ((accepted k c m u s next ctx).states ≡ insert u.n s m.states)
        × ((accepted k c m u s next ctx).signatures ≡ insert u.n u.sig m.signatures)
        × ((accepted k c m u s next ctx).my_revocation ≡ or_insert (u.n + 1) next m.my_revocation)
        × ((accepted k c m u s next ctx).state_number ≡ u.n)
        × ((accepted k c m u s next ctx).role ≡ m.role)
        × ((accepted k c m u s next ctx).their_revocation_base ≡ m.their_revocation_base)
        × (pending_is_next (accepted k c m u s next ctx) ≡ true)
  accepted-facts m u s next ctx free = ground arith

  accepted-Advances :
      (m : Machine) (u : UpdateMessage) (s : ProtocolState) (next : ℕ) (ctx : Context)
      → Advances m u.n s u.sig (accepted k c (drop_pending they_won m) u s next ctx)
  accepted-Advances m u s next ctx =
      let d = drop_pending they_won m in
      let (_, _, role, base, secrets, free) = drop_pending-keeps they_won m in
      let (states', signatures', secrets', number', role', base', pending') =
        accepted-facts d u s next ctx free in
      (
        number',
        rw states' (lookup-insert_self u.n s d.states),
        rw signatures' (lookup-insert_self u.n u.sig d.signatures),
        role' ∙ role,
        base' ∙ base,
        rw secrets' (
            lookup-or_insert_ne (u.n + 1) next u.n d.my_revocation (ground arith)
            ∙ ap (lookup u.n) secrets),
        pending',
      )

  pub received-IsPublishable :
      (m : Machine) (u : UpdateMessage) (next : ℕ) (ctx : Context) (m' : Machine)
      → IsPublishable m
      → IsReceived k c m u next ctx m'
      → IsPublishable m'
  received-IsPublishable m u next ctx m' good (inl same) = subst IsPublishable (sym same) good
  received-IsPublishable m u next ctx m' good (inr (inl held)) = subst IsPublishable (sym held) good
  received-IsPublishable m u next ctx m' good (inr (inr (current, s, _, _, _, _, signed, taken))) =
      let d = drop_pending they_won m in
      subst IsPublishable (sym taken) (
        Advances-IsPublishable m (accepted k c d u s next ctx) u.n s u.sig signed
          (accepted-Advances m u s next ctx))
