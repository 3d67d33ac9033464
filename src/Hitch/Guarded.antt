-- ===== src/Hitch/Guarded.antt =====
-- The steps of a channel that are no answer to an acknowledgement: each keeps the machine sound,
-- goes on, and shows only what may be shown (sidestr-hitch/src/protocol/machine.rs).
use sidestr_rs.Base.{
  ℕ, zero, suc, ◌+◌, ◌≡◌, refl, inl, inr, Option, none, some, List, [], ◌∷◌, ◌-◌, ◌⊎◌, ◌∙◌, All, ok,
  arith, subst, sym,
}
use sidestr_rs.Base.Map.{nat_ord}
use sidestr_rs.Hitch.Data.{Update}
use sidestr_rs.Hitch.Messages.{
  PeerMessage, UpdateMessage, AckMessage, RevokeMessage, CloseMessage, SyncTag, sync_message,
  update_message,
}
use sidestr_rs.Hitch.Machine.{Crypto, Channel, Context, Machine, FinalisedUpdate}
use sidestr_rs.Hitch.Internals.{
  or_insert, drop_pending, announce_dropped, finalise, take_their_reveal,
}
use sidestr_rs.Hitch.Proposing.{propose, sign_update, confirm_funding}
use sidestr_rs.Hitch.Answering.{acknowledgement, acknowledgement_of}
use sidestr_rs.Hitch.Closing.{close_channel, receive_close, force_close}
use sidestr_rs.Hitch.Recovery.{shown, previous_shown, asked, position}
use sidestr_rs.Hitch.Agreeing.{receive_revoke}
use sidestr_rs.Hitch.Sound.{
  IsSound, SameCore, finalise-SameCore, take_their_reveal-SameCore, SameCore-IsSound,
  SameCore-trans, SameCore-StaysShut, StaysShut,
}
use sidestr_rs.Hitch.Shown.{
  secrets, secrets_of, IsRevealable, ShowsOnly, IsGood, KeepsSecrets-same, All-append, maybe,
  KeepsSecrets-or_insert,
}

-- A step that leaves the core, and shows nothing or what may be shown.
pub SameCore-IsGood :
    (m m' : Machine) (out : List PeerMessage)
    → SameCore m m'
    → IsSound m'
    → ShowsOnly (IsRevealable m') out
    → IsGood m (m', out)
SameCore-IsGood m m' out same sound shows =
    (sound, omega (arith, same), KeepsSecrets-same m m' same.1, SameCore-StaysShut m m' same, shows)

pub unchanged-IsGood : (m : Machine) → IsSound m → IsGood m (m, [])
unchanged-IsGood m sound =
    (sound, omega arith, λ n s h. h, SameCore-StaysShut m m (refl, refl, refl, refl), tt)

-- What a shown secret is.
shown-IsRevealable : (m : Machine) (n : ℕ) {s : ℕ} → shown m n ≡ some s → IsRevealable m s
shown-IsRevealable m n e = (n, ground arith, ground arith)

previous_shown-IsRevealable :
    (m : Machine) (n : ℕ) {s : ℕ} → previous_shown m n ≡ some s → IsRevealable m s
previous_shown-IsRevealable m (suc n) e = shown-IsRevealable m n e
previous_shown-IsRevealable m zero e = cc

pub acknowledgement_of-IsRevealable :
    (k : Crypto) (c : Channel) (m : Machine) (n : ℕ) (ctx : Context) {a : AckMessage}
    → acknowledgement_of k c m n ctx ≡ ok (some a)
    → IsRevealable m a.reveal
acknowledgement_of-IsRevealable k c m zero ctx e = cc
acknowledgement_of-IsRevealable k c m (suc previous) ctx e = (previous, ground arith, ground arith)

pub acknowledgement-IsRevealable :
    (k : Crypto) (c : Channel) (m : Machine) (ctx : Context) {a : AckMessage}
    → acknowledgement k c m ctx ≡ ok (some a)
    → IsRevealable m a.reveal
unfolding acknowledgement
acknowledgement-IsRevealable k c m ctx e =
    acknowledgement_of-IsRevealable k c m m.state_number ctx e

asked_first-IsRevealable :
    (m : Machine) (n : ℕ) (rest : List (ℕ × ℕ)) (o : Option ℕ)
    → shown m n ≡ o
    → All (IsRevealable m) (secrets_of rest)
    → All (IsRevealable m) (secrets_of (elim o [ none ↦ rest | some secret ↦ (n, secret) ∷ rest ]))
asked_first-IsRevealable m n rest none e all_rest = all_rest
asked_first-IsRevealable m n rest (some s) e all_rest = (shown-IsRevealable m n e, all_rest)

asked-IsRevealable : (m : Machine) (ns : List ℕ) → All (IsRevealable m) (secrets_of (asked m ns))
asked-IsRevealable m [] = tt
asked-IsRevealable m (n ∷ ns) =
    asked_first-IsRevealable m n (asked m ns) (shown m n) refl (asked-IsRevealable m ns)

maybe-IsRevealable :
    (m : Machine) (o : Option ℕ)
    → ((s : ℕ) → o ≡ some s → IsRevealable m s)
    → All (IsRevealable m) (maybe o)
maybe-IsRevealable m none f = tt
maybe-IsRevealable m (some s) f = (f s refl, tt)

-- What a machine says of its position.
position_reveal-IsRevealable :
    (m : Machine) → All (IsRevealable m) (maybe (previous_shown m m.state_number))
position_reveal-IsRevealable m =
    maybe-IsRevealable m (previous_shown m m.state_number)
      (λ s e. previous_shown-IsRevealable m m.state_number e)

pub position-IsRevealable :
    (m : Machine) (tag : SyncTag) → All (IsRevealable m) (secrets (sync_message (position m tag)))
unfolding position
position-IsRevealable m tag =
    All-append (IsRevealable m) (maybe (previous_shown m m.state_number)) []
      (position_reveal-IsRevealable m) tt

pub synced-IsRevealable :
    (m : Machine) (tag : SyncTag) (ns : List ℕ)
    → All
        (IsRevealable m)
        (secrets (sync_message (record (position m tag) { reveals = some (asked m ns) })))
unfolding position
synced-IsRevealable m tag ns =
    All-append (IsRevealable m) (maybe (previous_shown m m.state_number)) (secrets_of (asked m ns))
      (position_reveal-IsRevealable m) (asked-IsRevealable m ns)

-- A sound machine at the same state, with the same secrets.
abbrev pub IsNext : Machine → Machine → Type 0
IsNext m m' =
    IsSound m'
    × (m'.state_number ≡ m.state_number)
    × (m'.my_revocation ≡ m.my_revocation)
    × StaysShut m m'

-- A secret received is taken, and may make the update awaited final, or changes nothing.
pub receive_revoke-cases :
    (k : Crypto) (c : Channel) (m : Machine) (r : RevokeMessage) {m' : Machine}
    {x : Option FinalisedUpdate}
    → receive_revoke k c m r ≡ ok (m', x)
    → (m' ≡ m) ⊎ (m' ≡ (finalise (take_their_reveal k (r.n - 1) r.reveal m).1).1)
unfolding receive_revoke
receive_revoke-cases k c m r e = ground arith

-- The calls that show nothing.
module _ (k : Crypto) (c : Channel) (m : Machine) (sound : IsSound m) where
  propose-facts :
      (u : Update) (next : ℕ) (ctx : Context) {m' : Machine} {x : UpdateMessage}
      → propose k c m u next ctx ≡ ok (m', x)
      → IsSound m'
        × (m'.state_number ≡ m.state_number)
        × (m'.my_revocation ≡ or_insert (m.state_number + 1 + 1) next m.my_revocation)
        × StaysShut m m'
  unfolding propose sign_update
  propose-facts u next ctx e = ground arith

  pub propose-IsGood :
      (u : Update) (next : ℕ) (ctx : Context) {m' : Machine} {x : UpdateMessage}
      → propose k c m u next ctx ≡ ok (m', x)
      → IsGood m (m', update_message x ∷ [])
  propose-IsGood u next ctx {m'} e =
      let (sound', same, kept, shut) = propose-facts u next ctx e in
      (
        sound',
        omega (arith, same),
        KeepsSecrets-or_insert m m' (m.state_number + 1 + 1) next kept,
        shut,
        (tt, tt),
      )

  pub confirm_funding-IsGood : (height : ℕ) → IsGood m (confirm_funding height m, [])
  confirm_funding-IsGood height = (ground arith, omega arith, λ n s h. h, ground arith, tt)

  pub close_channel-facts :
      (ctx : Context) {m' : Machine} {x : CloseMessage}
      → close_channel k c m ctx ≡ ok (m', x)
      → IsNext m m'
  unfolding close_channel
  close_channel-facts ctx e = ground arith

  pub receive_close-facts :
      (message : CloseMessage) (ctx : Context) {m' : Machine} {x : ℕ}
      → receive_close k c m message ctx ≡ ok (m', x)
      → IsNext m m'
  unfolding receive_close
  receive_close-facts message ctx e = ground arith

  pub force_close-facts :
      (n : Option ℕ) (ctx : Context) {m' : Machine} {x : ℕ}
      → force_close k c m n ctx ≡ ok (m', x)
      → IsNext m m'
  unfolding force_close announce_dropped drop_pending
  force_close-facts n ctx e = ground arith

  pub facts-IsGood :
      (m' : Machine) (out : List PeerMessage)
      → IsNext m m'
      → ShowsOnly (IsRevealable m') out
      → IsGood m (m', out)
  facts-IsGood m' out (sound', same, kept, shut) shows =
      (sound', omega (arith, same), KeepsSecrets-same m m' kept, shut, shows)

  pub SameCore-facts : (m' : Machine) → SameCore m m' → m'.pending ≡ m.pending → IsNext m m'
  SameCore-facts m' same kept =
      (SameCore-IsSound m m' same kept sound, same.0, same.1, SameCore-StaysShut m m' same)

  pub receive_revoke-facts :
      (r : RevokeMessage) {m' : Machine} {x : Option FinalisedUpdate}
      → receive_revoke k c m r ≡ ok (m', x)
      → IsNext m m'
  receive_revoke-facts r e = elim (receive_revoke-cases k c m r e) [
    | inl same ↦
        subst (IsNext m) (sym same)
          (sound, refl, refl, SameCore-StaysShut m m (refl, refl, refl, refl))
    | inr done ↦
        let taken = (take_their_reveal k (r.n - 1) r.reveal m).1 in
        let (core, kept) = take_their_reveal-SameCore k (r.n - 1) r.reveal m in
        let (core', kept') = finalise-SameCore taken in
        subst (IsNext m) (sym done) (
          SameCore-facts (finalise taken).1 (SameCore-trans m taken (finalise taken).1 core core')
            (kept' ∙ kept))
  ]
