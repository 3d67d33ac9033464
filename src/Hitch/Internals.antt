-- ===== src/Hitch/Internals.antt =====
-- The steps inside a channel's operations that set an update aside, take a revocation or finish an
-- update: the private methods of `ChannelMachine` (sidestr-hitch/src/protocol/machine.rs).
use sidestr_rs.Base.{
  ℕ, ◌+◌, Bool, true, false, ◌||◌, ◌&&◌, not, Option, none, some, List, [], ◌∷◌, ◌++◌, ◌==◌, leb,
  any, unwrap_or, if◌then◌else◌,
}
use sidestr_rs.Base.Map.{Map, lookup, insert, remove, contains_key, nat_ord}
use sidestr_rs.Hitch.Data.{same_side, ProtocolHtlc, ProtocolState, Text, Update, add, settle, fail}
use sidestr_rs.Hitch.Messages.{Reason, said}
use sidestr_rs.Hitch.Machine.{
  Crypto, Machine, PendingUpdate, AwaitingRevoke, SignedAlternative, DroppedUpdate, ChannelEvent,
  dropped_event, payment_event, outcome_failed, outcome_not_made, outcome_sent, FinalisedUpdate,
}
use sidestr_rs.Hitch.Reads.{is_some, offered_in}

-- `map.entry(k).or_insert(v)`
abbrev pub or_insert {ℓ} : {V : Type ℓ} → ℕ → V → Map ℕ V → Map ℕ V
or_insert k v m = if contains_key k m then m else insert k v m

-- The hash is computed here, so only a true preimage is ever kept.
abbrev pub remember_preimage : Crypto → ℕ → Machine → Machine
remember_preimage k preimage m = record m {
  preimages = or_insert (k.sha preimage) preimage m.preimages;
}

abbrev pub bump_htlc_seq : Update → Machine → Machine
bump_htlc_seq (add htlc memo) m = record m {
  htlc_seq = if leb m.htlc_seq (htlc.id + 1) then htlc.id + 1 else m.htlc_seq;
}
bump_htlc_seq u m = m

abbrev same_route : Option ℕ → Option ℕ → Bool
same_route none none = true
same_route (some a) (some b) = a == b
same_route x y = false

abbrev same_htlcs : List ProtocolHtlc → List ProtocolHtlc → Bool
same_htlcs [] [] = true
same_htlcs (g ∷ gs) (h ∷ hs) =
    (g.id == h.id)
    && same_side g.from h.from
    && (g.amount == h.amount)
    && (g.hash == h.hash)
    && (g.expiry == h.expiry)
    && same_route g.route h.route
    && same_htlcs gs hs
same_htlcs gs hs = false

abbrev pub same_outputs : ProtocolState → ProtocolState → Bool
same_outputs s t =
    (s.balance_a == t.balance_a) && (s.balance_b == t.balance_b) && same_htlcs s.htlcs t.htlcs

-- `remember_alternative`
abbrev pub with_alternative :
    ProtocolState → Update → List SignedAlternative → List SignedAlternative
with_alternative s update alternatives =
    if any (λ alt. same_outputs alt.state s) alternatives
    then alternatives
    else alternatives ++ record { state = s; update = update } ∷ []

abbrev pub remember_alternative : ℕ → ProtocolState → Update → Machine → Machine
remember_alternative n s update m = record m {
  signed_alternatives =
      insert n (with_alternative s update (unwrap_or [] (lookup n m.signed_alternatives)))
        m.signed_alternatives;
}

-- The pending update's state, taken out of the states and remembered.
abbrev pub set_aside : PendingUpdate → Option ProtocolState → Machine → Machine
set_aside p none m = m
set_aside p (some s) m =
    remember_alternative p.n s p.update (record m { states = remove p.n m.states })

unfoldable pub drop_pending : Reason → Machine → Machine
drop_pending why m = elim m.pending [
  | none ↦ m
  | some p ↦ record (set_aside p (lookup p.n m.states) (record m { pending = none })) {
    dropped = some (record { update = p.update; reason = why });
  }
]

abbrev announce : DroppedUpdate → List ChannelEvent
announce d = elim d.update [
  | add htlc memo ↦ payment_event htlc.hash outcome_not_made (some d.reason) ∷ dropped_event d ∷ []
  | _ ↦ dropped_event d ∷ []
]

unfoldable pub announce_dropped : Machine → Machine
announce_dropped m = if is_some m.pending || is_some m.awaiting then m else elim m.dropped [
  | none ↦ m
  | some d ↦ record m { dropped = none; events = m.events ++ announce d }
]

abbrev pub take_their_reveal : Crypto → ℕ → ℕ → Machine → Bool × Machine
take_their_reveal k index reveal m = elim (lookup index m.their_revocation_public) [
  | none ↦ (false, m)
  | some point ↦
      if not (contains_key index m.their_revocation)
        && k.is_secret reveal
        && (k.public reveal == point)
      then (true, record m { their_revocation = insert index reveal m.their_revocation })
      else (false, m)
]

abbrev pub knows_reveal : Machine → ℕ → ℕ → Bool
knows_reveal m index reveal = elim (lookup index m.their_revocation) [
  | none ↦ false
  | some known ↦ known == reveal
]

-- A reason's text, if the message gives one.
abbrev pub told : Option Text → Option Reason
told none = none
told (some t) = some (said t)

-- What the finished update of the other side's means for an HTLC this peer offered.
abbrev finished : Machine → AwaitingRevoke → List ChannelEvent
finished m a = elim a.update [
  | settle htlc_id preimage ↦ elim (offered_in m a.previous htlc_id) [
    | none ↦ []
    | some was ↦ payment_event was.hash outcome_sent none ∷ []
  ]
  | fail htlc_id reason ↦ elim (offered_in m a.previous htlc_id) [
    | none ↦ []
    | some was ↦ payment_event was.hash outcome_failed (told reason) ∷ []
  ]
  | _ ↦ []
]

-- Their revocation of the state before the one they proposed makes that state final.
unfoldable pub finalise : Machine → Option FinalisedUpdate × Machine
finalise m = elim m.awaiting [
  | none ↦ (none, m)
  | some a ↦
      if contains_key a.previous m.their_revocation
      then (
        some (record { n = a.n; update = a.update; sender = a.sender }),
        announce_dropped (record m { awaiting = none; events = m.events ++ finished m a }),
      )
      else (none, m)
]
