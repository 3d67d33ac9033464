-- ===== src/Hitch/Reads.antt =====
-- What is read of a channel's state: the methods of `ChannelMachine` that change nothing
-- (sidestr-hitch/src/protocol/machine.rs).
use sidestr_rs.Base.{
  ℕ, zero, suc, ◌+◌, ◌-◌, Bool, true, false, ◌&&◌, not, Option, none, some, List, [], ◌∷◌, ◌==◌,
  ltb, leb, any, unwrap_or, u32_max, saturating_add, Result, ok_or, ◌>>=◌, if◌then◌else◌,
}
use sidestr_rs.Base.Map.{lookup, contains_key, nat_ord}
use sidestr_rs.Hitch.Data.{
  Side, other, same_side, ProtocolHtlc, ProtocolState, Bound, bound_state, bound_pending, bound_alt,
  bound_chain, ProtocolError, missing_revocation_key, missing_state, panicked, added_hash,
  close_depth,
}
use sidestr_rs.Hitch.Transition.{Reading, has_hash, is_hash}
use sidestr_rs.Hitch.Machine.{Crypto, Channel, Context, Machine}

abbrev pub is_some {ℓ} : {A : Type ℓ} → Option A → Bool
is_some none = false
is_some (some a) = true

-- `state`, and `current_state`, which expects it.
abbrev pub state_of : Machine → ℕ → Result ProtocolError ProtocolState
state_of m n = ok_or (missing_state n) (lookup n m.states)

abbrev pub current_state : Machine → Result ProtocolError ProtocolState
current_state m = ok_or panicked (lookup m.state_number m.states)

-- `missing_reveals`, over the numbers from `n` up, `k` of them.
abbrev range : ℕ → ℕ → List ℕ
range n zero = []
range n (suc k) = n ∷ range (n + 1) k

abbrev owed : Machine → List ℕ → List ℕ
owed m [] = []
owed m (n ∷ ns) =
    let rest = owed m ns in
    if contains_key n m.their_revocation_public && not (contains_key n m.their_revocation)
    then n ∷ rest
    else rest

unfoldable pub missing_reveals : Machine → List ℕ
missing_reveals m = owed m (range 0 m.state_number)

abbrev pub pending_hash : Machine → Option ℕ
pending_hash m = elim m.pending [ none ↦ none | some p ↦ added_hash p.update ]

abbrev pub pending_n : Machine → Option ℕ
pending_n m = elim m.pending [ none ↦ none | some p ↦ some p.n ]

-- A shallow spend could still be reorganised away.
abbrev shallow : Option ℕ → ℕ → Bool
shallow none height = true
shallow (some spent) height = ltb (saturating_add u32_max height 1 - spent) close_depth

abbrev alternative_binds : Machine → ℕ → Bool
alternative_binds m hash =
    any
      (λ (n, alternatives).
        not (contains_key n m.their_revocation)
        && any (λ alt. has_hash hash alt.state.htlcs) alternatives)
      m.signed_alternatives

abbrev output_binds : Machine → ℕ → Bool
output_binds m hash =
    any (λ o. is_hash hash o.hash && not (is_some o.confirmed) && not (is_some o.theirs)) m.outputs

abbrev pub bound : Machine → ProtocolState → ℕ → ℕ → Option Bound
bound m current hash height =
    if has_hash hash current.htlcs
    then some bound_state
    else if is_hash hash (pending_hash m)
    then some bound_pending
    else if shallow m.spend height && alternative_binds m hash
    then some bound_alt
    else if is_some m.spend && output_binds m hash
    then some bound_chain
    else none

-- Never the secret of a commitment this peer has published.
abbrev published_from : Machine → ℕ → Bool
published_from m n = elim m.close [
  | none ↦ false
  | some c ↦ leb (unwrap_or m.state_number c.state) n
]

abbrev pub may_reveal : Machine → ℕ → Bool
may_reveal m n = ltb n m.state_number && not (published_from m n)

-- The HTLC that this peer offered, in an earlier state.
abbrev pub find_offered : Side → ℕ → List ProtocolHtlc → Option ProtocolHtlc
find_offered me htlc_id [] = none
find_offered me htlc_id (h ∷ hs) =
    let rest = find_offered me htlc_id hs in
    if h.id == htlc_id && same_side h.from me then some h else rest

abbrev pub offered_in : Machine → ℕ → ℕ → Option ProtocolHtlc
offered_in m n htlc_id = elim (lookup n m.states) [
  | none ↦ none
  | some s ↦ find_offered m.role htlc_id s.htlcs
]

abbrev pub my_secret : Machine → ℕ → Result ProtocolError ℕ
my_secret m n = ok_or panicked (lookup n m.my_revocation)

module _ (k : Crypto) (c : Channel) where
  abbrev pub reading : Machine → Reading
  reading m = record {
    fee = c.fee;
    delay = c.delay;
    htlc_seq = m.htlc_seq;
    pending_hash = pending_hash m;
    preimages = m.preimages;
  }

  abbrev pub my_key : Machine → ℕ
  my_key m = c.key m.role

  abbrev pub peer_key : Machine → ℕ
  peer_key m = c.key (other m.role)

  -- `revocation_for`
  abbrev pub revocation_for : Machine → Side → ℕ → Result ProtocolError ℕ
  revocation_for m owner n =
      if same_side owner m.role
      then (ok_or (missing_revocation_key n) (lookup n m.my_revocation) >>= λ per_state.
          k.revocation_pub m.their_revocation_base per_state)
      else (ok_or (missing_revocation_key n) (lookup n m.their_revocation_public) >>= λ point.
          k.revocation_pub point m.my_revocation_base)

  -- A commitment uses only its owner's revocation key.
  abbrev pub commitment_at : Machine → Side → ℕ → ProtocolState → Result ProtocolError ℕ
  commitment_at m owner n s = do rev ← revocation_for m owner n; c.commitment n owner rev s

  abbrev pub cooperative_tx : Machine → Result ProtocolError ℕ
  cooperative_tx m = do s ← current_state m; c.cooperative_close s

  abbrev pub sign : Machine → ℕ → Context → Result ProtocolError ℕ
  sign m tx ctx = c.sign_funding tx m.channel_key ctx.aux

  abbrev pub verifies : Machine → ℕ → ℕ → Bool
  verifies m tx sig = c.verify_funding tx (peer_key m) sig

  abbrev pub their_pop_ok : Machine → ℕ → ℕ → ℕ → Bool
  their_pop_ok m n point proof = k.pop_verify point proof m.id (other m.role) n

  abbrev pub my_pop : Machine → ℕ → ℕ → Context → ℕ
  my_pop m secret n ctx = k.pop_sign secret m.id m.role n ctx.aux
