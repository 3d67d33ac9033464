-- ===== src/Hitch/Opening.antt =====
-- How a channel starts: `ChannelMachine::new` of sidestr-hitch/src/protocol/machine.rs.
use sidestr_rs.Base.{
  ℕ, ◌≡◌, not, none, [], ◌∷◌, ◌==◌, Result, ok, ◌>>=◌, ◌>>◌, fail_if, arith, refl, subst, >>=-eq-ok,
}
use sidestr_rs.Hitch.Data.{
  Side, ProtocolState, funding, ProtocolError, wrong_channel_key, bad_signature,
}
use sidestr_rs.Hitch.Machine.{Crypto, Channel, Machine}
use sidestr_rs.Hitch.Reads.{state_of, commitment_at, verifies}
use sidestr_rs.Hitch.Publishable.{IsPublishable}

-- `Keys`: the channel's key, the revocation base and the secrets of states 0 and 1.
pub record Keys : Type 0 where
  pub channel : ℕ
  pub revocation_base : ℕ
  pub revocation_zero : ℕ
  pub revocation_one : ℕ

-- What the other side gave: its revocation base, its points of states 0 and 1 and its signature of
-- this side's first commitment.
pub record Theirs : Type 0 where
  pub revocation_base : ℕ
  pub revocation_zero : ℕ
  pub revocation_one : ℕ
  pub signature_zero : ℕ

abbrev fresh : ℕ → Side → ProtocolState → Keys → Theirs → Machine
fresh id role s keys theirs = record {
  id = id;
  role = role;
  channel_key = keys.channel;
  status = funding;
  funded_height = none;
  state_number = 0;
  states = (0, s) ∷ [];
  my_revocation_base = keys.revocation_base;
  their_revocation_base = theirs.revocation_base;
  my_revocation = (0, keys.revocation_zero) ∷ (1, keys.revocation_one) ∷ [];
  their_revocation = [];
  their_revocation_public = (0, theirs.revocation_zero) ∷ (1, theirs.revocation_one) ∷ [];
  signatures = (0, theirs.signature_zero) ∷ [];
  pending = none;
  awaiting = none;
  buffered = none;
  signed_alternatives = [];
  dropped = none;
  preimages = [];
  htlc_seq = 1;
  coop_txid = none;
  close = none;
  spend = none;
  outputs = [];
  last_sync_at = none;
  peer_ahead = none;
  events = [];
}

module _ (k : Crypto) (c : Channel) where
  unfoldable pub new_machine :
      ℕ → Side → ProtocolState → Keys → Theirs → Result ProtocolError Machine
  new_machine id role initial keys theirs = do
    fail_if (not (k.public keys.channel == c.key role)) wrong_channel_key
    let m = fresh id role initial keys theirs
    s ← state_of m 0
    tx ← commitment_at k c m role 0 s
    fail_if (not (verifies k c m tx theirs.signature_zero)) bad_signature
    ok m

  -- A channel that is opened holds its first state, with the other side's signature of it.
  pub new_machine-IsPublishable :
      (id : ℕ) (role : Side) (initial : ProtocolState) (keys : Keys) (theirs : Theirs) {m : Machine}
      → new_machine id role initial keys theirs ≡ ok m
      → IsPublishable k c m
  unfolding new_machine
  new_machine-IsPublishable id role initial keys theirs {m} e =
      let d = fresh id role initial keys theirs in
      let (_, _, e1) =
        >>=-eq-ok (fail_if (not (k.public keys.channel == c.key role)) wrong_channel_key) _ e in
      let (tx, made, e2) = >>=-eq-ok (commitment_at k c d role 0 initial) _ e1 in
      let (_, verified, e3) =
        >>=-eq-ok (fail_if (not (verifies k c d tx theirs.signature_zero)) bad_signature) _ e2 in
      let made_m : d ≡ m = cc in
      subst (IsPublishable k c) made_m
        (refl, (initial, theirs.signature_zero, refl, refl, (tx, made, ground (arith, verified))))
