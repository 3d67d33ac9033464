-- ===== src/Hitch/Machine.antt =====
-- The state of a channel: `ChannelMachine` of sidestr-hitch/src/protocol/machine.rs, and the
-- interfaces of the code it calls.
use sidestr_rs.Base.{ℕ, Bool, Option, List, Result}
use sidestr_rs.Base.Map.{Map}
use sidestr_rs.Hitch.Data.{Side, ProtocolState, Update, ChannelStatus, ProtocolError}
use sidestr_rs.Hitch.Messages.{UpdateMessage, Reason}

-- What the cryptographic crates give: keys, secrets, proofs of possession and SHA-256. A proof is
-- of a secret in the context of a channel, a side and a state number.
pub record Crypto : Type 0 where
  pub public : ℕ → ℕ
  pub is_secret : ℕ → Bool
  pub sha : ℕ → ℕ
  pub pop_sign : ℕ → ℕ → Side → ℕ → ℕ → ℕ
  pub pop_verify : ℕ → ℕ → ℕ → Side → ℕ → Bool
  pub revocation_pub : ℕ → ℕ → Result ProtocolError ℕ

-- What the channel's transactions give (sidestr-hitch/src/lib.rs): a commitment is of a state
-- number, an owner, a revocation key and a state; a signature is by a key with randomness.
pub record Channel : Type 0 where
  pub fee : ℕ
  pub delay : ℕ
  pub key : Side → ℕ
  pub commitment : ℕ → Side → ℕ → ProtocolState → Result ProtocolError ℕ
  pub cooperative_close : ProtocolState → Result ProtocolError ℕ
  pub sign_funding : ℕ → ℕ → ℕ → Result ProtocolError ℕ
  pub verify_funding : ℕ → ℕ → ℕ → Bool
  pub funding_witness : ℕ → ℕ → ℕ → Result ProtocolError ℕ
  pub txid : ℕ → ℕ

pub record Context : Type 0 where
  pub height : ℕ
  pub now : ℕ
  pub aux : ℕ
  pub stale : Bool

pub record PendingUpdate : Type 0 where
  pub n : ℕ
  pub update : Update
  pub message : UpdateMessage
  pub at : ℕ
  pub tries : ℕ

pub record AwaitingRevoke : Type 0 where
  pub n : ℕ
  pub previous : ℕ
  pub update : Update
  pub sender : Side
  pub at : ℕ

-- An update that crossed its finality boundary.
pub record FinalisedUpdate : Type 0 where
  pub n : ℕ
  pub update : Update
  pub sender : Side

pub record SignedAlternative : Type 0 where
  pub state : ProtocolState
  pub update : Update

pub record DroppedUpdate : Type 0 where
  pub update : Update
  pub reason : Reason

pub data PaymentOutcome : Type 0 where
  outcome_in_flight outcome_sent outcome_failed outcome_not_made : PaymentOutcome

pub data ChannelEvent : Type 0 where
  dropped_event : DroppedUpdate → ChannelEvent
  payment_event : ℕ → PaymentOutcome → Option Reason → ChannelEvent

pub record CloseRecord : Type 0 where
  pub txid : ℕ
  pub tx : ℕ
  pub state : Option ℕ
  pub at : ℕ

-- Of an output that is followed, what `bound` reads.
pub record FollowedOutput : Type 0 where
  pub hash : Option ℕ
  pub confirmed : Option ℕ
  pub theirs : Option ℕ

-- The channel's transactions stand beside the machine; of the spend of the funding output only the
-- height is kept. The claims on the chain are not modelled.
pub record Machine : Type 0 where
  pub id : ℕ
  pub role : Side
  pub channel_key : ℕ
  pub status : ChannelStatus
  pub funded_height : Option ℕ
  pub state_number : ℕ
  pub states : Map ℕ ProtocolState
  pub my_revocation_base : ℕ
  pub their_revocation_base : ℕ
  pub my_revocation : Map ℕ ℕ
  pub their_revocation : Map ℕ ℕ
  pub their_revocation_public : Map ℕ ℕ
  pub signatures : Map ℕ ℕ
  pub pending : Option PendingUpdate
  pub awaiting : Option AwaitingRevoke
  pub buffered : Option UpdateMessage
  pub signed_alternatives : Map ℕ (List SignedAlternative)
  pub dropped : Option DroppedUpdate
  pub preimages : Map ℕ ℕ
  pub htlc_seq : ℕ
  pub coop_txid : Option ℕ
  pub close : Option CloseRecord
  pub spend : Option ℕ
  pub outputs : List FollowedOutput
  pub last_sync_at : Option ℕ
  pub peer_ahead : Option ℕ
  pub events : List ChannelEvent
