-- ===== src/Hitch/Messages.antt =====
-- The messages of a channel: sidestr-hitch/src/protocol/wire.rs with the boundary check of each.
use sidestr_rs.Base.{
  ℕ, Bool, true, ◌||◌, ◌&&◌, Option, none, some, List, ltb, leb, length, not, Result, fail_if, ◌>>◌,
}
use sidestr_rs.Hitch.Data.{
  Text, Update, ChannelStatus, ProtocolError, malformed, update_well_formed, memo_max,
}

-- Why an update is refused or set aside: the source's sentences by name, or a text received.
pub data Reason : Type 0 where
  close_signed no_proof bad_commitment_signature collision no_reason : Reason
  they_won earlier_attempt channel_closing both_proposed expired : Reason
  already_agreed : ℕ → Reason
  not_allowed : ProtocolError → Reason
  they_refused : Reason → Reason
  said : Text → Reason

-- A status as a sync reports it: this library's, the opening's `accepted`, or another text.
pub data Report : Type 0 where
  status_is : ChannelStatus → Report
  accepted_report : Report
  other_report : Text → Report

pub record UpdateMessage : Type 0 where
  pub id : ℕ
  pub n : ℕ
  pub update : Update
  pub sig : ℕ
  pub next_rev : ℕ
  pub next_rev_pop : ℕ

pub record AckMessage : Type 0 where
  pub id : ℕ
  pub n : ℕ
  pub sig : ℕ
  pub reveal : ℕ
  pub next_rev : ℕ
  pub next_rev_pop : ℕ

pub record RevokeMessage : Type 0 where
  pub id : ℕ
  pub n : ℕ
  pub reveal : ℕ

pub record RejectMessage : Type 0 where
  pub id : ℕ
  pub n : ℕ
  pub sig : ℕ
  pub reason : Option Reason

pub record CloseMessage : Type 0 where
  pub id : ℕ
  pub n : ℕ
  pub sig : ℕ

-- `SyncTag`
pub data SyncTag : Type 0 where
  sync synced : SyncTag

pub record SyncMessage : Type 0 where
  pub t : SyncTag
  pub id : ℕ
  pub n : ℕ
  pub status : Option Report
  pub pending_n : Option ℕ
  pub reveal : Option ℕ
  pub missing : List ℕ
  pub reveals : Option (List (ℕ × ℕ))

-- `PeerMessage`, less the messages of the opening that this machine never sends.
pub data PeerMessage : Type 0 where
  commit_message : ℕ → ℕ → PeerMessage
  ready_message : ℕ → PeerMessage
  update_message : UpdateMessage → PeerMessage
  ack_message : AckMessage → PeerMessage
  revoke_message : RevokeMessage → PeerMessage
  reject_message : RejectMessage → PeerMessage
  close_message : CloseMessage → PeerMessage
  sync_message : SyncMessage → PeerMessage

-- `MAX_SYNC_ITEMS` and `MAX_STATUS_LEN`
abbrev pub max_sync_items : ℕ
max_sync_items = 64

abbrev pub max_status_len : ℕ
max_status_len = 32

abbrev pub update_message_well_formed : UpdateMessage → Result ProtocolError (Unit {0})
update_message_well_formed u = do fail_if (ltb u.n 1) malformed; update_well_formed u.update

abbrev pub ack_well_formed : AckMessage → Result ProtocolError (Unit {0})
ack_well_formed a = fail_if (ltb a.n 1) malformed

abbrev pub revoke_well_formed : RevokeMessage → Result ProtocolError (Unit {0})
revoke_well_formed r = fail_if (ltb r.n 1) malformed

-- Of the reasons only a text received can be too long: the named ones are cut where they are made.
abbrev pub reason_ok : Option Reason → Bool
reason_ok (some (said t)) = leb (length t) memo_max
reason_ok r = true

abbrev pub reject_well_formed : RejectMessage → Result ProtocolError (Unit {0})
reject_well_formed r = fail_if (ltb r.n 1 || not (reason_ok r.reason)) malformed

abbrev pub pending_n_ok : Option ℕ → Bool
pending_n_ok none = true
pending_n_ok (some n) = leb 1 n

abbrev pub items_ok : Option (List (ℕ × ℕ)) → Bool
items_ok none = true
items_ok (some reveals) = leb (length reveals) max_sync_items

abbrev pub report_ok : Option Report → Bool
report_ok (some (other_report t)) = leb (length t) max_status_len
report_ok r = true

abbrev pub sync_well_formed : SyncMessage → Result ProtocolError (Unit {0})
sync_well_formed s =
    fail_if
      (not (
        pending_n_ok s.pending_n
        && leb (length s.missing) max_sync_items
        && items_ok s.reveals
        && report_ok s.status))
      malformed
