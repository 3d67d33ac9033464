-- ===== src/Hitch/Recovery.antt =====
-- How a peer finds its place again: `sync_message` to `receive_sync`, `reconcile` and
-- `receive_reject` of `ChannelMachine` (sidestr-hitch/src/protocol/machine.rs).
use sidestr_rs.Base.{
  ℕ, zero, suc, ◌+◌, ◌-◌, ◌%◌, ◌^◌, Bool, true, false, ◌||◌, ◌&&◌, not, Option, none, some, List,
  [], ◌∷◌, ◌++◌, ◌==◌, ltb, unwrap_or, Result, ok, err, ◌>>=◌, ◌>>◌, fail_if, if◌then◌else◌,
}
use sidestr_rs.Base.Map.{lookup, nat_ord}
use sidestr_rs.Hitch.Data.{
  side_a, side_b, same_side, ChannelStatus, funding, ProtocolError, no_pending, resync_interval,
}
use sidestr_rs.Hitch.Messages.{
  no_reason, they_refused, both_proposed, Report, status_is, accepted_report, RejectMessage,
  SyncTag, sync, synced, SyncMessage, PeerMessage, commit_message, ready_message, update_message,
  ack_message, close_message, sync_message, reject_well_formed, sync_well_formed,
}
use sidestr_rs.Hitch.Machine.{Crypto, Channel, Context, Machine, FinalisedUpdate}
use sidestr_rs.Hitch.Reads.{
  state_of, missing_reveals, pending_n, may_reveal, my_key, peer_key, commitment_at, sign,
}
use sidestr_rs.Hitch.Internals.{drop_pending, announce_dropped, take_their_reveal, finalise}
use sidestr_rs.Hitch.Proposing.{is_open, keep, resend_update}
use sidestr_rs.Hitch.Answering.{check_id, is_closing_asked, acknowledgement}
use sidestr_rs.Hitch.Agreeing.{is_live}
use sidestr_rs.Hitch.Closing.{close_of}

abbrev pub is_funding : ChannelStatus → Bool
is_funding funding = true
is_funding s = false

abbrev pub is_accepted : Option Report → Bool
is_accepted (some accepted_report) = true
is_accepted r = false

abbrev pub reports : (ChannelStatus → Bool) → Option Report → Bool
reports p (some (status_is s)) = p s
reports p r = false

abbrev pub is_sync : SyncTag → Bool
is_sync sync = true
is_sync synced = false

-- The secret of a state, if it may be shown.
abbrev pub shown : Machine → ℕ → Option ℕ
shown m n = if may_reveal m n then lookup n m.my_revocation else none

abbrev pub previous_shown : Machine → ℕ → Option ℕ
previous_shown m zero = none
previous_shown m (suc n) = shown m n

unfoldable pub position : Machine → SyncTag → SyncMessage
position m tag = record {
  t = tag;
  id = m.id;
  n = m.state_number;
  status = some (status_is m.status);
  pending_n = pending_n m;
  reveal = previous_shown m m.state_number;
  missing = missing_reveals m;
  reveals = none;
}

abbrev pub too_soon : Option ℕ → Context → Bool
too_soon none ctx = false
too_soon (some at) ctx = ltb (ctx.now - at) resync_interval

unfoldable pub resync : Machine → Context → Bool → Machine × Option SyncMessage
resync m ctx force =
    if not force && too_soon m.last_sync_at ctx
    then (m, none)
    else (record m { last_sync_at = some ctx.now }, some (position m sync))

-- Only a reject that names the pending update's state and signature counts.
abbrev pub names_pending : Machine → RejectMessage → Bool
names_pending m r = elim m.pending [
  | none ↦ false
  | some p ↦ (p.n == r.n) && (p.message.sig == r.sig)
]

unfoldable pub receive_reject :
    Machine → RejectMessage → Context → Result ProtocolError (Machine × Option SyncMessage)
receive_reject m r ctx = do
  reject_well_formed r
  check_id m r.id
  fail_if (not (names_pending m r)) no_pending
  let why = they_refused (unwrap_or no_reason r.reason)
  ok (resync (announce_dropped (drop_pending why m)) ctx false)

-- The secrets a peer asks for, those that may be shown.
abbrev pub asked : Machine → List ℕ → List (ℕ × ℕ)
asked m [] = []
asked m (n ∷ ns) =
    let rest = asked m ns in elim (shown m n) [ none ↦ rest | some secret ↦ (n, secret) ∷ rest ]

abbrev pub synced_answer : Machine → SyncMessage → List PeerMessage
synced_answer m message =
    if is_sync message.t
    then sync_message (record (position m synced) { reveals = some (asked m message.missing) }) ∷ []
    else []

module _ (k : Crypto) (c : Channel) where
  abbrev pub import_reveal : ℕ → Option ℕ → Machine → Machine
  import_reveal (suc index) (some reveal) m = (take_their_reveal k index reveal m).1
  import_reveal n r m = m

  abbrev pub import_reveals : List (ℕ × ℕ) → Machine → Machine
  import_reveals [] m = m
  import_reveals ((index, reveal) ∷ reveals) m =
      import_reveals reveals (take_their_reveal k index reveal m).1

  abbrev pub imported : Machine → SyncMessage → Machine
  imported m message =
      import_reveals (unwrap_or [] message.reveals) (import_reveal message.n message.reveal m)

  -- The funder, its funding unconfirmed, signs the other side's first commitment again.
  abbrev pub commit_again :
      Machine → SyncMessage → Context → Result ProtocolError (Machine × List PeerMessage)
  commit_again m message ctx =
      if is_accepted message.status
      then (do
        s ← state_of m 0
        tx ← commitment_at k c m side_b 0 s
        sig ← sign k c m tx ctx
        ok (m, commit_message m.id sig ∷ []))
      else ok (m, [])

  abbrev pub ready_again : Machine → SyncMessage → List PeerMessage
  ready_again m message =
      if is_funding m.status
        && same_side m.role side_b
        && reports (λ s. is_funding s || is_open s) message.status
      then ready_message m.id ∷ []
      else []

  abbrev pub close_again : Machine → SyncMessage → Context → Result ProtocolError (List PeerMessage)
  close_again m message ctx =
      if is_closing_asked m.status && reports (λ s. is_funding s || is_live s) message.status
      then (do close ← close_of k c m ctx; ok (close_message close ∷ []))
      else ok []

  abbrev pub resent : Machine → Context → Machine × List PeerMessage
  resent m ctx =
      let (m', u) = resend_update m ctx in
      (m', elim u [ none ↦ [] | some message ↦ update_message message ∷ [] ])

  -- Both are at the same state: what is pending is sent again, or gives way to the lower key.
  abbrev pub same_place : Machine → Option ℕ → Option ℕ → Context → Machine × List PeerMessage
  same_place m (some mine) none ctx = resent m ctx
  same_place m (some mine) (some theirs) ctx =
      if mine == theirs
      then if ltb (peer_key k c m) (my_key k c m)
        then (announce_dropped (drop_pending both_proposed m), [])
        else resent m ctx
      else (m, [])
  same_place m none theirs ctx = (m, [])

  abbrev pub behind : SyncMessage → ℕ → Bool
  behind message n =
      ((message.n + 1) % 2 ^ 64 == n) && elim message.pending_n [ none ↦ true | some p ↦ p == n ]

  abbrev pub on_my_update : Machine → SyncMessage → Bool
  on_my_update m message =
      (message.n == m.state_number + 1)
      && elim (pending_n m) [ none ↦ false | some p ↦ p == message.n ]

  abbrev pub places :
      Machine → SyncMessage → Context → Result ProtocolError (Machine × List PeerMessage)
  places m message ctx =
      if message.n == m.state_number
      then ok (same_place m (pending_n m) message.pending_n ctx)
      else if behind message m.state_number
      then (do
        again ← acknowledgement k c m ctx
        ok (m, elim again [ none ↦ [] | some a ↦ ack_message a ∷ [] ]))
      else if not (on_my_update m message) && ltb (m.state_number + 1) message.n
      then ok (record m { peer_ahead = some message.n }, [])
      else ok (m, [])

  abbrev pub after :
      List PeerMessage
      → Result ProtocolError (Machine × List PeerMessage)
      → Result ProtocolError (Machine × List PeerMessage)
  after out r = r >>= λ (m, more). ok (m, out ++ more)

  unfoldable pub reconcile :
      Machine → SyncMessage → Context → Result ProtocolError (Machine × List PeerMessage)
  reconcile m message ctx =
      if is_funding m.status && same_side m.role side_a then commit_again m message ctx else (do
        close ← close_again m message ctx
        after (ready_again m message ++ close)
            (if is_live m.status then places m message ctx else ok (m, [])))

  -- What a sync carried stays taken even if no answer can be made.
  unfoldable pub receive_sync :
      Machine
      → SyncMessage
      → Context
      → Machine × Result ProtocolError (Option FinalisedUpdate × List PeerMessage)
  unfolding reconcile finalise position
  receive_sync m message ctx = elim (sync_well_formed message >> check_id m message.id) [
    | err e ↦ (m, err e)
    | ok _ ↦
        let (finalised, m') = finalise (imported m message) in
        keep m' (
          reconcile m' message ctx >>= λ (m'', replies).
          ok (m'', (finalised, synced_answer m' message ++ replies)))
  ]
