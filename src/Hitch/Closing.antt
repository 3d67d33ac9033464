-- ===== src/Hitch/Closing.antt =====
-- How a peer leaves a channel: `close_channel`, `receive_close` and `force_close` of
-- `ChannelMachine` (sidestr-hitch/src/protocol/machine.rs).
use sidestr_rs.Base.{
  ℕ, Bool, true, false, ◌||◌, ◌&&◌, not, Option, none, some, ◌==◌, unwrap_or, Result, ok, ok_or,
  ◌>>=◌, ◌>>◌, fail_if,
}
use sidestr_rs.Base.Map.{lookup, contains_key, nat_ord}
use sidestr_rs.Hitch.Data.{
  ChannelStatus, funding, open_channel, closing_asked, closing, force_closing, ProtocolError,
  not_open, wrong_status, unexpected_state, in_flight, bad_signature, missing_signature, unfunded,
}
use sidestr_rs.Hitch.Messages.{CloseMessage, channel_closing}
use sidestr_rs.Hitch.Machine.{Crypto, Channel, Context, Machine, CloseRecord}
use sidestr_rs.Hitch.Reads.{is_some, state_of, commitment_at, cooperative_tx, sign, verifies}
use sidestr_rs.Hitch.Internals.{drop_pending, announce_dropped}
use sidestr_rs.Hitch.Proposing.{is_open}
use sidestr_rs.Hitch.Answering.{check_id}

abbrev can_ask : ChannelStatus → Bool
can_ask open_channel = true
can_ask funding = true
can_ask s = false

abbrev can_answer : ChannelStatus → Bool
can_answer closing_asked = true
can_answer s = can_ask s

abbrev pub can_force : ChannelStatus → Bool
can_force closing = true
can_force s = can_answer s

abbrev in_flight_now : Machine → Bool
in_flight_now m = is_some m.pending || is_some m.awaiting

module _ (k : Crypto) (c : Channel) where
  -- `close_message`
  abbrev pub close_of : Machine → Context → Result ProtocolError CloseMessage
  close_of m ctx = do
    tx ← cooperative_tx k c m
    sig ← sign k c m tx ctx
    ok (record { id = m.id; n = m.state_number; sig = sig })

  -- The second reading of the close cannot fail: it is the one that the message signs.
  unfoldable pub close_channel : Machine → Context → Result ProtocolError (Machine × CloseMessage)
  close_channel m ctx = do
    fail_if (not (can_ask m.status)) not_open
    fail_if (in_flight_now m) in_flight
    message ← close_of m ctx
    tx ← cooperative_tx k c m
    ok (record m { status = closing_asked; coop_txid = some (c.txid tx) }, message)

  -- The close with both signatures on it.
  unfoldable pub receive_close :
      Machine → CloseMessage → Context → Result ProtocolError (Machine × ℕ)
  receive_close m message ctx = do
    check_id m message.id
    fail_if (not (can_answer m.status)) (wrong_status m.status)
    fail_if (not (message.n == m.state_number)) (unexpected_state message.n m.state_number)
    fail_if (in_flight_now m) in_flight
    tx ← cooperative_tx k c m
    fail_if (not (verifies k c m tx message.sig)) bad_signature
    mine ← sign k c m tx ctx
    witnessed ← c.funding_witness tx mine message.sig
    let close : CloseRecord = record {
      txid = c.txid witnessed;
      tx = witnessed;
      state = none;
      at = ctx.height;
    }
    ok (
      record m { status = closing; coop_txid = some (c.txid witnessed); close = some close },
      witnessed,
    )

  abbrev pub signed_commitment : Machine → ℕ → Context → Result ProtocolError ℕ
  signed_commitment m n ctx = do
    theirs ← ok_or (missing_signature n) (lookup n m.signatures)
    s ← state_of m n
    tx ← commitment_at k c m m.role n s
    fail_if (not (verifies k c m tx theirs)) bad_signature
    mine ← sign k c m tx ctx
    c.funding_witness tx mine theirs

  abbrev pub published : Machine → ℕ → ℕ → Context → Machine
  published m n tx ctx =
      let close : CloseRecord = record {
        txid = c.txid tx;
        tx = tx;
        state = some n;
        at = ctx.height;
      } in
      announce_dropped (record (drop_pending channel_closing m) {
        status = force_closing;
        close = some close;
        awaiting = none;
        buffered = none;
      })

  unfoldable pub force_close : Machine → Option ℕ → Context → Result ProtocolError (Machine × ℕ)
  force_close m state ctx = do
    let n = unwrap_or m.state_number state
    fail_if (not (can_force m.status)) (wrong_status m.status)
    fail_if (not (contains_key n m.signatures)) (missing_signature n)
    fail_if (not (is_some m.funded_height) && not (is_open m.status)) unfunded
    tx ← signed_commitment m n ctx
    ok (published m n tx ctx, tx)
