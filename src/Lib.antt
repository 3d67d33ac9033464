-- ===== src/Lib.antt =====
-- sidestr-rs: the consensus overlays of a Bitcoin-like sidechain.
--
-- The program keeps, beside the UTXO set, what each unspent output carries of user-issued assets,
-- constant-product pools that trade an asset for sats, and binary prediction markets whose two sides
-- are assets. A transaction speaks to these rules through OP_RETURN records. A block rule judges a
-- candidate block, keeps the view the block would leave, and takes it over when the block is applied;
-- a producer orders its mempool through the same checks. The assets rule comes first; the pool and
-- the markets rules read its trace of what each transaction carries in and out, and they alone allow
-- the minting of shares and of market sides. Beneath them stand Bitcoin's own rules: a transaction's
-- form, what a block's inputs spend, and the UTXO set.
--
-- Which file models what (paths from the repository's root):
--   Base, Base/*         shared types, tests, lists, results, byte strings and maps
--   Bitcoin              the types of the `bitcoin` crate as data, its functions as a parameter
--   Records/*            sidestr-core/src/records.rs: record_text, record_script, the grammars, classify
--   Assets/*             sidestr-core/src/assets.rs: Check is check_inner, View apply_transactions_inner,
--                        Rule the AssetsRule; the other files prove
--   Pool/*               sidestr-core/src/pool.rs: Transition is check_transition and isqrt, View the
--                        PoolView, Rule the PoolRule
--   Markets/*            sidestr-core/src/markets.rs: Actions is a branch of MarketView::check each, View
--                        the whole of it, Rule the MarketsRule
--   Overlays/*           sidestr-core/src/overlays.rs: Policy is MintPolicy::allows, Sequence
--                        OverlayRules::sequence
--   Rules/*              sidestr-core/src/rules.rs: Verdict, Transaction (validate_transaction), Spending
--                        (resolve_spending), Utxo (apply_block); Inputs, Reads, Value and Distinct prove
--   Blocks/*             sidestr-core/src/block.rs: Witness is compact_size to decode_witness, Height is
--                        height_push and coinbase_height; RoundTrip and HeightTrip prove
--   Hitch/*              sidestr-hitch/src/protocol/machine.rs and wire.rs, a payment channel: Data and
--                        Messages the data, Machine and Reads the ChannelMachine and its queries,
--                        Transition next_state, Proposing, Answering, Agreeing, Closing, Recovery and
--                        Opening its methods, Internals their shared steps, Steps a call and a run of
--                        calls; Htlcs, and Conservation, Total, Funded, Adopted, Held, Conserved,
--                        Preserved and Balanced, and Signed, Publishable, Confirmed, Enforceable and
--                        Preimages, and Sound, Shown, Received, Acknowledged, Guarded, Agreed, Moves,
--                        Reconciled, Syncs, Discreet and Revocation prove
--   Tests/*              runs and instances on concrete transactions
--
-- How the code is read. A view's maps are association lists ordered by key, HashMap and BTreeMap alike:
-- no rule reads the order of a HashMap. Numbers are natural numbers with the code's bounds written out:
-- 64-bit sums saturate or are checked as the source says, and 128-bit products are reduced modulo 2^128
-- (the release build's wrap); the statements on a pool's worth take the bounds that make them exact.
-- Error messages are constructors of an error type for each rule. A panic is a value: `panicked` of
-- BlockError and `crashed` of the assets rule's Verdict, `division_panic` of PoolError; a producer's
-- sequence drops a transaction on which a pool or market check panics, where the code stops. The mutex is
-- held for the whole of a call, so a call is a function of the held state. isqrt's loop runs on n rounds
-- of fuel, since each round but the last makes the estimate smaller, and height_push's on 4, since a u32
-- has four bytes. A txid stands as a number. Functions of other crates are fields of the record Bitcoin;
-- UTF-8 decoding, which is the standard library's, is written out. A byte is a number below 256.
--
-- A channel is one peer's side of it, driven by a list of calls: its host's and, for each message of the
-- other side, the method that takes it. A method that returns an error without changing the machine is
-- a result of the machine and what it returns; the others, settle_htlc, receive_update, receive_ack and
-- receive_sync, give back a machine in any case. The cryptography and the channel's transactions are the
-- records Crypto and Channel, whose operations are arbitrary: no law of them is taken, at most that
-- signing and witnessing do not fail. Keys, hashes, secrets, signatures and transactions stand as
-- numbers. An index of a missing key is the error `panicked`. Of the reasons that are shown to people
-- the model keeps the names. The fields for claims and penalties on the chain, the hub's fee and the signing rules are left out, since none of the
-- methods modelled changes them or branches on them.
--
-- Not modelled: the periodic tick of a channel, what follows a close on the chain, the opening before
-- both commitments are signed and the saved form of a channel; the block and header
-- phases of rules.rs, chain state and reorganisation, the
-- header families, the signing rounds, the nostr transport, the wallet, the agent, the EVM rule, the
-- reserve, the bridge and the teller; most of these are I/O around dependencies.

pub mod Base
pub mod Bitcoin
pub mod Records
pub mod Assets
pub mod Pool
pub mod Markets
pub mod Overlays
pub mod Rules
pub mod Blocks
pub mod Hitch
pub mod Tests
