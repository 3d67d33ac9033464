-- ===== src/Assets/Rule.antt =====
-- `AssetsRule` of sidestr-core/src/assets.rs: the rule as consensus. The mutex is taken for the
-- whole of each call, so a call is a function of what the handles share.
use sidestr_rs.Base.{
  ℕ, suc, Bool, true, false, ◌&&◌, ◌||◌, not, Option, none, some, List, [], ◌∷◌, ◌++◌, ◌==◌,
  if◌then◌else◌, first, is_empty, find, retain, Result, ok, err, ◌>>=◌, ◌>>◌, fail_if,
}
use sidestr_rs.Base.Map.{Map, lookup, insert, nat_ord, contains_key}
use Prim.Native.String.{String}
use sidestr_rs.Base.Bytes.{codes}
use sidestr_rs.Bitcoin.{Bitcoin, Transaction, TxIn, OutPoint, outpoint_ord}
use sidestr_rs.Records.Classify.{Classified, classify}
use sidestr_rs.Assets.Carry.{Carry, AssetView, Issued}
use sidestr_rs.Assets.Check.{AssetError, MintPolicy}
use sidestr_rs.Assets.View.{Outcome, apply_transactions}

-- `panicked` is the `expect` on a transaction that has no outcome.
pub data BlockError : Type 0 where
  coinbase_records : BlockError
  broken : ℕ → AssetError → BlockError
  panicked : BlockError

pub record AssetTrace : Type 0 where
  pub inputs : Map OutPoint Carry
  pub outputs : Map ℕ Carry

-- What a rule reads of a block of any header family: its hash and its transactions.
pub record Block : Type 0 where
  pub hash : ℕ
  pub txdata : List Transaction

abbrev collect : OutPoint → Option Carry → Map OutPoint Carry → Map OutPoint Carry
collect op none m = m
collect op (some c) m = insert op c m

-- The inputs that carry something, each with what it carries.
unfoldable pub trace_inputs : AssetView → List TxIn → Map OutPoint Carry → Map OutPoint Carry
trace_inputs view [] m = m
trace_inputs view (i ∷ is) m =
    trace_inputs view is (collect i.previous_output (lookup i.previous_output view.carried) m)

abbrev has_records : Classified → Bool
has_records cls =
    not (is_empty cls.issues) || (not (is_empty cls.tallies) || not (is_empty cls.bad))

pub record Candidate : Type 0 where
  pub hash : ℕ
  pub view : AssetView
  pub traces : List AssetTrace

pub record Held : Type 0 where
  pub view : AssetView
  pub pending : List Candidate

-- What `check` answers: `Some(true)`, `Some(false)`, or a panic.
pub data Verdict : Type 0 where
  valid invalid crashed : Verdict

abbrev pub is_hash : ℕ → Candidate → Bool
is_hash h c = c.hash == h

module _ (btc : Bitcoin) (policy : MintPolicy) (height : ℕ) where
  abbrev pub coinbase_clean : Option Transaction → Result BlockError (Unit {0})
  coinbase_clean none = ok tt
  coinbase_clean (some cb) = fail_if (has_records (classify btc cb)) coinbase_records

  -- The one outcome of a transaction, or why the block is refused.
  abbrev pub judged : Option Outcome → Result BlockError Outcome
  judged none = err panicked
  judged (some o) = elim o.error [ none ↦ ok o | some e ↦ err (broken o.txid e) ]

  -- The loop of `candidate`, from position `index` on.
  unfoldable pub candidate_from :
      ℕ → AssetView → List Transaction → Result BlockError (AssetView × List AssetTrace)
  unfolding apply_transactions trace_inputs
  candidate_from index next [] = ok (next, [])
  candidate_from index next (tx ∷ txs) =
      let inputs = trace_inputs next tx.input [] in
      elim ((index == 0) && btc.is_coinbase tx) [
        | true ↦ candidate_from (suc index) next txs >>= λ r.
            ok (r.0, record { inputs = inputs; outputs = [] } ∷ r.1)
        | false ↦
            let applied = apply_transactions btc height policy next (tx ∷ []) in
            judged (first applied.1) >>= λ o. candidate_from (suc index) applied.0 txs >>= λ r.
            ok (r.0, record { inputs = inputs; outputs = o.carried_out } ∷ r.1)
      ]

  unfoldable pub candidate :
      AssetView → List Transaction → Result BlockError (AssetView × List AssetTrace)
  unfolding candidate_from
  candidate view txdata = coinbase_clean (first txdata) >> candidate_from 0 view txdata

  -- `AssetsRule::trace`
  unfoldable pub trace : Held → ℕ → Option (List AssetTrace)
  trace held hash = elim (find (is_hash hash) held.pending) [ none ↦ none | some c ↦ some c.traces ]

  -- A block that passes is kept as pending; a refused one, and a panic, leave what is held.
  abbrev pub keep_candidate :
      Held → ℕ → Result BlockError (AssetView × List AssetTrace) → Held × Verdict
  keep_candidate held hash (ok (next, traces)) = (
    record held {
      pending =
          retain (λ c. not (is_hash hash c)) held.pending
          ++ record { hash = hash; view = next; traces = traces } ∷ [];
    },
    valid,
  )
  keep_candidate held hash (err panicked) = (held, crashed)
  keep_candidate held hash (err coinbase_records) = (held, invalid)
  keep_candidate held hash (err (broken txid e)) = (held, invalid)

  -- `BlockRule::check`
  unfoldable pub check : Held → Block → Held × Verdict
  unfolding candidate
  check held block = keep_candidate held block.hash (candidate held.view block.txdata)

  -- `BlockRule::applied`: the pending view of the block, or the block as the view reads it.
  unfoldable pub applied : Held → Block → Held
  unfolding apply_transactions
  applied held block = elim (find (is_hash block.hash) held.pending) [
    | some c ↦ record { view = c.view; pending = [] }
    | none ↦ record {
      view = (apply_transactions btc height policy held.view block.txdata).0;
      pending = [];
    }
  ]

-- One entry of `register_market_assets`: what is issued already stays.
abbrev register_asset : ℕ × Issued → Map ℕ Issued → Map ℕ Issued
register_asset (id, entry) issued =
    if contains_key id issued then issued else insert id entry issued

abbrev outcome_asset : ℕ → ℕ → String → Issued
outcome_asset market height ticker = record {
  ticker = codes ticker;
  decimals = 0;
  height = height;
  supply = 0;
  market = some market;
}

unfoldable pub register_market_assets : ℕ → ℕ → ℕ → Held → Held
register_market_assets market no_asset height held = record held {
  view = record (held.view) {
    issued =
        register_asset (no_asset, outcome_asset market height "NO")
          (register_asset (market, outcome_asset market height "YES") held.view.issued);
  };
}
