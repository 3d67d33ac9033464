-- ===== src/Records/Classify.antt =====
-- `classify` of sidestr-core/src/records.rs: a transaction's records by kind, each with its output.
use sidestr_rs.Base.{ℕ, Bool, Option, none, some, List, [], ◌∷◌, ◌++◌, if◌then◌else◌, any}
use sidestr_rs.Base.Bytes.{Bytes, codes, starts_with}
use sidestr_rs.Bitcoin.{Bitcoin, Transaction}
use sidestr_rs.Records.Script.{records_of}
use sidestr_rs.Records.Grammar.{
  Issue, Tally, PoolRecord, parse_issue, parse_tally, parse_pool, is_self,
}
use sidestr_rs.Records.Market.{MarketRecord, Question, parse_market, parse_question}

pub record Classified : Type 0 where
  pub issues : List (ℕ × Issue)
  pub tallies : List (ℕ × Tally)
  pub pools : List (ℕ × PoolRecord)
  pub markets : List (ℕ × MarketRecord)
  pub questions : List (ℕ × Question)
  pub bad : List Bytes

abbrev pub no_records : Classified
no_records = record {
  issues = [];
  tallies = [];
  pools = [];
  markets = [];
  questions = [];
  bad = [];
}

-- `match parse(text) { Some(r) => out.list.push((v, r)), None => out.bad.push(text) }`
abbrev push_parsed {ℓ} :
    {R : Type ℓ} → Option R → (R → Classified) → Bytes → Classified → Classified
push_parsed none push text out = record out { bad = out.bad ++ text ∷ [] }
push_parsed (some r) push text out = push r

abbrev market_prefixes : List Bytes
market_prefixes =
    codes "market:" ∷ codes "split:" ∷ codes "merge:" ∷ codes "redeem:" ∷ codes "resolve:" ∷ []

module _ (btc : Bitcoin) where
  unfoldable pub classify_record : Classified → ℕ × Bytes → Classified
  unfolding parse_issue parse_tally parse_pool parse_market parse_question
  classify_record out (v, text) =
      if starts_with (codes "issue:") text
      then push_parsed (parse_issue text) (λ r. record out { issues = out.issues ++ (v, r) ∷ [] })
          text out
      else if starts_with (codes "tally:") text
      then push_parsed (parse_tally btc text)
          (λ r. record out { tallies = out.tallies ++ (v, r) ∷ [] }) text out
      else if starts_with (codes "pool:") text
      then push_parsed (parse_pool btc text) (λ r. record out { pools = out.pools ++ (v, r) ∷ [] })
          text out
      else if any (λ p. starts_with p text) market_prefixes
      then push_parsed (parse_market btc text)
          (λ r. record out { markets = out.markets ++ (v, r) ∷ [] }) text out
      else if starts_with (codes "question:") text
      then push_parsed (parse_question text)
          (λ r. record out { questions = out.questions ++ (v, r) ∷ [] }) text out
      else out

  unfoldable pub classify_all : Classified → List (ℕ × Bytes) → Classified
  unfolding classify_record
  classify_all out [] = out
  classify_all out (r ∷ rs) = classify_all (classify_record out r) rs

  unfoldable pub classify : Transaction → Classified
  unfolding classify_all records_of
  classify tx = classify_all no_records (records_of tx)

-- `cls.pools.iter().any(|(_, p)| p.pool == AssetRef::SelfTx)`
abbrev pub opens_pool : Classified → Bool
opens_pool cls = any (λ (p : ℕ × PoolRecord). is_self p.1.pool) cls.pools
