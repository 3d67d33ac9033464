-- ===== src/Rules/Verdict.antt =====
-- `Params`, `RuleResult` and `Verdict` of sidestr-core/src/rules.rs.
use sidestr_rs.Base.{ℕ, Bool, true, not, Option, none, some, List, ◌++◌, map, all, retain}
use Prim.Native.String.{String}

pub record Params : Type 0 where
  pub max_block_weight : ℕ
  pub max_money : ℕ
  pub max_block_sigops_cost : ℕ
  pub coinbase_maturity : ℕ
  pub max_future_block_time : ℕ
  pub bip34_height : ℕ
  pub segwit_height : ℕ
  pub bip65_height : ℕ
  pub bip66_height : ℕ

-- `Params::default`
abbrev pub default_params : Params
default_params = record {
  max_block_weight = 4_000_000;
  max_money = 2_100_000_000_000_000;
  max_block_sigops_cost = 80_000;
  coinbase_maturity = 100;
  max_future_block_time = 7_200;
  bip34_height = 1;
  segwit_height = 0;
  bip65_height = 1;
  bip66_height = 1;
}

pub record RuleResult : Type 0 where
  pub rule : String
  pub ok : Option Bool

pub record Verdict : Type 0 where
  pub results : List RuleResult

-- `r.ok != Some(false)`
abbrev pub not_failed : Option Bool → Bool
not_failed none = true
not_failed (some b) = b

-- `Verdict::ok`
abbrev pub passes : Verdict → Bool
passes v = all (λ r. not_failed r.ok) v.results

-- `Verdict::failed`
abbrev pub failed : Verdict → List String
failed v = map (λ r. r.rule) (retain (λ r. not (not_failed r.ok)) v.results)

-- `Verdict::extend`
abbrev pub extend : Verdict → Verdict → Verdict
extend v other = record { results = v.results ++ other.results }

-- `RuleResult::new`
abbrev pub new : String → Option Bool → RuleResult
new rule ok = record { rule = rule; ok = ok }
