-- ===== src/Records/Grammar.antt =====
-- The `issue:`, `tally:` and `pool:` records of sidestr-core/src/records.rs.
use sidestr_rs.Base.{
  ℕ, ◌-◌, Bool, true, false, ◌&&◌, ◌||◌, not, Option, none, some, List, [], ◌∷◌, ◌++◌, ◌==◌, ltb,
  leb, if◌then◌else◌, length, is_empty, any, all, u64_max, u32_max, and_then,
}
use sidestr_rs.Base.Bytes.{
  Bytes, codes, bytes_eq, strip_prefix, split_once, split, is_digit, is_upper, is_lower_hex,
  parse_uint,
}
use sidestr_rs.Bitcoin.{Bitcoin}

-- `2^53 - 1`, the largest integer that a JavaScript number holds exactly.
abbrev pub max_amount : ℕ
max_amount = 9_007_199_254_740_991

pub record Issue : Type 0 where
  pub ticker : Bytes
  pub decimals : ℕ

pub data AssetRef : Type 0 where
  self_tx : AssetRef
  id : ℕ → AssetRef

pub record Tally : Type 0 where
  pub asset : AssetRef
  pub assigns : List (ℕ × ℕ)

pub record PoolRecord : Type 0 where
  pub pool : AssetRef
  pub vout : ℕ

-- `r == AssetRef::SelfTx`
abbrev pub is_self : AssetRef → Bool
is_self self_tx = true
is_self (id i) = false

abbrev first_is : ℕ → Bytes → Bool
first_is c [] = false
first_is c (b ∷ s) = b == c

-- `^[1-9]\d{0,15}$`, at most `max_amount`.
unfoldable pub amount : Bytes → Option ℕ
amount s =
    if is_empty s || (ltb 16 (length s) || (first_is b'0' s || not (all is_digit s)))
    then none
    else and_then (parse_uint u64_max s) (λ n. if leb n max_amount then some n else none)

-- `\d{1,5}`
unfoldable pub vout : Bytes → Option ℕ
vout s =
    if not (leb 1 (length s) && leb (length s) 5) || not (all is_digit s)
    then none
    else parse_uint u32_max s

-- `\d{1,9}`
unfoldable pub height : Bytes → Option ℕ
height s =
    if not (leb 1 (length s) && leb (length s) 9) || not (all is_digit s)
    then none
    else parse_uint u32_max s

abbrev ticker_ok : Bytes → Bool
ticker_ok t = (leb 1 (length t) && leb (length t) 8) && all (λ b. is_upper b || is_digit b) t

abbrev decimals_of : Bytes → Option ℕ
decimals_of (d ∷ []) = if leb b'0' d && leb d b'8' then some (d - b'0') else none
decimals_of _ = none

unfoldable pub parse_issue : Bytes → Option Issue
parse_issue text = and_then (strip_prefix (codes "issue:") text) λ rest.
    and_then (split_once b':' rest) λ parts.
      if not (ticker_ok parts.0)
      then none
      else and_then (decimals_of parts.1) (λ d. some (record { ticker = parts.0; decimals = d }))

-- One `vout=amount` of a tally; a vout that was seen is refused.
abbrev pub parse_assign : List (ℕ × ℕ) → Bytes → Option (ℕ × ℕ)
parse_assign assigns part = and_then (split_once b'=' part) λ va. and_then (vout va.0) λ v.
    and_then (amount va.1)
      λ a. if any (λ (seen : ℕ × ℕ). seen.0 == v) assigns then none else some (v, a)

unfoldable pub parse_assigns : List (ℕ × ℕ) → List Bytes → Option (List (ℕ × ℕ))
parse_assigns assigns [] = some assigns
parse_assigns assigns (part ∷ parts) = elim (parse_assign assigns part) [
  | none ↦ none
  | some va ↦ parse_assigns (assigns ++ va ∷ []) parts
]

module _ (btc : Bitcoin) where
  -- `self`, or 64 lower-case hex digits.
  unfoldable pub asset_ref : Bytes → Option AssetRef
  asset_ref s =
      if bytes_eq s (codes "self")
      then some self_tx
      else if (length s == 64) && all is_lower_hex s
      then and_then (btc.txid_from_str s) (λ i. some (id i))
      else none

  abbrev the_id : AssetRef → Option ℕ
  the_id self_tx = none
  the_id (id i) = some i

  unfoldable pub txid : Bytes → Option ℕ
  unfolding asset_ref
  txid s = and_then (asset_ref s) the_id

  unfoldable pub parse_tally : Bytes → Option Tally
  unfolding asset_ref parse_assigns amount vout
  parse_tally text = and_then (strip_prefix (codes "tally:") text) λ rest.
      and_then (split_once b':' rest) λ parts. and_then (asset_ref parts.0) λ a.
        and_then (parse_assigns [] (split b',' parts.1))
          λ assigns. some (record { asset = a; assigns = assigns })

  unfoldable pub parse_pool : Bytes → Option PoolRecord
  unfolding asset_ref vout
  parse_pool text = and_then (strip_prefix (codes "pool:") text) λ rest.
      and_then (split_once b':' rest) λ parts.
        and_then (asset_ref parts.0)
          λ p. and_then (vout parts.1) (λ v. some (record { pool = p; vout = v }))
