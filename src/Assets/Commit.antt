-- ===== src/Assets/Commit.antt =====
-- Candidates and commits of the assets rule (`BlockRule::check` and `BlockRule::applied` for
-- `AssetsRule` in sidestr-core/src/assets.rs).
use sidestr_rs.Base.{
  ℕ, ◌≡◌, refl, ◌∙◌, subst, inl, inr, Bool, true, not, some, List, [], ◌∷◌, ◌++◌, ◌==◌, find,
  retain, All, Bool-cases, Option-cases, err, Result-cases,
}
use sidestr_rs.Bitcoin.{Bitcoin, Transaction}
use sidestr_rs.Assets.Carry.{AssetView}
use sidestr_rs.Assets.Check.{MintPolicy}
use sidestr_rs.Assets.View.{apply_transactions}
use sidestr_rs.Assets.Rule.{
  Block, Candidate, Held, BlockError, panicked, coinbase_records, broken, keep_candidate, is_hash,
  candidate, check, applied,
}
use sidestr_rs.Assets.Verdict.{candidate-Accepted}

module _ {ℓ κ} {A : Type ℓ} (P : A → Type κ) where
  All-retain : (p : A → Bool) (xs : List A) → All P xs → All P (retain p xs)
  All-retain p [] h = h
  All-retain p (x ∷ xs) h = elim (Bool-cases (p x)) [
    | inl stays ↦ rw (stays, retain) (h.0, All-retain p xs h.1)
    | inr goes ↦ rw (goes, retain) (All-retain p xs h.1)
  ]

  All-snoc : (xs : List A) (x : A) → All P xs → P x → All P (xs ++ x ∷ [])
  All-snoc [] x h px = (px, tt)
  All-snoc (y ∷ xs) x h px = (h.0, All-snoc xs x h.1 px)

  find-All :
      (p : A → Bool) (xs : List A) {x : A} → find p xs ≡ some x → All P xs → P x × (p x ≡ true)
  find-All p [] e h = cc
  find-All p (y ∷ xs) {x} e h = elim (Bool-cases (p y)) [
    | inl hit ↦
        let found : some y ≡ some x = rw (hit, find) at e in
        let same : y ≡ x = cc in (subst P same h.0, subst (λ z. p z ≡ true) same hit)
    | inr miss ↦ let rest : find p xs ≡ some x = rw (miss, find) at e in find-All p xs rest h.1
  ]

module _ (btc : Bitcoin) (policy : MintPolicy) (height : ℕ) where
  keep_candidate-err :
      (held : Held) (hash : ℕ) (x : BlockError)
      → (keep_candidate btc policy height held hash (err x)).0 ≡ held
  keep_candidate-err held hash panicked = refl
  keep_candidate-err held hash coinbase_records = refl
  keep_candidate-err held hash (broken txid e) = refl

  -- The candidates that are checked at a height, one after the other.
  abbrev pub check_all : Held → List Block → Held
  check_all held [] = held
  check_all held (b ∷ bs) = check_all (check btc policy height held b).0 bs

  -- What reading the block leaves.
  abbrev pub reading : AssetView → List Transaction → AssetView
  reading view txdata = (apply_transactions btc height policy view txdata).0

  -- A hash stands for one list of transactions.
  abbrev pub SameBody : Block → Block → Type 0
  SameBody block b = (b.hash == block.hash) ≡ true → b.txdata ≡ block.txdata

  module _ (view : AssetView) (block : Block) where
    -- A pending candidate of the block's hash holds the block's reading.
    abbrev Reads : Candidate → Type 0
    Reads c = is_hash block.hash c ≡ true → c.view ≡ reading view block.txdata

    abbrev Kept : Held → Type 0
    Kept held = (held.view ≡ view) × All Reads held.pending

    check-Kept :
        (held : Held) (b : Block)
        → SameBody block b
        → Kept held
        → Kept (check btc policy height held b).0
    unfolding check apply_transactions
    check-Kept held b same (hv, hp) =
        elim (Result-cases (candidate btc policy height held.view b.txdata)) [
          | inl (r, accepted) ↦
              rw (accepted, check)
                (
                  hv,
                  All-snoc Reads (retain (λ c. not (is_hash b.hash c)) held.pending) _
                      (All-retain Reads (λ c. not (is_hash b.hash c)) held.pending hp)
                      (λ hit.
                        (candidate-Accepted btc policy height held.view b.txdata r accepted).0
                        ∙ rw (hv, same hit) refl),
                )
          | inr (x, refused) ↦ rw (refused, check) (rw (keep_candidate-err held b.hash x) (hv, hp))
        ]

    check_all-Kept :
        (held : Held) (bs : List Block)
        → All (SameBody block) bs
        → Kept held
        → Kept (check_all held bs)
    check_all-Kept held [] h k = k
    check_all-Kept held (b ∷ bs) h k =
        check_all-Kept (check btc policy height held b).0 bs h.1 (check-Kept held b h.0 k)

    applied-Kept :
        (held : Held)
        → Kept held
        → (applied btc policy height held block).view ≡ reading view block.txdata
    unfolding applied
    applied-Kept held (hv, hp) = elim (Option-cases (find (is_hash block.hash) held.pending)) [
      | inl missing ↦ rw (missing, applied) (rw hv refl)
      | inr (c, found) ↦
          let (reads, hit) = find-All Reads (is_hash block.hash) held.pending found hp in
          rw (found, applied) (reads hit)
    ]

  -- Whatever candidate blocks are checked, in whatever order, accepted or refused, and the applied
  -- block among them or not: applying a block leaves the view that reading its transactions on the
  -- view before leaves, where nothing is pending at first and a hash stands for one body.
  pub applied-check_all :
      (view : AssetView) (bs : List Block) (block : Block)
      → All (SameBody block) bs
      → (applied btc policy height (check_all (record { view = view; pending = [] }) bs) block).view
        ≡ reading view block.txdata
  applied-check_all view bs block h =
      applied-Kept view block _
        (check_all-Kept view block (record { view = view; pending = [] }) bs h (refl, tt))
