-- ===== src/Hitch/Shown.antt =====
-- Which secrets a channel's messages show (`may_reveal` and its callers in
-- sidestr-hitch/src/protocol/machine.rs).
use sidestr_rs.Base.{ℕ, ◌≤◌, ◌≡◌, true, Option, none, some, List, [], ◌∷◌, ◌++◌, All, arith}
use sidestr_rs.Base.Map.{lookup, nat_ord, lookup-insert}
use sidestr_rs.Hitch.Messages.{PeerMessage, ack_message, revoke_message, sync_message}
use sidestr_rs.Hitch.Machine.{Machine}
use sidestr_rs.Hitch.Reads.{may_reveal}
use sidestr_rs.Hitch.Internals.{or_insert}
use sidestr_rs.Hitch.Sound.{IsSound, StaysShut}

-- The secrets in a message.
abbrev pub maybe : Option ℕ → List ℕ
maybe none = []
maybe (some s) = s ∷ []

abbrev pub secrets_of : List (ℕ × ℕ) → List ℕ
secrets_of [] = []
secrets_of ((n, s) ∷ more) = s ∷ secrets_of more

abbrev listed : Option (List (ℕ × ℕ)) → List ℕ
listed none = []
listed (some reveals) = secrets_of reveals

abbrev pub secrets : PeerMessage → List ℕ
secrets (ack_message a) = a.reveal ∷ []
secrets (revoke_message r) = r.reveal ∷ []
secrets (sync_message s) = maybe s.reveal ++ listed s.reveals
secrets message = []

-- A secret of a state that the machine may show.
abbrev pub IsRevealable : Machine → ℕ → Type 0
IsRevealable m s = (n : ℕ) × (may_reveal m n ≡ true) × (lookup n m.my_revocation ≡ some s)

abbrev pub ShowsOnly : (ℕ → Type 0) → List PeerMessage → Type 0
ShowsOnly P out = All (λ message. All P (secrets message)) out

-- No secret of this peer's is ever replaced.
abbrev pub KeepsSecrets : Machine → Machine → Type 0
KeepsSecrets m m' =
    (n s : ℕ) → lookup n m.my_revocation ≡ some s → lookup n m'.my_revocation ≡ some s

-- What a step may do: keep the machine sound, go on, and show only what may be shown.
abbrev pub IsGood : Machine → Machine × List PeerMessage → Type 0
IsGood m (m', out) =
    IsSound m'
    × (m.state_number ≤ m'.state_number)
    × KeepsSecrets m m'
    × StaysShut m m'
    × ShowsOnly (IsRevealable m') out

pub KeepsSecrets-same : (m m' : Machine) → m'.my_revocation ≡ m.my_revocation → KeepsSecrets m m'
KeepsSecrets-same m m' e n s h = rw e h

pub KeepsSecrets-or_insert :
    (m m' : Machine) (i v : ℕ)
    → m'.my_revocation ≡ or_insert i v m.my_revocation
    → KeepsSecrets m m'
KeepsSecrets-or_insert m m' i v e n s h =
    rw e (ground (arith, h, lookup-insert i n v m.my_revocation))

pub KeepsSecrets-trans :
    (m m' m'' : Machine) → KeepsSecrets m m' → KeepsSecrets m' m'' → KeepsSecrets m m''
KeepsSecrets-trans m m' m'' f g n s h = g n s (f n s h)

pub All-append : (P : ℕ → Type 0) (xs ys : List ℕ) → All P xs → All P ys → All P (xs ++ ys)
All-append P [] ys all_xs all_ys = all_ys
All-append P (x ∷ xs) ys (p, all_xs) all_ys = (p, All-append P xs ys all_xs all_ys)

pub ShowsOnly-append :
    (P : ℕ → Type 0) (xs ys : List PeerMessage)
    → ShowsOnly P xs
    → ShowsOnly P ys
    → ShowsOnly P (xs ++ ys)
ShowsOnly-append P [] ys all_xs all_ys = all_ys
ShowsOnly-append P (x ∷ xs) ys (p, all_xs) all_ys = (p, ShowsOnly-append P xs ys all_xs all_ys)

All-map : (P Q : ℕ → Type 0) → ((s : ℕ) → P s → Q s) → (xs : List ℕ) → All P xs → All Q xs
All-map P Q f [] all_xs = tt
All-map P Q f (x ∷ xs) (p, all_xs) = (f x p, All-map P Q f xs all_xs)

pub ShowsOnly-map :
    (P Q : ℕ → Type 0)
    → ((s : ℕ) → P s → Q s)
    → (out : List PeerMessage) → ShowsOnly P out
    → ShowsOnly Q out
ShowsOnly-map P Q f [] all_out = tt
ShowsOnly-map P Q f (message ∷ out) (p, all_out) =
    (All-map P Q f (secrets message) p, ShowsOnly-map P Q f out all_out)
