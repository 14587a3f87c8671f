-- ===== src/Contracts/Claim.antt =====
-- agent_perimeter/_contracts.py: a claim, the check of its confidence and the caveats it inherits.
-- The time of observation is a number.
pub mod Ancestry
pub mod Caveats
pub mod Tests
use agent_perimeter.Prelude.{
  ℕ, String, Bool, true, false, not, ◌&&◌, ◌||◌, Option, none, some, List, [], ◌∷◌, ◌++◌, ltb,
  if◌then◌else◌,
}
use agent_perimeter.Json.{Value}
use agent_perimeter.Contracts.{Derivation}

pub data Method : Type 0 where
  deterministic model human derived : Method

abbrev pub is_derived : Method → Bool
is_derived derived = true
is_derived m = false

-- A float, as comparisons see it: NaN, or its rank among the floats from minus infinity up, in
-- which the two zeros are one.
pub data Confidence : Type 0 where
  nan : Confidence
  rank : ℕ → Confidence

-- Python's `a > b`, which is false where one of them is NaN.
abbrev pub exceeds : Confidence → Confidence → Bool
exceeds (rank a) (rank b) = ltb b a
exceeds _ _ = false

-- A claim, and the tuple of its parents.
mutual
  pub data Claim : Type 0 where
    claim :
        Value → Method → Option Derivation → Option Confidence → ℕ → Parents → Option String → Claim

  pub data Parents : Type 0 where
    no_more : Parents
    parent : Claim → Parents → Parents

abbrev pub method : Claim → Method
method (claim v m d c o ps k) = m

abbrev pub confidence : Claim → Option Confidence
confidence (claim v m d c o ps k) = c

abbrev pub parents : Claim → Parents
parents (claim v m d c o ps k) = ps

abbrev pub caveat : Claim → Option String
caveat (claim v m d c o ps k) = k

abbrev pub is_root : Parents → Bool
is_root no_more = true
is_root (parent p ps) = false

-- The values that an option holds.
abbrev pub held {ℓ} : {A : Type ℓ} → Option A → List A
held none = []
held (some a) = a ∷ []

unfoldable pub parent_confidences : Parents → List Confidence
parent_confidences no_more = []
parent_confidences (parent p ps) = held (confidence p) ++ parent_confidences ps

-- Python's `min`, which takes an item only if it is less than the lowest before it.
abbrev pub min_from : Confidence → List Confidence → Confidence
min_from lowest [] = lowest
min_from lowest (n ∷ ns) = min_from (if exceeds lowest n then n else lowest) ns

-- `self.confidence > min(parent_confidences)` does not hold, or is not asked
unfoldable pub within : Option Confidence → List Confidence → Bool
within c [] = true
within none (n ∷ ns) = true
within (some c) (n ∷ ns) = not (exceeds c (min_from n ns))

-- `_confidence_never_exceeds_parents` returns rather than raises
unfoldable pub is_accepted : Claim → Bool
is_accepted (claim v m d c o ps k) =
    if not (is_derived m) || is_root ps then true else within c (parent_confidences ps)

-- `inherited_caveats`, and its loop over the parents
unfoldable mutual
  pub inherited_caveats : Claim → List String
  inherited_caveats (claim v m d c o ps k) = caveats_from ps

  pub caveats_from : Parents → List String
  caveats_from no_more = []
  caveats_from (parent p ps) = held (caveat p) ++ inherited_caveats p ++ caveats_from ps
