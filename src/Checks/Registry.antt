-- ===== src/Checks/Registry.antt =====
-- agent_perimeter/checks/registry.py and base.py: which checks apply, and why the others do not.
pub mod Gate
pub mod Summary
use text.Mathlib.Text.{is_le}
use Prim.Native.String.{compare}
use agent_perimeter.Prelude.{
  ℕ, String, ◌≡◌, refl, Bool, true, false, not, ◌&&◌, Option, none, some, List, [], ◌∷◌, map,
  filter, contains, sorted, HasEq, nth, by_place, if◌then◌else◌,
}
use agent_perimeter.Contracts.{Severity}
use agent_perimeter.Model.Feature.{Feature, feature_value, feature_eq}
use agent_perimeter.Model.Scope.{ScopeFile, Refusal, require_scope}

-- What a check declares of itself; `run` is taken where checks run.
pub record Check : Type 0 where
  pub id : String
  pub cwe : String
  pub taxonomy_refs : List String
  pub severity : Severity
  pub requires_auth : Bool
  pub requires_model : Bool
  pub requires_features : List Feature
  pub requires_baseline : Bool

pub data SkipReason : Type 0 where
  feature_absent not_authorised model_unavailable no_baseline listing_incomplete : SkipReason

pub data BaselineStatus : Type 0 where
  present none_on_record source_unavailable : BaselineStatus

-- What `Skipped.detail` says.
pub data Detail : Type 0 where
  lacks : List String → Detail
  no_model_provider : Detail
  partial_listing : Detail
  baseline_absent : BaselineStatus → Detail
  refused : Refusal → Detail

pub record Skipped : Type 0 where
  pub check_id : String
  pub reason : SkipReason
  pub detail : Detail

-- The arguments of `applicable` besides the checks.
pub record Situation : Type 0 where
  pub features : List Feature
  pub scope : Option ScopeFile
  pub target : String
  pub today : ℕ
  pub models_available : Bool
  pub baseline_status : BaselineStatus
  pub listing_complete : Bool

abbrev pub is_present : BaselineStatus → Bool
is_present present = true
is_present _ = false

-- Texts in Python's order, which is by code points.
abbrev pub text_le : String → String → Bool
text_le a b = is_le (compare a b)

-- `check.requires_features - features`
abbrev pub missing_features : Situation → Check → List Feature
missing_features s check = filter (λ f. not (contains f s.features)) check.requires_features

abbrev pub skip : Check → SkipReason → Detail → Option Skipped
skip check reason detail = some (record { check_id = check.id; reason = reason; detail = detail })

abbrev pub authorisation_skip : Situation → Check → Option Skipped
authorisation_skip s check = elim (require_scope s.scope check.id s.target s.today) [
  | none ↦ none
  | some refusal ↦ skip check not_authorised (refused refusal)
]

abbrev pub later_skip : Situation → Check → Option Skipped
later_skip s check =
    if check.requires_model && not s.models_available
    then skip check model_unavailable no_model_provider
    else if check.requires_baseline && not s.listing_complete
    then skip check listing_incomplete partial_listing
    else if check.requires_baseline && not (is_present s.baseline_status)
    then skip check no_baseline (baseline_absent s.baseline_status)
    else if check.requires_auth
    then authorisation_skip s check
    else none

-- The body of the loop: why the check is skipped, or `none` if it is runnable.
unfoldable pub skip_of : Situation → Check → Option Skipped
skip_of s check = elim (missing_features s check) [
  | [] ↦ later_skip s check
  | f ∷ fs ↦ skip check feature_absent (lacks (sorted text_le (map feature_value (f ∷ fs))))
]

unfoldable pub applicable : Situation → List Check → List Check × List Skipped
applicable s [] = ([], [])
applicable s (check ∷ checks) =
    let (runnable, skipped) = applicable s checks in
    elim (skip_of s check) [
      | none ↦ (check ∷ runnable, skipped)
      | some skip ↦ (runnable, skip ∷ skipped)
    ]
