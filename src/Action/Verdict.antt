-- ===== src/Action/Verdict.antt =====
-- agent_perimeter/action.py: what the step outputs say of a finished scan. The SARIF is what
-- `read_sarif` returned; none is an exception, at a SARIF of another shape.
use agent_perimeter.Prelude.{
  ℕ, ℤ, pos, String, Bool, true, false, not, ◌&&◌, ◌||◌, Option, none, some, List, [], ◌∷◌, lookup,
  is_some, length, ◌==◌, string_eq, int_eq, if◌then◌else◌,
}
use agent_perimeter.Json.{
  Value, str, int, float, bool, null, obj, arr, Fields, field, end, cons, nil, items, Object,
  as_object,
}
use agent_perimeter.Action.{Inputs}

abbrev pub drift_check_id : String
drift_check_id = "drift.description_drift"

-- `not v`
abbrev pub is_falsy : Value → Bool
is_falsy null = true
is_falsy (bool b) = not b
is_falsy (int z) = z == pos 0
is_falsy (float t) = (t == "0.0") || (t == "-0.0")
is_falsy (str t) = t == ""
is_falsy (arr nil) = true
is_falsy (arr (cons v vs)) = false
is_falsy (obj end) = true
is_falsy (obj (field k v fs)) = false

abbrev pub characters : String → List Value
characters String.[] = []
characters (String.◌∷◌ c s) = str (String.◌∷◌ c String.[]) ∷ characters s

abbrev pub key_values : Fields → List Value
key_values end = []
key_values (field k v fs) = str k ∷ key_values fs

-- `list(v)`
abbrev pub listed_value : Value → Option (List Value)
listed_value (arr vs) = some (items vs)
listed_value (str s) = some (characters s)
listed_value (obj fs) = some (key_values fs)
listed_value v = none

-- `list(o.get(k) or [])`
unfoldable pub list_or_empty : String → Object → Option (List Value)
list_or_empty k o = elim (lookup k o) [
  | none ↦ some []
  | some v ↦ if is_falsy v then some [] else listed_value v
]

-- `runs[0]`, where runs is not falsy
abbrev pub first_run_of : Value → Option Object
first_run_of (arr (cons v vs)) = as_object v
first_run_of v = none

abbrev pub results_of_runs : Option Value → Option (List Value)
results_of_runs none = some []
results_of_runs (some runs) =
    if is_falsy runs
    then some []
    else elim (first_run_of runs) [ none ↦ none | some run ↦ list_or_empty "results" run ]

unfoldable pub sarif_results : Option Object → Option (List Value)
sarif_results none = some []
sarif_results (some sarif) = results_of_runs (lookup "runs" sarif)

-- `r.get("ruleId") == DRIFT_CHECK_ID`
abbrev pub names_drift : Option Value → Bool
names_drift (some (str rule)) = rule == drift_check_id
names_drift v = false

-- The `any` over the results.
unfoldable pub any_drift : List Value → Option Bool
any_drift [] = some false
any_drift (r ∷ rs) =
    let rest = any_drift rs in
    elim (as_object r) [
      | none ↦ none
      | some o ↦ if names_drift (lookup "ruleId" o) then some true else rest
    ]

unfoldable pub drift_selected : Inputs → Bool
drift_selected inputs = (inputs.only == "") || (inputs.only == drift_check_id)

-- "none", "true", "false" and "unknown"
pub data DriftVerdict : Type 0 where
  not_gated drifted unchanged unknown : DriftVerdict

abbrev pub verdict_of : Bool → ℤ → Bool → DriftVerdict
verdict_of found rc selected =
    if found then drifted else if (rc == pos 0) && selected then unchanged else unknown

unfoldable pub drift_verdict : Option Object → Bool → ℤ → Bool → Option DriftVerdict
drift_verdict sarif first_run rc selected =
    if first_run then some not_gated else elim (sarif_results sarif) [
      | none ↦ none
      | some results ↦ elim (any_drift results) [
        | none ↦ none
        | some found ↦ some (verdict_of found rc selected)
      ]
    ]

pub record Outputs : Type 0 where
  pub sarif_file : Option String
  pub snapshot_file : String
  pub baseline_created : Bool
  pub drift : DriftVerdict
  pub finding_count : ℕ

-- The exit code, once a clean exit without SARIF counts as 2.
abbrev pub settled_code : ℤ → Option Object → ℤ
settled_code rc sarif = if (rc == pos 0) && not (is_some sarif) then pos 2 else rc

-- `outputs`, with the exit code of the command
unfoldable pub outputs_of : Inputs → Bool → ℤ → Option Object → Option Outputs
outputs_of inputs first_run rc sarif =
    let code = settled_code rc sarif in
    elim (drift_verdict sarif first_run code (drift_selected inputs)) [
      | none ↦ none
      | some verdict ↦ elim (sarif_results sarif) [
        | none ↦ none
        | some results ↦ some (record {
          sarif_file = if is_some sarif then some inputs.sarif else none;
          snapshot_file = if first_run then inputs.baseline else inputs.snapshot;
          baseline_created = first_run && (code == pos 0);
          drift = verdict;
          finding_count = length results;
        })
      ]
    ]
