-- ===== src/Action/Tests.antt =====
-- Runs of the action's command line on concrete inputs, and uses of its theorems.
use agent_perimeter.Prelude.{plus, ◌≡◌, refl, ◌↔◌, String, true, false, pos, some, List, [], ◌∷◌}
use agent_perimeter.Action.{
  Inputs, build_argv, has_equals, masked_part, masked_from, reproduction_line,
}
use agent_perimeter.Json.{str, arr, obj, field, end, cons, nil, Object}
use agent_perimeter.Action.Verdict.{
  unchanged, drifted, drift_verdict, drift_selected, sarif_results, list_or_empty, any_drift,
  Outputs, outputs_of,
}
use agent_perimeter.Action.Gate.{WasCompared, outputs_of-unchanged}
use agent_perimeter.Action.Masking.{with_env, reproduction_line-with_env}

abbrev inputs : Inputs
inputs = record {
  target = "node server.js";
  mode = "";
  scope_file = "";
  image = "";
  env = "TOKEN=s3cret" ∷ "B=" ∷ [];
  only = "";
  baseline = "base.json";
  snapshot = "now.json";
  fail_on_drift = true;
  sarif = "out.sarif";
  html = "";
  upload_sarif = false;
}

abbrev spaced : List String → String
spaced [] = ""
spaced (part ∷ parts) = plus part (plus " " (spaced parts))

first_line :
    reproduction_line spaced (build_argv inputs true)
    ≡ "agent-perimeter scan --target node server.js --env TOKEN=*** --env B=*** --sarif out.sarif --snapshot base.json "
unfolding reproduction_line build_argv masked_from masked_part has_equals
first_line = refl

reproduction_line-with_env_example :
    reproduction_line spaced (build_argv inputs false)
    ≡ reproduction_line spaced (build_argv (with_env inputs ("TOKEN=other" ∷ "B=x=y" ∷ [])) false)
unfolding has_equals
reproduction_line-with_env_example =
    reproduction_line-with_env spaced inputs ("TOKEN=other" ∷ "B=x=y" ∷ []) false refl refl refl

-- One result of this rule.
abbrev sarif : String → Object
sarif rule =
    (
      "runs",
      arr (
          cons (obj (field "results" (arr (cons (obj (field "ruleId" (str rule) end)) nil)) end))
            nil),
    )
    ∷ []

abbrev outputs : Outputs
outputs = record {
  sarif_file = some "out.sarif";
  snapshot_file = "now.json";
  baseline_created = false;
  drift = unchanged;
  finding_count = 1;
}

quiet_outputs : outputs_of inputs false (pos 0) (some (sarif "static.auth_mode")) ≡ some outputs
unfolding outputs_of drift_verdict drift_selected sarif_results list_or_empty any_drift
quiet_outputs = refl

drifted_outputs :
    outputs_of inputs false (pos 3) (some (sarif "drift.description_drift"))
    ≡ some (record outputs { drift = drifted })
unfolding outputs_of drift_verdict drift_selected sarif_results list_or_empty any_drift
drifted_outputs = refl

outputs_of-unchanged_example :
    (unchanged ≡ unchanged) ↔ WasCompared inputs false (pos 0) (some (sarif "static.auth_mode"))
outputs_of-unchanged_example =
    outputs_of-unchanged inputs false (pos 0) (some (sarif "static.auth_mode")) outputs
      quiet_outputs
