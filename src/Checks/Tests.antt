-- ===== src/Checks/Tests.antt =====
-- Checks, situations and transports at which the theorems are applied.
use agent_perimeter.Prelude.{◌≡◌, refl, String, true, false, none, List, [], ◌∷◌, All}
use agent_perimeter.Transport.{error, Transport, recording, has_header_override}
use agent_perimeter.Contracts.{high}
use agent_perimeter.Model.Feature.{param_headers, result_type}
use agent_perimeter.Model.Scope.{require_scope}
use agent_perimeter.Checks.Registry.{Check, Situation, none_on_record, applicable, skip_of}
use agent_perimeter.Checks.Registry.Gate.{Split, applicable-Split}
use agent_perimeter.Checks.Context.{replied, refused, unauthorised}
use agent_perimeter.Checks.Run.{
  Program, returns, raises, asks, Ending, run_checks, run_from, execute,
}
use agent_perimeter.Checks.Run.Passive.{IsPassive, run_checks-IsPassive}
use agent_perimeter.Checks.Run.Isolation.{
  AllEnd, all_found, all_raised, all_events, run_checks-Adds,
}

abbrev plain : String → Check
plain i = record {
  id = i;
  cwe = "CWE-918";
  taxonomy_refs = "owasp-llm:LLM06" ∷ [];
  severity = high;
  requires_auth = false;
  requires_model = false;
  requires_features = [];
  requires_baseline = false;
}

abbrev active : Check
active = record (plain "active.ssrf") { requires_auth = true }

abbrev header : Check
header = record (plain "revision.header") { requires_features = param_headers ∷ [] }

abbrev drift : Check
drift = record (plain "drift.description_drift") { requires_baseline = true }

abbrev unscoped : Situation
unscoped = record {
  features = result_type ∷ [];
  scope = none;
  target = "https://mcp.example.test/rpc";
  today = 739860;
  models_available = false;
  baseline_status = none_on_record;
  listing_complete = true;
}

abbrev checks : List Check
checks = header ∷ plain "static.auth_mode" ∷ active ∷ drift ∷ []

unscoped-runnable : (applicable unscoped checks).0 ≡ plain "static.auth_mode" ∷ []
unfolding applicable skip_of require_scope
unscoped-runnable = refl

applicable-Split_example :
    Split unscoped checks (applicable unscoped checks).0 (applicable unscoped checks).1
applicable-Split_example = applicable-Split unscoped checks

abbrev silent : Transport (Unit {0})
silent = record { request = λ m p s. (error none, s) }

-- Each check calls a tool, whether it may or not, and raises on anything but a reply.
abbrev calls_tool : Check → Program String
calls_tool check = asks "tools/list" none λ a.
    asks "tools/call" none λ b. elim b [
      | replied r ↦ returns ("called" ∷ [])
      | refused r ↦ raises "AuthorizationRequired"
    ]

run_checks-IsPassive_example :
    All IsPassive
      (run_checks calls_tool (recording silent) (applicable unscoped checks).0 (tt, [])).1.1
run_checks-IsPassive_example = run_checks-IsPassive calls_tool silent unscoped checks tt (λ a. a)

sends_one :
    (run_checks calls_tool (recording silent) (plain "static.auth_mode" ∷ []) (tt, [])).1.1
    ≡ record { method = "tools/list"; params = none } ∷ []
unfolding run_checks run_from execute unauthorised has_header_override
sends_one = refl

run_checks-Adds_example :
    let (report, s') = run_checks calls_tool silent (active ∷ plain "static.auth_mode" ∷ []) tt in
    (es : List (Check × Ending String)) × AllEnd calls_tool silent
      (active ∷ plain "static.auth_mode" ∷ [])
      tt
      es
      s'
    × (report.findings ≡ all_found es)
    × (report.errored ≡ all_raised es)
    × (report.events ≡ all_events es)
run_checks-Adds_example =
    run_checks-Adds calls_tool silent (active ∷ plain "static.auth_mode" ∷ []) tt
