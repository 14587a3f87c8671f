-- ===== src/Scan/Tests.antt =====
-- Scans of a small server, and uses of the theorems.
use mathlib.Core.List.{Memᴰ}
use agent_perimeter.Prelude.{
  String, ◌≡◌, refl, ◌↔◌, ◌&&◌, not, true, false, none, some, List, [], ◌∷◌, string_eq, ◌==◌, plus,
  if◌then◌else◌, contains, inl, inr, Bool-cases, get_elem?,
}
use agent_perimeter.Json.{str, arr, obj, field, end, cons, nil}
use agent_perimeter.Transport.{ok, error}
use agent_perimeter.Contracts.{high}
use agent_perimeter.Model.Scope.{require_scope, codes}
use agent_perimeter.Discover.Parse.{ToolRecord}
use agent_perimeter.Checks.Registry.{Check}
use agent_perimeter.Checks.Context.{replied, refused}
use agent_perimeter.Checks.Run.{Program, returns, raises, asks}
use agent_perimeter.Checks.Descriptions.Unicode.{
  scan_text, scan_from, anomaly_category, confusable_name,
}
use agent_perimeter.Checks.Descriptions.Unicode.Offsets.{IsHidden, scan_text_iff}
use agent_perimeter.Checks.Descriptions.Imperative.{Urls, pattern_match}
use agent_perimeter.Scan.Ambiguous.{
  compute_ambiguous_tools, is_weak, is_strong, signals, tool_categories, imperative_categories,
}
use agent_perimeter.Scan.Ambiguous.Judged.{named, compute_ambiguous_tools-named}
use agent_perimeter.Scan.Probes.{http_error}
use agent_perimeter.Api.Events.{EventFrame}
use agent_perimeter.Scan.Setup.{
  passive, active, World, Python, Arguments, ScanContext, ScanOutcome, scanned, build_transport,
  stdio, baseline_differs, scan_gate,
}
use agent_perimeter.Scan.Runner.{run_scan}
use agent_perimeter.Scan.Answers.{AnswersPassive}
use agent_perimeter.Scan.Acts.{logged, Session}
use agent_perimeter.Scan.Session.{run_scan-Session}
use agent_perimeter.Scan.Reports.{Reports, run_scan-Reports}
use agent_perimeter.Scan.Returns.{IsReady, run_scan_returns}

abbrev no_urls : Urls
no_urls = record {
  split_url = λ url. some ("https", url);
  join_url = λ scheme netloc path. plus netloc path;
  lower = λ s. s;
}

abbrev py : Python
py = record {
  render = λ v. "0";
  sha256 = λ t. t;
  elapsed_ms = λ n. 0;
  arrange = λ ks. ks;
  search = λ pattern text. none;
  search_text = λ pattern text. none;
  urls = no_urls;
  shlex_split = λ s. some (s ∷ []);
}

-- Every listing is the one tool "read"; anything else fails.
abbrev server : World (Unit {0})
server = record {
  connect = λ e s. (true, s);
  transport = record {
    request = λ m p s. (
      if m == "tools/list"
          then ok (("tools", arr (cons (obj (field "name" (str "read") end)) nil)) ∷ [])
          else error none,
      s,
    );
  };
  close = λ s. s;
  web = record { get = λ url s. (http_error, s); post = λ url s. (http_error, s) };
}

abbrev auth_mode : Check
auth_mode = record {
  id = "static.auth_mode";
  cwe = "CWE-306";
  taxonomy_refs = [];
  severity = high;
  requires_auth = false;
  requires_model = false;
  requires_features = [];
  requires_baseline = false;
}

abbrev ssrf : Check
ssrf = record auth_mode { id = "active.ssrf"; requires_auth = true }

abbrev arguments : Arguments
arguments = record {
  target = "python server.py";
  mode = passive;
  scope = none;
  image = "python:3.12-slim";
  env = [];
  contact = none;
  checks = auth_mode ∷ ssrf ∷ [];
  today = 739860;
  extra_raw = [];
  invocation_flags = [];
  baseline = none;
  baseline_source_unavailable = false;
  now = 1;
}

-- Every check lists, and then calls a tool.
abbrev calls_tool : ScanContext → Check → Program String
calls_tool context check = asks "tools/list" none λ a.
    asks "tools/call" none λ b. elim b [
      | replied r ↦ returns ("called" ∷ [])
      | refused r ↦ raises "AuthorizationRequired"
    ]

server-answers : AnswersPassive server.transport
server-answers m p s h = elim (Bool-cases (m == "tools/list")) [
  | inl lists ↦ rw (lists) tt
  | inr other ↦ rw (other) tt
]

ready : IsReady py arguments server
unfolding build_transport
ready = record {
  fits = λ b e. absurd (cc (e));
  cleared = λ e. absurd (cc (e));
  endpoint =
      stdio (record { image = "python:3.12-slim"; command = "python server.py" ∷ []; env = [] });
  built = refl;
  opens = λ s. refl;
  splits = λ e. absurd (cc (e));
  answers = server-answers;
  http = record { get = λ url reason s e. cc; post = λ url reason s e. cc };
  readable = λ b tools e h. absurd (cc (e));
}

run_scan-Session_example :
    Session py arguments (run_scan py calls_tool (logged server) arguments (tt, [])).1.1
run_scan-Session_example = run_scan-Session py arguments calls_tool server tt

-- A scan in active mode with no scope file leaves the log empty.
refused_log :
    (run_scan py calls_tool (logged server) (record arguments { mode = active }) (tt, [])).1.1 ≡ []
unfolding run_scan baseline_differs scan_gate require_scope
refused_log = refl

returned :
    (o : ScanOutcome String) × (fs : List EventFrame) × (s' : Unit {0}) × (run_scan py calls_tool
        server arguments tt
      ≡ (scanned o fs, s'))
returned = run_scan_returns py arguments calls_tool server ready tt

run_scan-Reports_example : Reports py arguments returned.0 returned.1
run_scan-Reports_example =
    run_scan-Reports py arguments calls_tool server tt returned.2 returned.0 returned.1 returned.3

-- "x", a right-to-left override, "y"
abbrev hidden : String
hidden = "x\u{202e}y"

scan_text_iff_example :
    Memᴰ ("bidi_override", 1, 0x202E) (scan_text hidden)
    ↔ (get_elem? (codes hidden) 1 ≡ some 0x202E) × IsHidden "bidi_override" 0x202E
scan_text_iff_example = scan_text_iff hidden "bidi_override" 1 0x202E

abbrev tools : List ToolRecord
tools =
    record { name = "send"; description = "send it"; input_schema = []; annotations = [] }
    ∷ record { name = "sеnd"; description = "plain"; input_schema = []; annotations = [] }
    ∷ []

-- Only the second name has a Cyrillic letter.
ambiguous : compute_ambiguous_tools no_urls (λ p t. none) "x" tools ≡ "sеnd" ∷ []
unfolding compute_ambiguous_tools scan_text scan_from anomaly_category confusable_name signals
    tool_categories imperative_categories pattern_match
ambiguous = refl

compute_ambiguous_tools-named_example :
    contains "sеnd" (compute_ambiguous_tools no_urls (λ p t. none) "x" tools) ≡ (
      named no_urls (λ p t. none) "x" "sеnd" (is_weak no_urls (λ p t. none) "x") tools
      && not (named no_urls (λ p t. none) "x" "sеnd" (is_strong no_urls (λ p t. none) "x") tools))
compute_ambiguous_tools-named_example =
    compute_ambiguous_tools-named no_urls (λ p t. none) "x" "sеnd" tools
