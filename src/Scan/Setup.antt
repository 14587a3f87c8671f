-- ===== src/Scan/Setup.antt =====
-- agent_perimeter/scan_runner.py: the arguments and the outcome of `run_scan`, and its pure parts. An
-- instant and a date are numbers.
use agent_perimeter.Prelude.{
  ℕ, ◌+◌, String, Bool, false, not, Option, none, some, List, [], ◌∷◌, Table, insert, get_or, ◌==◌,
  string_eq, if◌then◌else◌, split_at,
}
use agent_perimeter.Json.{Value, str, Object}
use agent_perimeter.Json.Print.{Text}
use agent_perimeter.Transport.{Reply, ok, error, raises, Result, value, thrown, Transport}
use agent_perimeter.Transport.Revision.{Fingerprint}
use agent_perimeter.Model.Scope.{ScopeFile, Refusal, require_scope}
use agent_perimeter.Model.Snapshot.{ToolSnapshot}
use agent_perimeter.Discover.Parse.{ToolRecord}
use agent_perimeter.Discover.Paging.{Note, ToolListing}
use agent_perimeter.Drift.Keys.{Key}
use agent_perimeter.Drift.Compare.{DriftEvent}
use agent_perimeter.Graph.Build.{CapabilityEdge}
use agent_perimeter.Api.Events.{EventFrame}
use agent_perimeter.Checks.Registry.{
  Check, BaselineStatus, present, none_on_record, source_unavailable, Situation, Skipped,
}
use agent_perimeter.Checks.Descriptions.Imperative.{Match, Urls}
use agent_perimeter.Checks.Run.{CheckOutcome}
use agent_perimeter.Scan.Probes.{Web, is_http}

pub data ScanMode : Type 0 where
  passive active : ScanMode

pub record LaunchSpec : Type 0 where
  pub image : String
  pub command : List String
  pub env : List (String × String)

-- The call of a transport's constructor: a URL with the contact, or a launch.
pub data Endpoint : Type 0 where
  streamable_http : String → String → Endpoint
  stdio : LaunchSpec → Endpoint

-- The outside of a scan. `connect` is the constructor of the transport: false where it raises.
pub record World (S : Type 0) : Type 0 where
  pub connect : Endpoint → S → Bool × S
  pub transport : Transport S
  pub close : S → S
  pub web : Web S

-- What the code takes from the language and its library.
pub record Python : Type 0 where
  pub render : Value → String
  pub sha256 : Text → Text
  -- the order in which a set of keys is gone through
  pub arrange : List Key → List Key
  -- `re.compile(pattern, re.I).search(text)`, as the match and as the matched text
  pub search : String → String → Option Match
  pub search_text : String → String → Option String
  pub urls : Urls
  -- how many milliseconds each check took
  pub elapsed_ms : ℕ → ℕ
  -- `shlex.split`, or none for its ValueError
  pub shlex_split : String → Option (List String)

abbrev pub Raw : Type 0
Raw = Table String Object

-- The arguments of `run_scan`, with `contact` for the environment's AP_CONTACT_URL.
pub record Arguments : Type 0 where
  pub target : String
  pub mode : ScanMode
  pub scope : Option ScopeFile
  pub image : String
  pub env : List (String × String)
  pub contact : Option String
  pub checks : List Check
  pub today : ℕ
  pub extra_raw : Raw
  pub invocation_flags : List String
  pub baseline : Option ToolSnapshot
  pub baseline_source_unavailable : Bool
  pub now : ℕ

-- What a check is given, besides the transport.
pub record ScanContext : Type 0 where
  pub target : String
  pub fingerprint : Fingerprint
  pub tools : List ToolRecord
  pub raw : Raw
  pub scope : Option ScopeFile
  pub ambiguous_tools : List String
  pub invocation_flags : List String
  pub baseline : Option ToolSnapshot
  pub drift_events : List DriftEvent
  pub notes : List Note

pub record ScanOutcome (F : Type 0) : Type 0 where
  pub findings : List F
  pub skipped : List Skipped
  pub errored : List CheckOutcome
  pub fingerprint : Fingerprint
  pub tools : List ToolRecord
  pub edges : List CapabilityEdge
  pub snapshot : ToolSnapshot
  pub drift_events : List DriftEvent
  pub notes : List Note
  pub listing_complete : Bool

-- How a scan ends: it returns, having sent these frames, or an exception leaves it.
pub data Scan (F : Type 0) : Type 0 where
  scanned : ScanOutcome F → List EventFrame → Scan F
  -- the ValueError of a baseline of another target
  other_baseline : Scan F
  -- AuthorizationRequired
  refused : Refusal → Scan F
  -- building the transport raised
  no_transport : Scan F
  -- an exception after the connection was opened
  failed : String → Scan F

-- `AP_CONTACT_URL`'s default
abbrev pub default_contact_url : String
default_contact_url = "https://github.com/Berakhah/agent-perimeter"

-- `build_transport`, up to the constructor's own work
unfoldable pub build_transport :
    (String → Option (List String))
    → Option String
    → String
    → String
    → List (String × String)
    → Option Endpoint
build_transport shlex_split contact target image env =
    if is_http target
    then some (streamable_http target (get_or contact default_contact_url))
    else elim (shlex_split target) [
      | none ↦ none
      | some command ↦ some (stdio (record { image = image; command = command; env = env }))
    ]

unfoldable pub baseline_differs : Arguments → Bool
baseline_differs a = elim a.baseline [ none ↦ false | some b ↦ not (b.target == a.target) ]

unfoldable pub baseline_status_of : Arguments → BaselineStatus
baseline_status_of a = elim a.baseline [
  | some b ↦ present
  | none ↦ if a.baseline_source_unavailable then source_unavailable else none_on_record
]

-- The gate of active mode: the refusal where it raises.
unfoldable pub scan_gate : Arguments → Option Refusal
scan_gate a = elim a.mode [
  | passive ↦ none
  | active ↦ require_scope a.scope "scan" a.target a.today
]

-- the `try` of the loop over the two methods: only a `TransportError` is caught
abbrev pub add_reply : String → Reply → Raw → Result Raw
add_reply method (ok result) raw = value (insert method result raw)
add_reply method (error code) raw = value raw
add_reply method (raises e) raw = thrown e

abbrev pub add_metadata : Option Object → Raw → Raw
add_metadata none raw = raw
add_metadata (some metadata) raw = insert "oauth/metadata" metadata raw

abbrev pub add_probe : Object → Raw → Raw
add_probe [] raw = raw
add_probe (f ∷ fs) raw = insert "_auth_probe" (f ∷ fs) raw

abbrev pub as_texts : List (String × String) → Object
as_texts [] = []
as_texts ((k, v) ∷ env) = (k, str v) ∷ as_texts env

-- `launch_spec is not None and launch_spec.env`
abbrev pub add_env : Endpoint → Raw → Raw
add_env (streamable_http url contact) raw = raw
add_env (stdio spec) raw = elim spec.env [
  | [] ↦ raw
  | e ∷ es ↦ insert "_env" (as_texts (e ∷ es)) raw
]

-- `raw.update(extra)`
abbrev pub update_raw : Raw → Raw → Raw
update_raw raw [] = raw
update_raw raw ((k, o) ∷ extra) = update_raw (insert k o raw) extra

abbrev pub situation : Arguments → Fingerprint → ToolListing → Situation
situation a fp listing = record {
  features = fp.features;
  scope = a.scope;
  target = a.target;
  today = a.today;
  models_available = false;
  baseline_status = baseline_status_of a;
  listing_complete = listing.complete;
}

-- `check_id.split(".", 1)[0]`
abbrev pub before_dot : String → String
before_dot id = elim (split_at "." id) [ [] ↦ id | piece ∷ pieces ↦ piece ]

abbrev pub status_text : Bool → String
status_text passed = if passed then "passed" else "errored"

-- The calls of `on_event`, with `completed` before them.
unfoldable pub progress_frames : (ℕ → ℕ) → ℕ → ℕ → List (String × Bool) → List EventFrame
progress_frames elapsed_ms total completed [] = []
progress_frames elapsed_ms total completed ((id, status) ∷ rest) =
    record {
      check_id = id;
      status = status_text status;
      elapsed_ms = elapsed_ms completed;
      phase = before_dot id;
      completed = completed + 1;
      total = total;
    }
    ∷ progress_frames elapsed_ms total (completed + 1) rest
