-- ===== src/Lib.antt =====
-- Verification of agent_perimeter, a scanner for servers of the Model Context Protocol. A scan
-- (scan_runner.py) passes the gate of active mode, fingerprints a server and lists its tools
-- (transport/revision.py, discover/enumerate.py), decides which checks may run
-- (checks/registry.py, model/scope.py), runs them behind a transport that holds uncleared
-- checks to passive requests (checks/all_checks.py, checks/context.py), and compares listings
-- over time (drift/compare.py). Checks such as the schema walk
-- (checks/revision/schema_composition.py) and the injection paths
-- (checks/injection/path_proof.py, over graph/build.py and graph/policy.py) are pure functions
-- of the listing.
--
-- The server is adversarial: a transport is any state with any answer to each request, so what
-- is proved of a listing or a run holds whatever the server sends. A listing's tool records
-- flow from Discover into Graph, Schema and Drift; Contracts and Model hold the enumerations,
-- the scope file and the snapshots that these share.
--
-- Files, and the code that they model under agent_perimeter:
--
-- - Prelude: shared lists, tables (a Python dict in insertion order), Boolean equality as an
--   interface, stable sorting, and integers.
-- - Json: the values of json.loads, and in Json/Print the text of json.dumps with sorted keys.
-- - Contracts: the enumerations of _contracts.py and model/edge.py, and in Contracts/Claim the
--   claims of _contracts.py with their check and the caveats that they inherit; a confidence is
--   NaN or has a rank.
-- - Model: model/feature.py in Model/Feature, model/scope.py in Model/Scope, model/snapshot.py
--   in Model/Snapshot, the excerpt of model/finding.py in Model/Excerpt.
-- - Transport: the Transport protocol of transport/base.py and the override that a probe asks
--   for; in Transport/Revision the fingerprint of transport/revision.py, with
--   Transport/Revision/Annotated for the tools that show a header annotation, in
--   Transport/Conformance the check of checks/revision/conformance_mismatch.py.
-- - Discover: discover/enumerate.py. Discover/Parse is _parse and parse_tools, Discover/Merge
--   is merge_page, Discover/Paging is the loop of list_tools.
-- - Checks: checks/registry.py in Checks/Registry, checks/context.py in Checks/Context, and
--   run_checks of checks/all_checks.py in Checks/Run. A check's body is a tree of requests.
-- - Scan: scan_runner.py. Scan/Setup holds the arguments, the outcome and the pure parts of
--   run_scan, Scan/Runner run_scan itself, Scan/Probes the two HTTP requests of
--   checks/revision/oauth_metadata.py and checks/static/auth_probe.py, Scan/Ambiguous is
--   compute_ambiguous_tools. Checks/Descriptions has the detectors of
--   checks/descriptions/unicode_anomaly.py and imperative_injection.py.
-- - Drift: drift/compare.py and model/drift.py. Drift/Digits is the printing and reading of
--   numbers, Drift/Keys the positional keys, Drift/Compare the comparison.
-- - Graph: graph/build.py in Graph/Build, graph/policy.py in Graph/Policy,
--   checks/injection/path_proof.py in Graph/Paths.
-- - Api: api/events.py, the log of scan events.
-- - Eval: eval/score.py, the scores over a labelled corpus.
-- - Action: action.py, the command that the GitHub action runs, the masked line that it prints,
--   and in Action/Verdict the outputs that it writes, read against the SARIF in Action/Sarif.
-- - Instrument: the proxy that records a session of an agent with a server. Instrument/Patterns
--   and Instrument/Redact are the redaction of instrument/recorder.py with the formats of
--   checks/secrets/patterns.py and the canary of instrument/canary.py; Instrument/Recorder is
--   its Recorder; Instrument/Proxy the state and the replies of instrument/proxy.py, and
--   Instrument/Serve the methods of Proxy. The target of the proxy is any state with any
--   outcome of each request, failures of every kind included.
-- - Adapter: checks/injection/agent_adapter.py, which reads such a transcript. Adapter holds
--   its parsers, Adapter/Judge _parse, _sink_of and run; Json/Dumps is the json.dumps of
--   instrument/canary.py, and Instrument/Transcript the JSON that the recorder writes.
-- - Schema: checks/revision/schema_composition.py. Schema/Pointer resolves a local ref,
--   Schema/Walk is _collect_refs, with Schema/Walk/Stops for the bounds that a walk crosses,
--   Schema/Composition is the check.
--
-- Errors are values: a transport error is a reply, as is any other exception that leaves a
-- request and what calls it, a ValueError is none or an outcome of its own, a crossed bound of
-- the schema walk is an end of the walk. A message is a constructor with what it quotes.
--
-- Bounds and fuel: list_tools and the proxy's paging take at most max_tool_pages (100) rounds,
-- and redact decodes max_decode_rounds (32) times; the fuel of each loop is its bound. A number
-- n is printed with n + 1 rounds, one more than its digits; int reads at most 4300 digits, as
-- Python does. The walk over a schema has 2 * (max_total_nodes + 1) rounds, since each node is
-- counted and opens at most one marker.
--
-- Parameters: SHA-256, the clock, what httpx does with a request, Python's urlsplit and
-- shlex.split, the constructors of the transports and their close, what a regular expression
-- matches, percent-decoding, Python's str of a number or container (render), and the order in
-- which Python goes through a set (arrange), of which only is used that it goes through each
-- member once.
--
-- Left out: lone surrogates, which no String holds, so that str.encode is total here; Python's
-- recursion limit; logging, the time of observation, the notes that a check appends to a scan,
-- the fixed wording of findings and the command that reproduces them. Instants and dates are
-- numbers, a set is a list that is asked for membership, and a float is the text that Python
-- prints for it. Transports, the command line, the API, the database and the reports are input
-- and output.
pub mod Prelude
pub mod Json
pub mod Transport
pub mod Contracts
pub mod Model
pub mod Discover
pub mod Checks
pub mod Action
pub mod Adapter
pub mod Instrument
pub mod Drift
pub mod Graph
pub mod Scan
pub mod Schema
pub mod Api
pub mod Eval
