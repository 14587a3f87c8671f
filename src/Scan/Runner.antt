-- ===== src/Scan/Runner.antt =====
-- agent_perimeter/scan_runner.py: `run_scan`. The outside is a state that each step may change; the
-- notes that a check appends are left out.
use agent_perimeter.Prelude.{
  ◌+◌, String, true, false, Option, none, some, List, [], ◌∷◌, length, string_eq, if◌then◌else◌,
}
use agent_perimeter.Transport.Revision.{Fingerprint, fingerprint}
use agent_perimeter.Model.Snapshot.{from_tools}
use agent_perimeter.Discover.Paging.{ToolListing, list_tools}
use agent_perimeter.Drift.Compare.{DriftEvent, events, compare_tools}
use agent_perimeter.Graph.Build.{build_graph}
use agent_perimeter.Checks.Registry.{Check, Skipped, applicable}
use agent_perimeter.Checks.Run.{Program, Report, run_checks}
use agent_perimeter.Scan.Ambiguous.{compute_ambiguous_tools}
use agent_perimeter.Transport.{Result, value, thrown}
use agent_perimeter.Scan.Probes.{fetch_oauth_metadata, probe_auth_challenge}
use agent_perimeter.Scan.Setup.{
  Endpoint, World, Python, Raw, Arguments, ScanContext, ScanOutcome, Scan, build_transport,
  baseline_differs, scan_gate, add_reply, add_metadata, add_probe, add_env, update_raw, situation,
  progress_frames, scanned, other_baseline, refused, no_transport, failed,
}

-- What follows a call, unless an exception leaves it.
abbrev pub after_call : {A F S : Type 0} → Result A × S → (A → S → Scan F × S) → Scan F × S
after_call (value x, s) k = k x s
after_call (thrown reason, s) k = (failed reason, s)

module _ (py : Python) where
  -- `drift_events`, or none where the comparison raises
  unfoldable pub drift_of : Arguments → ToolListing → Option (List DriftEvent)
  drift_of a listing = elim a.baseline [
    | none ↦ some []
    | some b ↦
        if listing.complete
        then (elim (compare_tools py.arrange py.sha256 b a.target listing.tools a.now) [
          | events found ↦ some found
          | _ ↦ none
        ])
        else some []
  ]

  abbrev pub context_of :
      Arguments → Fingerprint → ToolListing → Raw → List DriftEvent → ScanContext
  context_of a fp listing raw drift = record {
    target = a.target;
    fingerprint = fp;
    tools = listing.tools;
    raw = raw;
    scope = a.scope;
    ambiguous_tools = compute_ambiguous_tools py.urls py.search a.target listing.tools;
    invocation_flags = a.invocation_flags;
    baseline = a.baseline;
    drift_events = drift;
    notes = listing.notes;
  }

  module _ {F S : Type 0} (run : ScanContext → Check → Program F) (w : World S) where
    -- The loop over the two methods.
    unfoldable pub raw_replies : List String → Raw → S → Result Raw × S
    raw_replies [] raw s = (value raw, s)
    raw_replies (method ∷ methods) raw s =
        let (reply, s') = w.transport.request method none s in
        elim (add_reply method reply raw) [
          | thrown e ↦ (thrown e, s')
          | value more ↦ raw_replies methods more s'
        ]

    -- `ScanOutcome`, from the report of the checks
    abbrev pub outcome_of :
        Arguments
        → Fingerprint
        → ToolListing
        → List DriftEvent
        → List Skipped
        → Report F
        → ScanOutcome F
    outcome_of a fp listing drift skipped report = record {
      findings = report.findings;
      skipped = skipped;
      errored = report.errored;
      fingerprint = fp;
      tools = listing.tools;
      edges = build_graph py.search_text listing.tools;
      snapshot = from_tools py.sha256 a.target a.now none listing.tools;
      drift_events = drift;
      notes = listing.notes;
      listing_complete = listing.complete;
    }

    -- From the drift events on.
    unfoldable pub run_applicable :
        Arguments → Fingerprint → ToolListing → Raw → List DriftEvent → S → Scan F × S
    run_applicable a fp listing raw drift s =
        let (runnable, skipped) = applicable (situation a fp listing) a.checks in
        let (report, s') =
          run_checks (run (context_of a fp listing raw drift)) w.transport runnable s in
        (
          scanned (outcome_of a fp listing drift skipped report)
              (progress_frames py.elapsed_ms (length runnable + length skipped) 0 report.events),
          s',
        )

    -- From what is listed on.
    unfoldable pub run_listed : Arguments → Fingerprint → Raw → ToolListing → S → Scan F × S
    run_listed a fp raw listing s = elim (drift_of a listing) [
      | none ↦ (failed "ValueError", s)
      | some drift ↦ run_applicable a fp listing raw drift s
    ]

    -- From the listing on.
    unfoldable pub enumerate : Arguments → Fingerprint → Raw → S → Scan F × S
    enumerate a fp raw s =
        after_call (list_tools py.render w.transport s) λ listing s'. run_listed a fp raw listing s'

    -- From the two HTTP requests on.
    unfoldable pub probe : Arguments → Endpoint → Fingerprint → Raw → S → Scan F × S
    probe a e fp raw s = after_call (fetch_oauth_metadata py.urls w.web a.target s) λ metadata s'.
        after_call (probe_auth_challenge py.urls w.web a.target s') λ answer s''.
          enumerate a fp
            (update_raw (add_env e (add_probe answer (add_metadata metadata raw))) a.extra_raw) s''

    -- The body of the `try`.
    unfoldable pub connected : Arguments → Endpoint → S → Scan F × S
    connected a e s = after_call (fingerprint py.render w.transport s) λ fp s'.
        after_call (raw_replies ("server/discover" ∷ "tools/list" ∷ []) [] s')
          λ raw s''. probe a e fp raw s''

    -- From `build_transport` on, with the `finally`.
    unfoldable pub open_and_scan : Arguments → S → Scan F × S
    open_and_scan a s = elim (build_transport py.shlex_split a.contact a.target a.image a.env) [
      | none ↦ (no_transport, s)
      | some e ↦
          let (opened, s') = w.connect e s in
          elim opened [
            | false ↦ (no_transport, s')
            | true ↦ let (result, s'') = connected a e s' in (result, w.close s'')
          ]
    ]

    unfoldable pub run_scan : Arguments → S → Scan F × S
    run_scan a s =
        if baseline_differs a
        then (other_baseline, s)
        else elim (scan_gate a) [ some refusal ↦ (refused refusal, s) | none ↦ open_and_scan a s ]
