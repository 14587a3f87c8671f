-- ===== src/Scan/Reports.antt =====
-- What a scan that returns has reported.
pub mod Frames
pub mod Drift
use agent_perimeter.Prelude.{
  ℕ, ◌+◌, String, ◌≡◌, refl, ◌∙◌, sym, ap, subst, ◌⊎◌, inl, inr, Bool, true, false, not, Option,
  none, some, List, [], ◌∷◌, ◌++◌, map, All, filter, length, string_eq, ◌==◌, arith, Bool-cases,
  Option-cases,
}
use agent_perimeter.Json.{Value, Object}
use agent_perimeter.Transport.Revision.{Fingerprint, fingerprint}
use agent_perimeter.Model.Snapshot.{ToolSnapshot, from_tools}
use agent_perimeter.Drift.Compare.{
  DriftEvent, Outcome, events, other_target, not_an_int, compare_tools,
}
use agent_perimeter.Discover.Paging.{ToolListing, list_tools}
use agent_perimeter.Graph.Build.{CapabilityEdge, build_graph}
use agent_perimeter.Checks.Registry.{Check, Situation, Skipped, applicable}
use agent_perimeter.Checks.Registry.Gate.{Split, applicable-Split}
use agent_perimeter.Checks.Run.{Program, CheckOutcome, Report, run_checks}
use agent_perimeter.Checks.Run.Isolation.{run_checks-Adds, ran-AllEnd, all_events}
use agent_perimeter.Transport.{Result, value, thrown}
use agent_perimeter.Scan.Probes.{fetch_oauth_metadata, probe_auth_challenge}
use agent_perimeter.Api.Events.{EventFrame}
use agent_perimeter.Scan.Setup.{
  Endpoint, World, Python, Raw, Arguments, ScanContext, ScanOutcome, Scan, scanned, other_baseline,
  refused, no_transport, failed, build_transport, baseline_differs, baseline_status_of, scan_gate,
  situation, add_metadata, add_probe, add_env, update_raw, progress_frames,
}
use agent_perimeter.Scan.Runner.{
  after_call, drift_of, context_of, raw_replies, run_applicable, run_listed, enumerate, probe,
  connected, open_and_scan, run_scan,
}
use agent_perimeter.Scan.Cases.{run_scan-cases}
use agent_perimeter.Scan.Reports.Frames.{
  frame_id, frame_completed, check_id_of, outcome_id, did_error, counting_from, Split-length,
  progress_frames-ids, progress_frames-totals, progress_frames-counts, progress_frames-errors,
  length-all_events,
}
use agent_perimeter.Scan.Reports.Drift.{drift_of-compared, drift_of-not_compared}

module _ (py : Python) (a : Arguments) {F : Type 0} where
  -- What the registry decided on, read off the outcome.
  abbrev pub seen : ScanOutcome F → Situation
  seen o = record {
    features = o.fingerprint.features;
    scope = a.scope;
    target = a.target;
    today = a.today;
    models_available = false;
    baseline_status = baseline_status_of a;
    listing_complete = o.listing_complete;
  }

  pub record Reports (o : ScanOutcome F) (fs : List EventFrame) : Type 0 where
    pub runnable : List Check
    -- each check ran or was skipped for a reason that holds
    pub split : Split (seen o) a.checks runnable o.skipped
    -- one frame for each check that ran, in order, counted from one, out of all checks
    pub ids : map frame_id fs ≡ map check_id_of runnable
    pub counts : map frame_completed fs ≡ counting_from 1 (length runnable)
    pub totals : All (λ (f : EventFrame). f.total ≡ length a.checks) fs
    -- the frames that say "errored" are those of the errors
    pub errors : map frame_id (filter did_error fs) ≡ map outcome_id o.errored
    -- the drift is that of the comparison, where there is a baseline and the listing is complete
    pub compared :
        (b : ToolSnapshot)
        → a.baseline ≡ some b
        → o.listing_complete ≡ true
        → compare_tools py.arrange py.sha256 b a.target o.tools a.now ≡ events o.drift_events
    pub not_compared : ((a.baseline ≡ none) ⊎ (o.listing_complete ≡ false)) → o.drift_events ≡ []

  -- A scan that returns reports so.
  abbrev Ensures : Scan F → Type 0
  Ensures (scanned o fs) = Reports o fs
  Ensures other_baseline = Unit
  Ensures (refused r) = Unit
  Ensures no_transport = Unit
  Ensures (failed e) = Unit

  module _ {S : Type 0} (run : ScanContext → Check → Program F) (w : World S) where
    run_applicable-Reports :
        (fp : Fingerprint) (listing : ToolListing) (raw : Raw) (drift : List DriftEvent) (s : S)
        → drift_of py a listing ≡ some drift
        → Ensures (run_applicable py run w a fp listing raw drift s).0
    unfolding run_applicable
    run_applicable-Reports fp listing raw drift s h =
        let now : Situation = situation a fp listing in
        let parts = applicable-Split now a.checks in
        let runnable : List Check = (applicable now a.checks).0 in
        let (es, all_ended, found, errored, told) =
          run_checks-Adds (run (context_of py a fp listing raw drift)) w.transport runnable s in
        let who = ran-AllEnd _ w.transport all_ended in
        let report : Report F =
          (run_checks (run (context_of py a fp listing raw drift)) w.transport runnable s).0 in
        let total : ℕ = length runnable + length (applicable now a.checks).1 in
        record {
          runnable = runnable;
          split = parts;
          ids =
              ap
                (λ (l : List (String × Bool)).
                  map frame_id (progress_frames py.elapsed_ms total 0 l))
                told
              ∙ progress_frames-ids py.elapsed_ms total 0 es
              ∙ ap (λ (l : List Check). map check_id_of l) who;
          counts =
              ap
                (λ (l : List (String × Bool)).
                  map frame_completed (progress_frames py.elapsed_ms total 0 l))
                told
              ∙ progress_frames-counts py.elapsed_ms total 0 (all_events es)
              ∙ ap (λ (n : ℕ). counting_from 1 n)
                  (length-all_events es ∙ ap (λ (l : List Check). length l) who);
          totals =
              subst
                (λ (n : ℕ).
                  All (λ (f : EventFrame). f.total ≡ n)
                    (progress_frames py.elapsed_ms total 0 report.events))
                (Split-length parts) (progress_frames-totals py.elapsed_ms total 0 _);
          errors =
              ap
                (λ (l : List (String × Bool)).
                  map frame_id (filter did_error (progress_frames py.elapsed_ms total 0 l)))
                told
              ∙ progress_frames-errors py.elapsed_ms total 0 es
              ∙ ap (λ (l : List CheckOutcome). map outcome_id l) (sym errored);
          compared = λ b has complete. drift_of-compared py a listing drift b h has complete;
          not_compared = drift_of-not_compared py a listing drift h;
        }

    run_listed-Reports :
        (fp : Fingerprint) (raw : Raw) (listing : ToolListing) (s : S)
        → Ensures (run_listed py run w a fp raw listing s).0
    unfolding run_listed
    run_listed-Reports fp raw listing s = elim (Option-cases (drift_of py a listing)) [
      | inl raises ↦ rw (raises, run_listed) tt
      | inr (drift, returns) ↦
          rw (returns, run_listed) (run_applicable-Reports fp listing raw drift s returns)
    ]

    after_call-Ensures :
        {A : Type 0} (r : Result A) (s : S) (k : A → S → Scan F × S)
        → ((x : A) → Ensures (k x s).0)
        → Ensures (after_call (r, s) k).0
    after_call-Ensures (value x) s k h = h x
    after_call-Ensures (thrown reason) s k h = tt

    enumerate-Reports :
        (fp : Fingerprint) (raw : Raw) (s : S) → Ensures (enumerate py run w a fp raw s).0
    unfolding enumerate
    enumerate-Reports fp raw s =
        let (listing, s') = list_tools py.render w.transport s in
        after_call-Ensures listing s' _ λ l. run_listed-Reports fp raw l s'

    connected-Reports : (e : Endpoint) (s : S) → Ensures (connected py run w a e s).0
    unfolding connected probe
    connected-Reports e s =
        let (fp, s₁) = fingerprint py.render w.transport s in
        let (raw, s₂) = raw_replies py run w ("server/discover" ∷ "tools/list" ∷ []) [] s₁ in
        let (fetched, s₃) = fetch_oauth_metadata py.urls w.web a.target s₂ in
        let (probed, s₄) = probe_auth_challenge py.urls w.web a.target s₃ in
        after_call-Ensures fp s₁ _ λ shown. after_call-Ensures raw s₂ _ λ more.
          after_call-Ensures fetched s₃ _
            λ metadata. after_call-Ensures probed s₄ _ λ answer. enumerate-Reports shown _ s₄

    run_scan-Ensures : (s : S) → Ensures (run_scan py run w a s).0
    run_scan-Ensures s =
        run_scan-cases py a run w s (λ r. Ensures r.0) tt (λ refusal. tt) tt (λ e built passes. tt)
          (λ e built passes. connected-Reports e (w.connect e s).1)

    -- A scan that returns accounts for every check: each was run, or skipped for a reason that
    -- holds of this scan; the progress stream has one frame for each check that ran, in order,
    -- counted from one out of all checks, and its "errored" frames are the errors of the outcome.
    -- The drift events are those of the comparison where there is a baseline and the listing is
    -- complete, and none otherwise.
    pub run_scan-Reports :
        (s s' : S) (o : ScanOutcome F) (fs : List EventFrame)
        → run_scan py run w a s ≡ (scanned o fs, s')
        → Reports o fs
    run_scan-Reports s s' o fs h = subst (λ (r : Scan F × S). Ensures r.0) h (run_scan-Ensures s)
