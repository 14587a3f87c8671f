-- ===== src/Scan/Cases.antt =====
-- The ways through `run_scan`.
use agent_perimeter.Prelude.{◌≡◌, inl, inr, none, some, Bool-cases, Option-cases}
use agent_perimeter.Model.Scope.{Refusal}
use agent_perimeter.Checks.Registry.{Check}
use agent_perimeter.Checks.Run.{Program}
use agent_perimeter.Scan.Setup.{
  Endpoint, World, Python, Arguments, ScanContext, Scan, other_baseline, refused, no_transport,
  build_transport, baseline_differs, scan_gate,
}
use agent_perimeter.Scan.Runner.{connected, open_and_scan, run_scan}

module _ (py : Python) (a : Arguments) {F S : Type 0} (run : ScanContext → Check → Program F)
    (w : World S) (s : S) where
  abbrev pub Built : Endpoint → Type 0
  Built e = build_transport py.shlex_split a.contact a.target a.image a.env ≡ some e

  -- The scan, once the transport was opened.
  abbrev pub opened : Endpoint → Scan F × S
  opened e = let (result, s') = connected py run w a e (w.connect e s).1 in (result, w.close s')

  -- What holds of a scan that stops before its transport opens, and of one that goes on from
  -- there, holds of every scan.
  pub run_scan-cases :
      (Q : Scan F × S → Type 0)
      → Q (other_baseline, s)
      → ((refusal : Refusal) → Q (refused refusal, s))
      → Q (no_transport, s)
      → ((e : Endpoint) → Built e → scan_gate a ≡ none → Q (no_transport, (w.connect e s).1))
      → ((e : Endpoint) → Built e → scan_gate a ≡ none → Q (opened e))
      → Q (run_scan py run w a s)
  unfolding run_scan open_and_scan
  run_scan-cases Q other refuses unbuilt down up = elim (Bool-cases (baseline_differs a)) [
    | inl differs ↦ rw (differs, run_scan) other
    | inr fits ↦ elim (Option-cases (scan_gate a)) [
      | inr (refusal, stops) ↦ rw (fits, stops, run_scan) (refuses refusal)
      | inl passes ↦
          elim (Option-cases (build_transport py.shlex_split a.contact a.target a.image a.env)) [
            | inl bad ↦ rw (fits, passes, bad, run_scan, open_and_scan) unbuilt
            | inr (e, built) ↦ elim (Bool-cases (w.connect e s).0) [
              | inl opens ↦
                  rw (fits, passes, built, opens, run_scan, open_and_scan) (up e built passes)
              | inr fails ↦
                  rw (fits, passes, built, fails, run_scan, open_and_scan) (down e built passes)
            ]
          ]
    ]
  ]
