-- ===== src/Action/Gate.antt =====
-- When the outputs of the action say that nothing drifted.
use agent_perimeter.Prelude.{
  ℤ, pos, ◌≡◌, refl, ap, sym, ◌∙◌, All, ◌↔◌, Bool, true, false, Option, none, some, List, ◌==◌,
  int_eq, arith, Option-cases, Bool-cases, inl, inr,
}
use agent_perimeter.Json.{Value, Object}
use agent_perimeter.Action.{Inputs}
use agent_perimeter.Action.Sarif.{
  ResultsOf, IsNoDrift, IsSelected, drift_selected_iff, any_drift-All, All-any_drift,
  ResultsOf-sarif_results, sarif_results-ResultsOf,
}
use agent_perimeter.Action.Verdict.{
  DriftVerdict, unchanged, sarif_results, any_drift, drift_selected, drift_verdict, verdict_of,
  Outputs, settled_code, outputs_of,
}

-- The scan was compared with a baseline, and its SARIF was read and has no drift: stated of the
-- inputs and the SARIF themselves.
pub record WasCompared (inputs : Inputs) (first_run : Bool) (rc : ℤ) (sarif : Option Object)
    : Type 0 where
  pub gated : first_run ≡ false
  pub clean : rc ≡ pos 0
  pub selected : IsSelected inputs
  pub log : Object
  pub written : sarif ≡ some log
  pub results : List Value
  pub read : ResultsOf log results
  pub undrifted : All IsNoDrift results

settled_code-clean :
    (rc : ℤ) (sarif : Option Object)
    → (settled_code rc sarif == pos 0) ≡ true
    → (rc ≡ pos 0) × ((log : Object) × (sarif ≡ some log))
settled_code-clean rc none h = elim (Bool-cases (rc == pos 0)) [
  | inl zero_code ↦ absurd (cc (rw (zero_code, settled_code) at h))
  | inr other ↦ absurd (cc (other, rw (other, settled_code) at h))
]
settled_code-clean rc (some s) h = ((int_eq.equal_iff rc (pos 0)).0 (ground arith), (s, refl))

clean-settled_code :
    (rc : ℤ) (sarif : Option Object)
    → rc ≡ pos 0
    → (log : Object) → sarif ≡ some log
    → settled_code rc sarif ≡ pos 0
clean-settled_code rc none e log written = absurd (cc (written))
clean-settled_code rc (some s) e log written = rw (e, settled_code) refl

verdict_of-unchanged :
    (found : Bool) (rc : ℤ) (selected : Bool)
    → verdict_of found rc selected ≡ unchanged
    → (found ≡ false) × ((rc == pos 0) ≡ true) × (selected ≡ true)
verdict_of-unchanged found rc selected h = ground arith

abbrev drift_in : Option Outputs → Option DriftVerdict
drift_in none = none
drift_in (some o) = some o.drift

module _ (inputs : Inputs) (first_run : Bool) (rc : ℤ) (sarif : Option Object) where
  abbrev verdict : Option DriftVerdict
  verdict = drift_verdict sarif first_run (settled_code rc sarif) (drift_selected inputs)

  outputs_of-verdict :
      (o : Outputs) → outputs_of inputs first_run rc sarif ≡ some o → verdict ≡ some o.drift
  unfolding outputs_of
  outputs_of-verdict o h = elim (Option-cases verdict) [
    | inl raises ↦ absurd (cc (rw (raises, outputs_of) at h))
    | inr (v, e) ↦ elim (Option-cases (sarif_results sarif)) [
      | inl raises ↦ absurd (cc (rw (e, raises, outputs_of) at h))
      | inr (results, read) ↦ e ∙ ap drift_in (rw (e, read, outputs_of) at h)
    ]
  ]

  unchanged-WasCompared : verdict ≡ some unchanged → WasCompared inputs first_run rc sarif
  unfolding drift_verdict
  unchanged-WasCompared h = elim (Bool-cases first_run) [
    | inl first ↦ absurd (cc (rw (first, drift_verdict) at h))
    | inr gated ↦ elim (Option-cases (sarif_results sarif)) [
      | inl raises ↦ absurd (cc (rw (gated, raises, drift_verdict) at h))
      | inr (results, read) ↦ elim (Option-cases (any_drift results)) [
        | inl raises ↦ absurd (cc (rw (gated, read, raises, drift_verdict) at h))
        | inr (found, e) ↦
            let (none_found, clean, selected) =
              verdict_of-unchanged found (settled_code rc sarif) (drift_selected inputs)
                (cc (rw (gated, read, e, drift_verdict) at h)) in
            let (zero_code, (log, written)) = settled_code-clean rc sarif clean in
            let clean_results : any_drift results ≡ some false = e ∙ ap some none_found in
            record {
              gated = gated;
              clean = zero_code;
              selected = (drift_selected_iff inputs).0 selected;
              log = log;
              written = written;
              results = results;
              read =
                  sarif_results-ResultsOf log results (ap sarif_results (sym written) ∙ read)
                    clean_results;
              undrifted = any_drift-All results clean_results;
            }
      ]
    ]
  ]

  WasCompared-unchanged : WasCompared inputs first_run rc sarif → verdict ≡ some unchanged
  unfolding drift_verdict
  WasCompared-unchanged w =
      let read : sarif_results sarif ≡ some w.results =
        ap sarif_results w.written ∙ ResultsOf-sarif_results w.log w.results w.read in
      let quiet : any_drift w.results ≡ some false = All-any_drift w.results w.undrifted in
      let code : settled_code rc sarif ≡ pos 0 =
        clean-settled_code rc sarif w.clean w.log w.written in
      let selected : drift_selected inputs ≡ true = (drift_selected_iff inputs).1 w.selected in
      rw (w.gated, read, quiet, code, selected, drift_verdict) refl

  -- Where the action writes its outputs, "drift" is "false" exactly where this was no first run, the
  -- command exited with 0 and left a SARIF, `only` is empty or names the drift check, and each
  -- result of the first run of the SARIF is an object of another rule.
  pub outputs_of-unchanged :
      (o : Outputs)
      → outputs_of inputs first_run rc sarif ≡ some o
      → (o.drift ≡ unchanged) ↔ WasCompared inputs first_run rc sarif
  outputs_of-unchanged o h =
      let e = outputs_of-verdict o h in
      (λ same. unchanged-WasCompared (e ∙ ap some same), λ w. cc (e, WasCompared-unchanged w))
