-- ===== src/Checks/Run/Isolation.antt =====
-- A raising check costs the scan only its own findings: the report has each runnable check once.
use mathlib.Core.List.{append_assoc, append-nil}
use agent_perimeter.Prelude.{
  String, ◌≡◌, refl, ◌∙◌, sym, ap, subst, Bool-cases, inl, inr, Option, Bool, true, false, List, [],
  ◌∷◌, ◌++◌,
}
use agent_perimeter.Transport.{Transport}
use agent_perimeter.Json.{Object}
use agent_perimeter.Checks.Registry.{Check}
use agent_perimeter.Checks.Context.{Answer, Channel, direct, unauthorised}
use agent_perimeter.Checks.Run.{
  Program, returns, raises, asks, Ending, passed, raised, CheckOutcome, Report, execute, channel_of,
  run_from, run_checks, book,
}

-- The checks that ran.
abbrev pub ran : {F : Type 0} → List (Check × Ending F) → List Check
ran [] = []
ran ((check, _) ∷ es) = check ∷ ran es

abbrev pub all_found : {F : Type 0} → List (Check × Ending F) → List F
all_found [] = []
all_found ((_, passed found) ∷ es) = found ++ all_found es
all_found ((_, raised _) ∷ es) = all_found es

abbrev pub all_raised : {F : Type 0} → List (Check × Ending F) → List CheckOutcome
all_raised [] = []
all_raised ((_, passed _) ∷ es) = all_raised es
all_raised ((check, raised reason) ∷ es) =
    record { check_id = check.id; reason = reason } ∷ all_raised es

abbrev pub has_passed : {F : Type 0} → Ending F → Bool
has_passed (passed _) = true
has_passed (raised _) = false

abbrev pub all_events : {F : Type 0} → List (Check × Ending F) → List (String × Bool)
all_events [] = []
all_events ((check, ending) ∷ es) = (check.id, has_passed ending) ∷ all_events es

-- The report `r'` is `r` with these endings added.
pub record Adds {F : Type 0} (es : List (Check × Ending F)) (r r' : Report F) : Type 0 where
  pub findings : r'.findings ≡ r.findings ++ all_found es
  pub errored : r'.errored ≡ r.errored ++ all_raised es
  pub events : r'.events ≡ r.events ++ all_events es

Adds-nil : {F : Type 0} (r : Report F) → Adds [] r r
Adds-nil r = record {
  findings = sym (append-nil r.findings);
  errored = sym (append-nil r.errored);
  events = sym (append-nil r.events);
}

Adds-cons :
    {F : Type 0} (check : Check) (ending : Ending F) (es : List (Check × Ending F))
    (r r' : Report F)
    → Adds es (book check ending r) r'
    → Adds ((check, ending) ∷ es) r r'
Adds-cons check (passed found) es r r' h = record {
  findings = h.findings ∙ append_assoc r.findings found (all_found es);
  errored = h.errored;
  events = h.events ∙ append_assoc r.events ((check.id, true) ∷ []) (all_events es);
}
Adds-cons check (raised reason) es r r' h = record {
  findings = h.findings;
  errored =
      h.errored
      ∙ append_assoc r.errored (record { check_id = check.id; reason = reason } ∷ [])
          (all_raised es);
  events = h.events ∙ append_assoc r.events ((check.id, false) ∷ []) (all_events es);
}

-- How a program ends over a channel, from one state of the server to another: as it says, after
-- the answers that it asks for.
pub data Ends {F S : Type 0} (channel : Channel S) : Program F → S → Ending F → S → Type 0 where
  returned : {found : List F} {s : S} → Ends channel (returns found) s (passed found) s
  raising : {reason : String} {s : S} → Ends channel (raises reason) s (raised reason) s
  asked :
      {method : String} {params : Option Object} {rest : Answer → Program F} {s s' s'' : S}
      {answer : Answer} {ending : Ending F}
      → channel method params s ≡ (answer, s')
      → Ends channel (rest answer) s' ending s''
      → Ends channel (asks method params rest) s ending s''

execute-Ends :
    {F S : Type 0} (channel : Channel S) (p : Program F) (s : S)
    → Ends channel p s (execute channel p s).0 (execute channel p s).1
unfolding execute
execute-Ends channel (returns found) s = returned
execute-Ends channel (raises reason) s = raising
execute-Ends channel (asks method params rest) s =
    asked refl (execute-Ends channel (rest (channel method params s).0) (channel method params s).1)

module _ {F S : Type 0} (run : Check → Program F) (t : Transport S) where
  -- How the checks end, one after the other. A check that requires authorisation has the
  -- transport itself.
  pub data AllEnd : List Check → S → List (Check × Ending F) → S → Type 0 where
    finished : {s : S} → AllEnd [] s [] s
    cleared :
        {check : Check} {checks : List Check} {s s' s'' : S} {ending : Ending F}
        {es : List (Check × Ending F)}
        → check.requires_auth ≡ true
        → Ends (direct t) (run check) s ending s'
        → AllEnd checks s' es s''
        → AllEnd (check ∷ checks) s ((check, ending) ∷ es) s''
    held_back :
        {check : Check} {checks : List Check} {s s' s'' : S} {ending : Ending F}
        {es : List (Check × Ending F)}
        → check.requires_auth ≡ false
        → Ends (unauthorised t) (run check) s ending s'
        → AllEnd checks s' es s''
        → AllEnd (check ∷ checks) s ((check, ending) ∷ es) s''

  -- How each check ends, in turn, each from the server's state after the ones before it.
  abbrev pub endings : List Check → S → List (Check × Ending F)
  endings [] s = []
  endings (check ∷ runnable) s =
      let (ending, s') = execute (channel_of t check) (run check) s in
      (check, ending) ∷ endings runnable s'

  run_from-Adds :
      (runnable : List Check) (r : Report F) (s : S)
      → Adds (endings runnable s) r (run_from run t runnable r s).0
  unfolding run_from
  run_from-Adds [] r s = Adds-nil r
  run_from-Adds (check ∷ runnable) r s =
      let (ending, s') = execute (channel_of t check) (run check) s in
      Adds-cons check ending (endings runnable s') r _
        (run_from-Adds runnable (book check ending r) s')

  run_from-AllEnd :
      (runnable : List Check) (r : Report F) (s : S)
      → AllEnd runnable s (endings runnable s) (run_from run t runnable r s).1
  unfolding run_from
  run_from-AllEnd [] r s = finished
  run_from-AllEnd (check ∷ runnable) r s =
      let channel : Channel S = channel_of t check in
      let (ending, s') = execute channel (run check) s in
      let ended = execute-Ends channel (run check) s in
      let rest = run_from-AllEnd runnable (book check ending r) s' in
      elim (Bool-cases check.requires_auth) [
        | inl active ↦
            let same : channel_of t check ≡ direct t = rw (active, channel_of) refl in
            cleared active (subst (λ (c : Channel S). Ends c (run check) s ending s') same ended)
              rest
        | inr quiet ↦
            let same : channel_of t check ≡ unauthorised t = rw (quiet, channel_of) refl in
            held_back quiet (subst (λ (c : Channel S). Ends c (run check) s ending s') same ended)
              rest
      ]

  -- The runnable checks end one after the other, in order and each from the server's state after
  -- those before it, as their own programs end over the transport or, without authorisation, over
  -- the held back one: a program that returns passes and one that raises is recorded. The report
  -- has exactly the findings of those that returned, an error for each that raised, and an event
  -- for each check.
  pub run_checks-Adds :
      (runnable : List Check) (s : S)
      → let (report, s') = run_checks run t runnable s in
        (es : List (Check × Ending F)) × AllEnd runnable s es s'
        × (report.findings ≡ all_found es)
        × (report.errored ≡ all_raised es)
        × (report.events ≡ all_events es)
  unfolding run_checks
  run_checks-Adds runnable s =
      let empty : Report F = record { findings = []; errored = []; events = [] } in
      let h = run_from-Adds runnable empty s in
      (endings runnable s, run_from-AllEnd runnable empty s, h.findings, h.errored, h.events)

  -- The checks that end are those that were to run.
  pub ran-AllEnd :
      {runnable : List Check} {s s' : S} {es : List (Check × Ending F)}
      → AllEnd runnable s es s'
      → ran es ≡ runnable
  ran-AllEnd finished = refl
  ran-AllEnd (cleared {check} active ended rest) = ap (λ cs. check ∷ cs) (ran-AllEnd rest)
  ran-AllEnd (held_back {check} quiet ended rest) = ap (λ cs. check ∷ cs) (ran-AllEnd rest)
