-- ===== src/Checks/Run/Passive.antt =====
-- No active request leaves the scanner without authorisation, whatever the checks do.
use agent_perimeter.Prelude.{
  String, ◌≡◌, true, false, not, ◌||◌, Option, List, [], ◌∷◌, contains, All, All-append, string_eq,
  arith, Bool-cases, inl, inr,
}
use agent_perimeter.Json.{Object}
use agent_perimeter.Transport.{Transport, Request, recording, has_header_override}
use agent_perimeter.Model.Scope.{Authorises}
use agent_perimeter.Checks.Registry.{Check, Situation, Skipped, applicable}
use agent_perimeter.Checks.Registry.Gate.{Split, done, runs, skips, applicable-Split}
use agent_perimeter.Checks.Context.{passive_methods, unauthorised}
use agent_perimeter.Checks.Run.{
  Program, returns, raises, asks, Report, execute, channel_of, run_from, run_checks, book,
}

-- Pure observation: a method of the allowlist, without the probe param.
pub record IsPassive (r : Request) : Type 0 where
  pub listed : contains r.method passive_methods ≡ true
  pub plain : has_header_override r.params ≡ false

module _ {S : Type 0} (t : Transport S) where
  unauthorised-IsPassive :
      (method : String) (params : Option Object) (s : S × List Request)
      → All IsPassive s.1
      → All IsPassive (unauthorised (recording t) method params s).1.1
  unfolding unauthorised
  unauthorised-IsPassive method params s h =
      elim (Bool-cases (not (contains method passive_methods) || has_header_override params)) [
        | inl e ↦ rw (e, unauthorised) h
        | inr e ↦
            rw (e, unauthorised)
              (All-append IsPassive s.1 _ h
                (record { listed = ground arith; plain = ground arith }, tt))
      ]

  module _ {F : Type 0} where
    execute-IsPassive :
        (p : Program F) (s : S × List Request)
        → All IsPassive s.1
        → All IsPassive (execute (unauthorised (recording t)) p s).1.1
    unfolding execute
    execute-IsPassive (returns found) s h = h
    execute-IsPassive (raises reason) s h = h
    execute-IsPassive (asks method params rest) s h =
        let (answer, s') = unauthorised (recording t) method params s in
        execute-IsPassive (rest answer) s' (unauthorised-IsPassive method params s h)

    module _ (run : Check → Program F) where
      check-IsPassive :
          (check : Check) (s : S × List Request)
          → check.requires_auth ≡ false
          → All IsPassive s.1
          → All IsPassive (execute (channel_of (recording t) check) (run check) s).1.1
      check-IsPassive check s quiet h = simp quiet (execute-IsPassive (run check) s h)

      run_from-IsPassive :
          (runnable : List Check) (r : Report F) (s : S × List Request)
          → All (λ c. c.requires_auth ≡ false) runnable
          → All IsPassive s.1
          → All IsPassive (run_from run (recording t) runnable r s).1.1
      unfolding run_from
      run_from-IsPassive [] r s quiet h = h
      run_from-IsPassive (check ∷ runnable) r s quiet h =
          let (ending, s') = execute (channel_of (recording t) check) (run check) s in
          run_from-IsPassive runnable (book check ending r) s' quiet.1
            (check-IsPassive check s quiet.0 h)

-- Without authorisation no check that needs it is runnable.
Split-quiet :
    {s : Situation} {checks runnable : List Check} {skipped : List Skipped}
    → ¬ Authorises s.scope s.target s.today
    → Split s checks runnable skipped
    → All (λ c. c.requires_auth ≡ false) runnable
Split-quiet no_scope done = tt
Split-quiet no_scope (runs check r rest) = (
  elim (Bool-cases check.requires_auth) [
    | inl active ↦ absurd (no_scope (r.authorised active))
    | inr quiet ↦ quiet
  ],
  Split-quiet no_scope rest,
)
Split-quiet no_scope (skips check why not_run same holds rest) = Split-quiet no_scope rest

-- Where no scope file authorises the target today, the checks that `applicable` lets through send
-- nothing but passive requests, whatever their own code asks for and however the server answers.
pub run_checks-IsPassive :
    {F S : Type 0} (run : Check → Program F) (t : Transport S) (s : Situation) (checks : List Check)
    (server : S)
    → ¬ Authorises s.scope s.target s.today
    → All IsPassive (run_checks run (recording t) (applicable s checks).0 (server, [])).1.1
unfolding run_checks
run_checks-IsPassive run t s checks server no_scope =
    run_from-IsPassive t run (applicable s checks).0
      (record { findings = []; errored = []; events = [] }) (server, [])
      (Split-quiet no_scope (applicable-Split s checks)) tt
