-- ===== src/Checks/Run.antt =====
-- agent_perimeter/checks/all_checks.py: `run_checks`. A check's `run` is any program over its
-- transport: it may ask, look at each answer, and end with findings or raise.
pub mod Passive
pub mod Isolation
use agent_perimeter.Prelude.{
  ℕ, String, Bool, true, false, Option, none, some, List, [], ◌∷◌, ◌++◌, if◌then◌else◌,
}
use agent_perimeter.Json.{Object}
use agent_perimeter.Transport.{Transport}
use agent_perimeter.Checks.Registry.{Check}
use agent_perimeter.Checks.Context.{Answer, Channel, direct, unauthorised}

pub data Program (F : Type 0) : Type 0 where
  returns : List F → Program F
  raises : String → Program F
  asks : String → Option Object → (Answer → Program F) → Program F

-- How a check ended.
pub data Ending (F : Type 0) : Type 0 where
  passed : List F → Ending F
  raised : String → Ending F

pub record CheckOutcome : Type 0 where
  pub check_id : String
  pub reason : String

-- The findings and the errors so far, and the `on_check` calls, oldest first: true for "passed".
pub record Report (F : Type 0) : Type 0 where
  pub findings : List F
  pub errored : List CheckOutcome
  pub events : List (String × Bool)

-- `check_context`
abbrev pub channel_of : {S : Type 0} → Transport S → Check → Channel S
channel_of t check = if check.requires_auth then direct t else unauthorised t

-- The `try`, the `except` and the callback.
abbrev pub book : {F : Type 0} → Check → Ending F → Report F → Report F
book check (passed found) r = record {
  findings = r.findings ++ found;
  errored = r.errored;
  events = r.events ++ (check.id, true) ∷ [];
}
book check (raised reason) r = record {
  findings = r.findings;
  errored = r.errored ++ record { check_id = check.id; reason = reason } ∷ [];
  events = r.events ++ (check.id, false) ∷ [];
}

module _ {F S : Type 0} where
  unfoldable pub execute : Channel S → Program F → S → Ending F × S
  execute channel (returns found) s = (passed found, s)
  execute channel (raises reason) s = (raised reason, s)
  execute channel (asks method params rest) s =
      let (answer, s') = channel method params s in execute channel (rest answer) s'

  module _ (run : Check → Program F) (t : Transport S) where
    unfoldable pub run_from : List Check → Report F → S → Report F × S
    run_from [] r s = (r, s)
    run_from (check ∷ runnable) r s =
        let (ending, s') = execute (channel_of t check) (run check) s in
        run_from runnable (book check ending r) s'

    unfoldable pub run_checks : List Check → S → Report F × S
    run_checks runnable s =
        run_from runnable (record { findings = []; errored = []; events = [] }) s
