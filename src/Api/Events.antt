-- ===== src/Api/Events.antt =====
-- agent_perimeter/api/events.py: the log of each scan's progress. Its lock makes each operation one
-- step, so that a history is a list of operations.
pub mod History
use agent_perimeter.Prelude.{
  ℕ, String, Bool, true, false, Option, none, some, List, [], ◌∷◌, ◌++◌, Table, lookup, insert,
  get_or, ◌==◌, string_eq, if◌then◌else◌,
}
use agent_perimeter.Checks.Registry.{Skipped}

-- The terminal frame's content.
pub record Terminal : Type 0 where
  pub completed : ℕ
  pub total : ℕ
  pub skipped : List Skipped
  pub notes : List String

pub record EventFrame : Type 0 where
  pub check_id : String
  pub status : String
  pub elapsed_ms : ℕ
  pub phase : String
  pub completed : ℕ
  pub total : ℕ

pub data Frame : Type 0 where
  progress : EventFrame → Frame
  terminal : Terminal → Frame

pub record EventLog : Type 0 where
  pub logged : Table String (List Frame)
  pub done : Table String Bool

abbrev pub empty_log : EventLog
empty_log = record { logged = []; done = [] }

-- `self._frames.setdefault(scan_id, [])`
abbrev pub frames_or_none : String → EventLog → List Frame
frames_or_none scan_id log = get_or (lookup scan_id log.logged) []

abbrev pub put : String → List Frame → EventLog → EventLog
put scan_id fs log = record log { logged = insert scan_id fs log.logged }

unfoldable pub start_scan : String → EventLog → EventLog
start_scan scan_id log = record (put scan_id (frames_or_none scan_id log) log) {
  done = insert scan_id false log.done;
}

unfoldable pub append_frame : String → EventFrame → EventLog → EventLog
append_frame scan_id frame log = put scan_id (frames_or_none scan_id log ++ progress frame ∷ []) log

unfoldable pub finish_scan : String → Terminal → EventLog → EventLog
finish_scan scan_id end_ log =
    record (put scan_id (frames_or_none scan_id log ++ terminal end_ ∷ []) log) {
      done = insert scan_id true log.done;
    }

unfoldable pub frames : String → EventLog → Option (List Frame)
frames scan_id log = lookup scan_id log.logged

unfoldable pub is_done : String → EventLog → Bool
is_done scan_id log = get_or (lookup scan_id log.done) false
