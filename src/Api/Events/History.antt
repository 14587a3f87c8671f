-- ===== src/Api/Events/History.antt =====
-- What the log says of a scan is its own part of the history.
use agent_perimeter.Prelude.{
  ◌≡◌, refl, ap, sym, ◌∙◌, String, Bool, true, false, Option, none, some, List, [], ◌∷◌, ◌++◌,
  lookup, lookup-insert, get_or, ◌==◌, string_eq, eq_iff, append_nil, if◌then◌else◌, arith,
  Bool-cases, inl, inr,
}
use agent_perimeter.Api.Events.{
  EventFrame, Terminal, Frame, progress, terminal, EventLog, empty_log, put, frames_or_none,
  start_scan, append_frame, finish_scan, frames, is_done,
}

-- One call of the log, of a scan.
pub data Call : Type 0 where
  starts : Call
  appends : EventFrame → Call
  finishes : Terminal → Call

abbrev pub perform : String × Call → EventLog → EventLog
perform (scan_id, starts) log = start_scan scan_id log
perform (scan_id, appends frame) log = append_frame scan_id frame log
perform (scan_id, finishes end_) log = finish_scan scan_id end_ log

abbrev pub perform_all : List (String × Call) → EventLog → EventLog
perform_all [] log = log
perform_all (c ∷ cs) log = perform_all cs (perform c log)

-- The frame that a call adds.
abbrev pub added : Call → List Frame
added starts = []
added (appends frame) = progress frame ∷ []
added (finishes end_) = terminal end_ ∷ []

-- What a history says of one scan: its frames in order, none before its first call.
abbrev pub told_frames : String → Option (List Frame) → List (String × Call) → Option (List Frame)
told_frames scan_id before [] = before
told_frames scan_id before ((i, call) ∷ cs) =
    told_frames scan_id (if scan_id == i then some (get_or before [] ++ added call) else before) cs

abbrev pub done_after : Call → Bool → Bool
done_after starts before = false
done_after (appends frame) before = before
done_after (finishes end_) before = true

-- Whether its last call but for the appending ones was the finishing one.
abbrev pub told_done : String → Bool → List (String × Call) → Bool
told_done scan_id before [] = before
told_done scan_id before ((i, call) ∷ cs) =
    told_done scan_id (if scan_id == i then done_after call before else before) cs

frames-put :
    (scan_id i : String) (fs : List Frame) (log : EventLog)
    → lookup scan_id (put i (frames_or_none i log ++ fs) log).logged ≡ (
        if scan_id == i
        then some (get_or (lookup scan_id log.logged) [] ++ fs)
        else lookup scan_id log.logged)
frames-put scan_id i fs log =
    lookup-insert i scan_id (frames_or_none i log ++ fs) log.logged
    ∙ elim (Bool-cases (scan_id == i)) [
      | inl same ↦ rw same (
          ap (λ (x : String). some (get_or (lookup x log.logged) [] ++ fs))
            (sym ((eq_iff scan_id i).0 same)))
      | inr other ↦ rw other refl
    ]

frames-perform :
    (scan_id i : String) (call : Call) (log : EventLog)
    → frames scan_id (perform (i, call) log) ≡ (
        if scan_id == i
        then some (get_or (frames scan_id log) [] ++ added call)
        else frames scan_id log)
unfolding frames start_scan append_frame finish_scan
frames-perform scan_id i starts log =
    ap (λ (fs : List Frame). lookup scan_id (put i fs log).logged)
      (sym (append_nil (frames_or_none i log)))
    ∙ frames-put scan_id i [] log
frames-perform scan_id i (appends frame) log = frames-put scan_id i (progress frame ∷ []) log
frames-perform scan_id i (finishes end_) log = frames-put scan_id i (terminal end_ ∷ []) log

done-perform :
    (scan_id i : String) (call : Call) (log : EventLog)
    → is_done scan_id (perform (i, call) log)
      ≡ (if scan_id == i then done_after call (is_done scan_id log) else is_done scan_id log)
unfolding is_done start_scan append_frame finish_scan
done-perform scan_id i starts log =
    ap (λ (o : Option Bool). get_or o false) (lookup-insert i scan_id false log.done) ∙ ground arith
done-perform scan_id i (appends frame) log = ground arith
done-perform scan_id i (finishes end_) log =
    ap (λ (o : Option Bool). get_or o false) (lookup-insert i scan_id true log.done) ∙ ground arith

frames-perform_all :
    (scan_id : String) (cs : List (String × Call)) (log : EventLog)
    → frames scan_id (perform_all cs log) ≡ told_frames scan_id (frames scan_id log) cs
frames-perform_all scan_id [] log = refl
frames-perform_all scan_id ((i, call) ∷ cs) log =
    frames-perform_all scan_id cs (perform (i, call) log)
    ∙ ap (λ (o : Option (List Frame)). told_frames scan_id o cs) (frames-perform scan_id i call log)

done-perform_all :
    (scan_id : String) (cs : List (String × Call)) (log : EventLog)
    → is_done scan_id (perform_all cs log) ≡ told_done scan_id (is_done scan_id log) cs
done-perform_all scan_id [] log = refl
done-perform_all scan_id ((i, call) ∷ cs) log =
    done-perform_all scan_id cs (perform (i, call) log)
    ∙ ap (λ (b : Bool). told_done scan_id b cs) (done-perform scan_id i call log)

-- After any history of calls, of however many scans, what the log says of one scan is what the
-- scan's own calls say: none before its first call, then the frames of its calls in their order; and
-- it is done where it was finished after it was last started.
pub perform_all-tells :
    (cs : List (String × Call)) (scan_id : String)
    → (frames scan_id (perform_all cs empty_log) ≡ told_frames scan_id none cs)
      × (is_done scan_id (perform_all cs empty_log) ≡ told_done scan_id false cs)
unfolding frames is_done
perform_all-tells cs scan_id =
    (frames-perform_all scan_id cs empty_log, done-perform_all scan_id cs empty_log)
