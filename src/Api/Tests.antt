-- ===== src/Api/Tests.antt =====
-- A history of two scans.
use agent_perimeter.Prelude.{◌≡◌, refl, String, false, none, some, List, [], ◌∷◌}
use agent_perimeter.Api.Events.{
  EventFrame, progress, terminal, empty_log, frames, is_done, start_scan, append_frame, finish_scan,
}
use agent_perimeter.Api.Events.History.{
  Call, starts, appends, finishes, perform_all, told_frames, told_done, perform_all-tells,
}

abbrev frame : EventFrame
frame = record {
  check_id = "static.auth_mode";
  status = "passed";
  elapsed_ms = 3;
  phase = "static";
  completed = 1;
  total = 1;
}

abbrev history : List (String × Call)
history =
    ("a", starts)
    ∷ ("b", starts)
    ∷ ("a", appends frame)
    ∷ ("a", finishes (record { completed = 1; total = 1; skipped = []; notes = [] }))
    ∷ []

a-frames :
    frames "a" (perform_all history empty_log)
    ≡ some (
        progress frame
        ∷ terminal (record { completed = 1; total = 1; skipped = []; notes = [] })
        ∷ [])
unfolding frames start_scan append_frame finish_scan
a-frames = refl

perform_all-tells_example :
    (frames "b" (perform_all history empty_log) ≡ told_frames "b" none history)
    × (is_done "b" (perform_all history empty_log) ≡ told_done "b" false history)
perform_all-tells_example = perform_all-tells history "b"
