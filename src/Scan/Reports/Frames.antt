-- ===== src/Scan/Reports/Frames.antt =====
-- The frames of a progress stream, and how many checks a split accounts for.
use agent_perimeter.Prelude.{
  ℕ, zero, suc, ◌+◌, String, ◌≡◌, refl, ap, Bool, List, [], ◌∷◌, map, All, filter, length, arith,
  ◌==◌, string_eq,
}
use agent_perimeter.Checks.Registry.{Check, Situation, Skipped}
use agent_perimeter.Checks.Registry.Gate.{Split, done, runs, skips}
use agent_perimeter.Checks.Run.{Ending, passed, raised, CheckOutcome}
use agent_perimeter.Checks.Run.Isolation.{ran, all_raised, all_events}
use agent_perimeter.Scan.Setup.{progress_frames}
use agent_perimeter.Api.Events.{EventFrame}

abbrev pub frame_id : EventFrame → String
frame_id f = f.check_id

abbrev pub frame_completed : EventFrame → ℕ
frame_completed f = f.completed

abbrev pub check_id_of : Check → String
check_id_of c = c.id

abbrev pub outcome_id : CheckOutcome → String
outcome_id o = o.check_id

abbrev pub did_error : EventFrame → Bool
did_error f = f.status == "errored"

-- `n`, `n + 1`, and so on.
abbrev pub counting_from : ℕ → ℕ → List ℕ
counting_from n zero = []
counting_from n (suc k) = n ∷ counting_from (n + 1) k

pub Split-length :
    {s : Situation} {checks runnable : List Check} {skipped : List Skipped}
    → Split s checks runnable skipped
    → length runnable + length skipped ≡ length checks
Split-length done = refl
Split-length (runs check r rest) = omega (arith, Split-length rest)
Split-length (skips check why n same holds rest) = omega (arith, Split-length rest)

pub length-all_events :
    {F : Type 0} (es : List (Check × Ending F)) → length (all_events es) ≡ length (ran es)
length-all_events [] = refl
length-all_events ((check, ending) ∷ es) = ap suc (length-all_events es)

module _ (elapsed_ms : ℕ → ℕ) (total : ℕ) where
  pub progress_frames-totals :
      (n : ℕ) (es : List (String × Bool))
      → All (λ (f : EventFrame). f.total ≡ total) (progress_frames elapsed_ms total n es)
  unfolding progress_frames
  progress_frames-totals n [] = tt
  progress_frames-totals n ((id, status) ∷ es) = (refl, progress_frames-totals (n + 1) es)

  pub progress_frames-counts :
      (n : ℕ) (es : List (String × Bool))
      → map frame_completed (progress_frames elapsed_ms total n es)
        ≡ counting_from (n + 1) (length es)
  unfolding progress_frames
  progress_frames-counts n [] = refl
  progress_frames-counts n ((id, status) ∷ es) =
      ap (λ (l : List ℕ). (n + 1) ∷ l) (progress_frames-counts (n + 1) es)

  module _ {F : Type 0} where
    pub progress_frames-ids :
        (n : ℕ) (es : List (Check × Ending F))
        → map frame_id (progress_frames elapsed_ms total n (all_events es))
          ≡ map check_id_of (ran es)
    unfolding progress_frames
    progress_frames-ids n [] = refl
    progress_frames-ids n ((check, ending) ∷ es) =
        ap (λ (l : List String). check.id ∷ l) (progress_frames-ids (n + 1) es)

    pub progress_frames-errors :
        (n : ℕ) (es : List (Check × Ending F))
        → map frame_id (filter did_error (progress_frames elapsed_ms total n (all_events es)))
          ≡ map outcome_id (all_raised es)
    unfolding progress_frames
    progress_frames-errors n [] = refl
    progress_frames-errors n ((check, passed found) ∷ es) = progress_frames-errors (n + 1) es
    progress_frames-errors n ((check, raised reason) ∷ es) =
        ap (λ (l : List String). check.id ∷ l) (progress_frames-errors (n + 1) es)
