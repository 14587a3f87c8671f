-- ===== src/Eval.antt =====
-- agent_perimeter/eval: the scores of the checks over a labelled corpus.
pub mod Score
mod Tests
