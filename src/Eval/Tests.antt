-- ===== src/Eval/Tests.antt =====
-- A small corpus.
use agent_perimeter.Prelude.{◌≡◌, refl, some, List, [], ◌∷◌, length}
use agent_perimeter.Eval.Score.{CorpusCase, Observed, fired, score_check, count_cases}
use agent_perimeter.Eval.Score.Counts.{
  IsShare, how_many, is_expected, true_positive, false_positive, score_check-how_many,
}

abbrev corpus : List CorpusCase
corpus =
    record { id = "ssrf"; expect_findings = "active.ssrf" ∷ []; expect_clean = [] }
    ∷ record { id = "clean"; expect_findings = []; expect_clean = "active.ssrf" ∷ [] }
    ∷ []

abbrev observed : Observed
observed = ("ssrf", "active.ssrf" ∷ []) ∷ ("clean", "active.ssrf" ∷ "static.auth_mode" ∷ []) ∷ []

score_check-how_many_example :
    IsShare
      (how_many (true_positive observed "active.ssrf") corpus)
      (how_many (fired observed "active.ssrf") corpus)
      (score_check observed corpus "active.ssrf").precision
    × IsShare
        (how_many (true_positive observed "active.ssrf") corpus)
        (how_many (is_expected observed "active.ssrf") corpus)
        (score_check observed corpus "active.ssrf").recall
    × ((score_check observed corpus "active.ssrf").fp
        ≡ how_many (false_positive observed "active.ssrf") corpus)
    × ((score_check observed corpus "active.ssrf").n ≡ length corpus)
score_check-how_many_example = score_check-how_many observed "active.ssrf" corpus

half : (score_check observed corpus "active.ssrf").precision ≡ some (1, 2)
unfolding score_check count_cases
half = refl
