-- ===== src/Eval/Score.antt =====
-- agent_perimeter/eval/score.py. A set is a list; a ratio is its two counts.
pub mod Counts
use agent_perimeter.Prelude.{
  ℕ, zero, suc, ◌+◌, String, Bool, true, false, Option, none, some, List, [], ◌∷◌, ◌++◌, map,
  contains, Table, lookup, get_or, sorted, ◌==◌, string_eq, if◌then◌else◌,
}
use agent_perimeter.Checks.Registry.{text_le}

-- The fields of `CorpusCase` that are read.
pub record CorpusCase : Type 0 where
  pub id : String
  pub expect_findings : List String
  pub expect_clean : List String

pub record CheckScore : Type 0 where
  pub check_id : String
  pub tp : ℕ
  pub fp : ℕ
  pub fn : ℕ
  pub precision : Option (ℕ × ℕ)
  pub recall : Option (ℕ × ℕ)
  pub n : ℕ

-- The loop's counters.
pub record Tally : Type 0 where
  pub tp : ℕ
  pub fp : ℕ
  pub fn : ℕ
  pub n : ℕ

abbrev pub no_tally : Tally
no_tally = record { tp = 0; fp = 0; fn = 0; n = 0 }

abbrev pub Observed : Type 0
Observed = Table String (List String)

-- `check_id in observed.get(case.id, set())`
abbrev pub fired : Observed → String → CorpusCase → Bool
fired observed check_id case = contains check_id (get_or (lookup case.id observed) [])

-- The body of the loop over the cases.
abbrev pub count_case : Bool → Bool → Tally → Tally
count_case true true t = record t { n = t.n + 1; tp = t.tp + 1 }
count_case true false t = record t { n = t.n + 1; fn = t.fn + 1 }
count_case false true t = record t { n = t.n + 1; fp = t.fp + 1 }
count_case false false t = record t { n = t.n + 1 }

unfoldable pub count_cases : Observed → String → List CorpusCase → Tally → Tally
count_cases observed check_id [] t = t
count_cases observed check_id (case ∷ cases) t =
    count_cases observed check_id cases
      (count_case (contains check_id case.expect_findings) (fired observed check_id case) t)

-- `a / b if b else None`
abbrev pub ratio : ℕ → ℕ → Option (ℕ × ℕ)
ratio a zero = none
ratio a (suc b) = some (a, suc b)

unfoldable pub score_check : Observed → List CorpusCase → String → CheckScore
score_check observed cases check_id =
    let t = count_cases observed check_id cases no_tally in
    record {
      check_id = check_id;
      tp = t.tp;
      fp = t.fp;
      fn = t.fn;
      precision = ratio t.tp (t.tp + t.fp);
      recall = ratio t.tp (t.tp + t.fn);
      n = t.n;
    }

-- `set.update`
abbrev pub update : List String → List String → List String
update seen [] = seen
update seen (i ∷ ids) = update (if contains i seen then seen else i ∷ seen) ids

abbrev pub case_ids : List CorpusCase → List String → List String
case_ids [] seen = seen
case_ids (case ∷ cases) seen =
    case_ids cases (update (update seen case.expect_findings) case.expect_clean)

abbrev pub fired_ids : Observed → List String → List String
fired_ids [] seen = seen
fired_ids ((_, ids) ∷ observed) seen = fired_ids observed (update seen ids)

unfoldable pub all_ids : Observed → List CorpusCase → List String
all_ids observed cases = fired_ids observed (case_ids cases [])

unfoldable pub score : Observed → List CorpusCase → List CheckScore
score observed cases = map (score_check observed cases) (sorted text_le (all_ids observed cases))
