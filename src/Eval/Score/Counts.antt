-- ===== src/Eval/Score/Counts.antt =====
-- The counts of a score are what they are named for, in the closed world: every case counts.
use agent_perimeter.Prelude.{
  ℕ, zero, suc, ◌+◌, ◌<◌, ◌≡◌, refl, Option, none, some, String, Bool, true, false, not, ◌&&◌, List,
  [], ◌∷◌, filter, length, contains, string_eq, arith, Bool-cases, inl, inr,
}
use agent_perimeter.Eval.Score.{
  CorpusCase, Tally, no_tally, Observed, fired, count_case, count_cases, ratio, score_check,
}

-- What a share of so many among so many is: undefined among none.
pub data IsShare (a b : ℕ) : Option (ℕ × ℕ) → Type 0 where
  undefined : b ≡ 0 → IsShare a b none
  share : 0 < b → IsShare a b (some (a, b))

ratio-IsShare : (a b : ℕ) → IsShare a b (ratio a b)
ratio-IsShare a zero = undefined refl
ratio-IsShare a (suc b) = share (omega arith)

-- How many cases pass a test.
abbrev pub how_many : (CorpusCase → Bool) → List CorpusCase → ℕ
how_many p cases = length (filter p cases)

module _ (observed : Observed) (check_id : String) where
  abbrev pub is_expected : CorpusCase → Bool
  is_expected case = contains check_id case.expect_findings

  abbrev pub true_positive : CorpusCase → Bool
  true_positive case = is_expected case && fired observed check_id case

  abbrev pub false_positive : CorpusCase → Bool
  false_positive case = not (is_expected case) && fired observed check_id case

  abbrev pub false_negative : CorpusCase → Bool
  false_negative case = is_expected case && not (fired observed check_id case)

  count_cases-how_many :
      (cases : List CorpusCase) (t : Tally)
      → let r = count_cases observed check_id cases t in
        (r.tp ≡ t.tp + how_many true_positive cases)
        × (r.fp ≡ t.fp + how_many false_positive cases)
        × (r.fn ≡ t.fn + how_many false_negative cases)
        × (r.n ≡ t.n + length cases)
  unfolding count_cases
  count_cases-how_many [] t = (omega arith, omega arith, omega arith, omega arith)
  count_cases-how_many (case ∷ cases) t = elim (Bool-cases (is_expected case)) [
    | inl expected ↦ elim (Bool-cases (fired observed check_id case)) [
      | inl fires ↦
          let h = count_cases-how_many cases (count_case true true t) in
          simp (expected, fires)
            (omega (arith, h.0), omega (arith, h.1), omega (arith, h.2), omega (arith, h.3))
      | inr silent ↦
          let h = count_cases-how_many cases (count_case true false t) in
          simp (expected, silent)
            (omega (arith, h.0), omega (arith, h.1), omega (arith, h.2), omega (arith, h.3))
    ]
    | inr clean ↦ elim (Bool-cases (fired observed check_id case)) [
      | inl fires ↦
          let h = count_cases-how_many cases (count_case false true t) in
          simp (clean, fires)
            (omega (arith, h.0), omega (arith, h.1), omega (arith, h.2), omega (arith, h.3))
      | inr silent ↦
          let h = count_cases-how_many cases (count_case false false t) in
          simp (clean, silent)
            (omega (arith, h.0), omega (arith, h.1), omega (arith, h.2), omega (arith, h.3))
    ]
  ]

  positives-fired :
      (cases : List CorpusCase)
      → how_many true_positive cases + how_many false_positive cases
        ≡ how_many (fired observed check_id) cases
  positives-fired [] = omega arith
  positives-fired (case ∷ cases) =
      let rest = positives-fired cases in
      elim (Bool-cases (is_expected case)) [
        | inl expected ↦ elim (Bool-cases (fired observed check_id case)) [
          | inl fires ↦ simp (expected, fires) (omega (arith, rest))
          | inr silent ↦ simp (expected, silent) (omega (arith, rest))
        ]
        | inr clean ↦ elim (Bool-cases (fired observed check_id case)) [
          | inl fires ↦ simp (clean, fires) (omega (arith, rest))
          | inr silent ↦ simp (clean, silent) (omega (arith, rest))
        ]
      ]

  positives-expected :
      (cases : List CorpusCase)
      → how_many true_positive cases + how_many false_negative cases ≡ how_many is_expected cases
  positives-expected [] = omega arith
  positives-expected (case ∷ cases) =
      let rest = positives-expected cases in
      elim (Bool-cases (is_expected case)) [
        | inl expected ↦ elim (Bool-cases (fired observed check_id case)) [
          | inl fires ↦ simp (expected, fires) (omega (arith, rest))
          | inr silent ↦ simp (expected, silent) (omega (arith, rest))
        ]
        | inr clean ↦ simp clean (omega (arith, rest))
      ]

  -- A check is scored against every case. Its precision is the share of the cases at which it fired
  -- that expect it, and undefined where it never fired; its recall is the share of the cases that
  -- expect it at which it fired, and undefined where none does. A case that does not name the check
  -- and at which it fires is a false positive.
  pub score_check-how_many :
      (cases : List CorpusCase)
      → let s = score_check observed cases check_id in
        IsShare
          (how_many true_positive cases)
          (how_many (fired observed check_id) cases)
          s.precision
        × IsShare (how_many true_positive cases) (how_many is_expected cases) s.recall
        × (s.fp ≡ how_many false_positive cases)
        × (s.n ≡ length cases)
  unfolding score_check
  score_check-how_many cases =
      let t = count_cases observed check_id cases no_tally in
      let h = count_cases-how_many cases no_tally in
      let named : t.tp + t.fp ≡ how_many (fired observed check_id) cases =
        omega (arith, h.0, h.1, positives-fired cases) in
      let expected : t.tp + t.fn ≡ how_many is_expected cases =
        omega (arith, h.0, h.2, positives-expected cases) in
      let hits : t.tp ≡ how_many true_positive cases = omega (arith, h.0) in
      (
        rw (named, hits) (ratio-IsShare (how_many true_positive cases) _),
        rw (expected, hits) (ratio-IsShare (how_many true_positive cases) _),
        omega (arith, h.1),
        omega (arith, h.3),
      )
