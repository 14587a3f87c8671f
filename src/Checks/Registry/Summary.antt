-- ===== src/Checks/Registry/Summary.antt =====
-- `summarise_skips`: the counts of the summary that reports and the command line print.
use agent_perimeter.Prelude.{
  ℕ, ◌+◌, ◌≡◌, refl, ap, ◌∙◌, String, Bool, List, [], ◌∷◌, length, Table, lookup, insert, get_or,
  sorted, insert_sorted, HasEq, nth, by_place, ◌==◌, if◌then◌else◌, arith, Bool-cases, inl, inr,
  filter,
}
use agent_perimeter.Checks.Registry.{
  SkipReason, feature_absent, not_authorised, model_unavailable, no_baseline, listing_incomplete,
  Skipped, text_le,
}

abbrev pub reason_value : SkipReason → String
reason_value feature_absent = "feature_absent"
reason_value not_authorised = "not_authorised"
reason_value model_unavailable = "model_unavailable"
reason_value no_baseline = "no_baseline"
reason_value listing_incomplete = "listing_incomplete"

abbrev pub skip_reasons : List SkipReason
skip_reasons =
    feature_absent ∷ not_authorised ∷ model_unavailable ∷ no_baseline ∷ listing_incomplete ∷ []

abbrev pub reason_place : SkipReason → ℕ
reason_place feature_absent = 0
reason_place not_authorised = 1
reason_place model_unavailable = 2
reason_place no_baseline = 3
reason_place listing_incomplete = 4

pub reason_found : (r : SkipReason) → nth listing_incomplete skip_reasons (reason_place r) ≡ r
reason_found feature_absent = refl
reason_found _ = refl

instance abbrev pub reason_eq : HasEq SkipReason
reason_eq = by_place reason_place listing_incomplete skip_reasons reason_found

abbrev pub ReasonCounts : Type 0
ReasonCounts = Table SkipReason ℕ

-- `by_reason[item.reason] = by_reason.get(item.reason, 0) + 1`
abbrev pub count_reason : SkipReason → ReasonCounts → ReasonCounts
count_reason r t = insert r (get_or (lookup r t) 0 + 1) t

unfoldable pub count_reasons : ReasonCounts → List Skipped → ReasonCounts
count_reasons t [] = t
count_reasons t (item ∷ items) = count_reasons (count_reason item.reason t) items

-- Python's `<=` on the entries, whose reasons are all different
abbrev pub reason_le : SkipReason × ℕ → SkipReason × ℕ → Bool
reason_le a b = text_le (reason_value a.0) (reason_value b.0)

-- What the summary says: that there is nothing to say, or the number and the counts by reason.
pub data Summary : Type 0 where
  none_skipped : Summary
  skipped_by : ℕ → List (SkipReason × ℕ) → Summary

unfoldable pub summarise_skips : List Skipped → Summary
summarise_skips [] = none_skipped
summarise_skips (item ∷ items) =
    skipped_by (length (item ∷ items)) (sorted reason_le (count_reasons [] (item ∷ items)))

-- What the entries of one reason add up to.
abbrev pub count_of_reason : SkipReason → List (SkipReason × ℕ) → ℕ
count_of_reason r [] = 0
count_of_reason r ((s, n) ∷ t) = if r == s then n + count_of_reason r t else count_of_reason r t

abbrev pub only_if : Bool → ℕ → ℕ
only_if b n = if b then n else 0

count_of_reason-insert :
    (r s : SkipReason) (v : ℕ) (t : ReasonCounts)
    → count_of_reason r (insert s v t) + only_if (r == s) (get_or (lookup s t) 0)
      ≡ count_of_reason r t + only_if (r == s) v
count_of_reason-insert r s v [] = elim (Bool-cases (r == s)) [
  | inl same ↦ rw same (omega arith)
  | inr other ↦ rw other (omega arith)
]
count_of_reason-insert r s v ((j, n) ∷ t) = elim (Bool-cases (s == j)) [
  | inl same ↦
      let e = ap (λ (x : SkipReason). r == x) ((reason_eq.equal_iff s j).0 same) in
      elim (Bool-cases (r == j)) [
        | inl own ↦ rw (same, e ∙ own, own) (omega arith)
        | inr foreign ↦ rw (same, e ∙ foreign, foreign) (omega arith)
      ]
  | inr other ↦
      let rest = count_of_reason-insert r s v t in
      elim (Bool-cases (r == j)) [
        | inl own ↦ rw (other, own) (omega (arith, rest))
        | inr foreign ↦ rw (other, foreign) rest
      ]
]

-- How many items are skipped for a reason.
abbrev pub how_often : SkipReason → List Skipped → ℕ
how_often r items = length (filter (λ i. r == i.reason) items)

count_of_reason-count_reason :
    (r s : SkipReason) (t : ReasonCounts)
    → count_of_reason r (count_reason s t) ≡ count_of_reason r t + only_if (r == s) 1
count_of_reason-count_reason r s t =
    let put = count_of_reason-insert r s (get_or (lookup s t) 0 + 1) t in
    elim (Bool-cases (r == s)) [
      | inl same ↦ rw same (omega (arith, rw same at put))
      | inr other ↦ rw other (omega (arith, rw other at put))
    ]

count_of_reason-count_reasons :
    (r : SkipReason) (t : ReasonCounts) (items : List Skipped)
    → count_of_reason r (count_reasons t items) ≡ count_of_reason r t + how_often r items
unfolding count_reasons
count_of_reason-count_reasons r t [] = omega arith
count_of_reason-count_reasons r t (item ∷ items) =
    let rest = count_of_reason-count_reasons r (count_reason item.reason t) items in
    let put = count_of_reason-count_reason r item.reason t in
    elim (Bool-cases (r == item.reason)) [
      | inl same ↦ simp same (omega (arith, rest, rw same at put))
      | inr other ↦ simp other (omega (arith, rest, rw other at put))
    ]

count_of_reason-insert_sorted :
    (r : SkipReason) (e : SkipReason × ℕ) (t : List (SkipReason × ℕ))
    → count_of_reason r (insert_sorted reason_le e t) ≡ count_of_reason r (e ∷ t)
count_of_reason-insert_sorted r e [] = refl
count_of_reason-insert_sorted r e (f ∷ t) =
    let rest = count_of_reason-insert_sorted r e t in
    elim (Bool-cases (reason_le e f)) [
      | inl first ↦ rw (first, insert_sorted) refl
      | inr later ↦
          rw (later, insert_sorted)
            (elim (Bool-cases (r == e.0)) [
              | inl a ↦ elim (Bool-cases (r == f.0)) [
                | inl b ↦ simp (a, b) (omega (arith, simp a at rest))
                | inr b ↦ simp (a, b) (simp a at rest)
              ]
              | inr a ↦ elim (Bool-cases (r == f.0)) [
                | inl b ↦ simp (a, b) (omega (arith, simp a at rest))
                | inr b ↦ simp (a, b) (simp a at rest)
              ]
            ])
    ]

count_of_reason-sorted :
    (r : SkipReason) (t : List (SkipReason × ℕ))
    → count_of_reason r (sorted reason_le t) ≡ count_of_reason r t
count_of_reason-sorted r [] = refl
count_of_reason-sorted r (e ∷ t) =
    let rest = count_of_reason-sorted r t in
    count_of_reason-insert_sorted r e (sorted reason_le t) ∙ elim (Bool-cases (r == e.0)) [
      | inl own ↦ simp own (omega (arith, rest))
      | inr foreign ↦ simp foreign rest
    ]

-- No skipped check is missing from the summary: it states how many were skipped, and the counts that
-- it gives for each reason are the numbers of checks that were skipped for it.
pub summarise_skips-how_often :
    (items : List Skipped) (n : ℕ) (parts : List (SkipReason × ℕ))
    → summarise_skips items ≡ skipped_by n parts
    → (n ≡ length items) × ((r : SkipReason) → count_of_reason r parts ≡ how_often r items)
unfolding summarise_skips
summarise_skips-how_often [] n parts e = absurd (cc)
summarise_skips-how_often (item ∷ items) n parts e = (
  ground (arith, e),
  λ r.
      let counts = count_reasons [] (item ∷ items) in
      ap (count_of_reason r) (ground (arith, e))
      ∙ count_of_reason-sorted r counts
      ∙ count_of_reason-count_reasons r [] (item ∷ items)
      ∙ omega arith,
)
