-- ===== src/Scan/Ambiguous.antt =====
-- agent_perimeter/scan_runner.py: `compute_ambiguous_tools`. A set is a list.
pub mod Judged
use agent_perimeter.Prelude.{
  ℕ, String, Bool, true, false, not, Option, none, some, List, [], ◌∷◌, ◌++◌, any, contains, filter,
  string_eq, if◌then◌else◌,
}
use agent_perimeter.Discover.Parse.{ToolRecord}
use agent_perimeter.Checks.Descriptions.Unicode.{Anomaly, scan_text, confusable_name}
use agent_perimeter.Checks.Descriptions.Imperative.{Match, Urls, imperative_patterns, pattern_match}

abbrev pub weak_signal_categories : List String
weak_signal_categories = "model_directive" ∷ "exfiltration" ∷ "confusable_name" ∷ []

abbrev pub strong_signal_categories : List String
strong_signal_categories =
    "override" ∷ "concealment" ∷ "role_claim" ∷ "bidi_override" ∷ "zero_width" ∷ "tag_character"
    ∷ []

abbrev pub categories_of : List Anomaly → List String
categories_of [] = []
categories_of ((category, _, _) ∷ rest) = category ∷ categories_of rest

abbrev pub confusable_category : Option (ℕ × ℕ) → List String
confusable_category none = []
confusable_category (some _) = "confusable_name" ∷ []

-- `a & b`, as a test
abbrev pub intersects : List String → List String → Bool
intersects xs ys = any (λ a. contains a ys) xs

module _ (urls : Urls) (search : String → String → Option Match) (target : String) where
  -- The loop over the patterns.
  unfoldable pub imperative_categories : List (String × String) → String → List String
  imperative_categories [] description = []
  imperative_categories (p ∷ ps) description =
      let rest = imperative_categories ps description in
      elim (pattern_match urls search target p description) [ none ↦ rest | some _ ↦ p.0 ∷ rest ]

  -- `categories`, at the end of the loop's body
  unfoldable pub tool_categories : ToolRecord → List String
  tool_categories tool =
      imperative_categories imperative_patterns tool.description
      ++ categories_of (scan_text tool.description)
      ++ categories_of (scan_text tool.name)
      ++ confusable_category (confusable_name tool.name)

  abbrev pub is_strong : ToolRecord → Bool
  is_strong tool = intersects (tool_categories tool) strong_signal_categories

  abbrev pub is_weak : ToolRecord → Bool
  is_weak tool = intersects (tool_categories tool) weak_signal_categories

  -- The loop over the tools: `weak` and `strong`.
  unfoldable pub signals : List ToolRecord → List String × List String
  signals [] = ([], [])
  signals (tool ∷ tools) =
      let (weak, strong) = signals tools in
      if is_strong tool
      then (weak, tool.name ∷ strong)
      else if is_weak tool
      then (tool.name ∷ weak, strong)
      else (weak, strong)

  unfoldable pub compute_ambiguous_tools : List ToolRecord → List String
  compute_ambiguous_tools tools =
      let (weak, strong) = signals tools in filter (λ n. not (contains n strong)) weak
