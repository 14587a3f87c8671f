-- ===== src/Checks/Descriptions/Imperative.antt =====
-- agent_perimeter/checks/descriptions/imperative_injection.py. `search pattern text` is the match of
-- `re.compile(pattern, re.I).search(text)`; it and Python's urlsplit are parameters.
use agent_perimeter.Prelude.{
  ℕ, String, Bool, false, ◌&&◌, Option, none, some, List, [], ◌∷◌, ◌==◌, string_eq, if◌then◌else◌,
}
use agent_perimeter.Discover.Parse.{ToolRecord}

-- `re.Match`: its start and end, `group(0)` and `group(3)`.
pub record Match : Type 0 where
  pub start : ℕ
  pub stop : ℕ
  pub matched : String
  pub url : String

-- What the code takes from urllib.parse and str.
pub record Urls : Type 0 where
  -- the scheme and netloc of `urlsplit`, or none for its ValueError
  pub split_url : String → Option (String × String)
  -- `urlunsplit` of a scheme, a netloc and a path
  pub join_url : String → String → String → String
  pub lower : String → String

abbrev pub imperative_patterns : List (String × String)
imperative_patterns =
    ("override", "ignore\\s+(all\\s+)?(previous|prior|above)\\s+instructions")
    ∷ ("override", "disregard\\s+(all\\s+)?(previous|prior|the\\s+above)")
    ∷ ("concealment", "do\\s+not\\s+(tell|inform|mention|reveal|show)\\s+the\\s+user")
    ∷ ("concealment", "without\\s+(telling|informing|notifying)\\s+the\\s+user")
    ∷ ("model_directive", "\\b(always|never)\\s+call\\s+this\\s+tool\\b")
    ∷ ("role_claim", "</?(system|assistant|user)>")
    ∷ ("exfiltration", "\\b(send|post|upload|forward)s?\\b.{0,40}\\b(to|at)\\s+(https?://\\S+)")
    ∷ []

-- What one finding says: the tool, the category, the description as excerpt, and the match.
pub record ImperativeFinding : Type 0 where
  pub tool : String
  pub category : String
  pub excerpt : String
  pub found : Match

module _ (urls : Urls) where
  -- `urlsplit(url).netloc.lower()`
  abbrev pub origin : String → Option String
  origin url = elim (urls.split_url url) [
    | none ↦ none
    | some (_, netloc) ↦ some (urls.lower netloc)
  ]

  -- `_same_origin`
  unfoldable pub same_origin : String → String → Bool
  same_origin url target = elim (origin url) [
    | none ↦ false
    | some a ↦ elim (origin target) [ none ↦ false | some b ↦ a == b ]
  ]

  module _ (search : String → String → Option Match) (target : String) where
    -- One pattern on a text: the match, unless there is none or it is exempt.
    unfoldable pub pattern_match : String × String → String → Option Match
    pattern_match (category, pattern) text = elim (search pattern text) [
      | none ↦ none
      | some m ↦ if (category == "exfiltration") && same_origin m.url target then none else some m
    ]

    -- The inner loop, which ends at the first match that is not exempt.
    unfoldable pub first_imperative : List (String × String) → ToolRecord → List ImperativeFinding
    first_imperative [] tool = []
    first_imperative (p ∷ ps) tool = elim (pattern_match p tool.description) [
      | none ↦ first_imperative ps tool
      | some m ↦
          record { tool = tool.name; category = p.0; excerpt = tool.description; found = m } ∷ []
    ]

    -- `ImperativeInjectionCheck.run`
    unfoldable pub imperative_findings : List ToolRecord → List ImperativeFinding
    imperative_findings [] = []
    imperative_findings (tool ∷ tools) =
        let rest = imperative_findings tools in
        elim (first_imperative imperative_patterns tool) [
          | [] ↦ rest
          | finding ∷ _ ↦ finding ∷ rest
        ]
