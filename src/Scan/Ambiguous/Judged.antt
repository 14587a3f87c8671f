-- ===== src/Scan/Ambiguous/Judged.antt =====
-- Which tools are ambiguous.
use agent_perimeter.Prelude.{
  String, ◌≡◌, refl, subst, inl, inr, Bool, false, not, ◌&&◌, Option, List, [], ◌∷◌, any, contains,
  filter, string_eq, ◌==◌, eq_iff, arith, Bool-cases,
}
use agent_perimeter.Discover.Parse.{ToolRecord}
use agent_perimeter.Checks.Descriptions.Imperative.{Match, Urls}
use agent_perimeter.Scan.Ambiguous.{is_strong, is_weak, signals, compute_ambiguous_tools}

contains-filter :
    (p : String → Bool) (n : String) (xs : List String)
    → contains n (filter p xs) ≡ (contains n xs && p n)
contains-filter p n [] = refl
contains-filter p n (x ∷ xs) = elim (Bool-cases (n == x)) [
  | inl same ↦
      let e : n ≡ x = (eq_iff n x).0 same in
      subst (λ y. contains n (filter p (y ∷ xs)) ≡ (contains n (y ∷ xs) && p n)) e
        (ground (arith, contains-filter p n xs, eq_iff n n))
  | inr other ↦ ground (arith, contains-filter p n xs)
]

module _ (urls : Urls) (search : String → String → Option Match) (target : String) where
  abbrev strong : ToolRecord → Bool
  strong = is_strong urls search target

  abbrev weak : ToolRecord → Bool
  weak = is_weak urls search target

  module _ (n : String) where
    -- Some tool of this name passes the test.
    abbrev pub named : (ToolRecord → Bool) → List ToolRecord → Bool
    named p tools = any (λ tool. (n == tool.name) && p tool) tools

    signals-strong :
        (tools : List ToolRecord)
        → contains n (signals urls search target tools).1 ≡ named strong tools
    unfolding signals
    signals-strong [] = refl
    signals-strong (tool ∷ tools) = ground (arith, signals-strong tools)

    signals-weak :
        (tools : List ToolRecord)
        → named strong tools ≡ false
        → contains n (signals urls search target tools).0 ≡ named weak tools
    unfolding signals
    signals-weak [] h = refl
    signals-weak (tool ∷ tools) h = ground (arith, signals-weak tools)

    -- A name is ambiguous exactly when some tool of this name shows a weak signal and no tool of
    -- this name shows a strong one, whatever the order of the tools.
    pub compute_ambiguous_tools-named :
        (tools : List ToolRecord)
        → contains n (compute_ambiguous_tools urls search target tools) ≡ (
            named (is_weak urls search target) tools
            && not (named (is_strong urls search target) tools))
    unfolding compute_ambiguous_tools
    compute_ambiguous_tools-named tools = ground (
      arith,
      contains-filter (λ m. not (contains m (signals urls search target tools).1)) n
          (signals urls search target tools).0,
      signals-strong tools,
      signals-weak tools,
    )
