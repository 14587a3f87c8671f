-- ===== src/Graph/Paths/Sinks.antt =====
-- Which sinks of injection paths are backed, from the edges alone.
use agent_perimeter.Prelude.{
  ◌≡◌, refl, ap, sym, subst, ◌∙◌, beq_refl, beq_ne, String, Bool, false, not, ◌&&◌, ◌||◌, Option,
  none, some, List, [], ◌∷◌, any, contains, lookup, lookup-insert, insert, is_some, ◌==◌, string_eq,
  eq_iff, if◌then◌else◌, arith, Bool-cases, inl, inr,
}
use agent_perimeter.Contracts.{description, derivation_eq, capability_eq}
use agent_perimeter.Graph.Build.{CapabilityEdge}
use agent_perimeter.Graph.Paths.{
  privileged_sinks, SinkClass, stronger, class_of, Classes, classify_from,
}

-- The edge gives the tool a privileged capability.
abbrev pub is_privileged : String → CapabilityEdge → Bool
is_privileged t e = (e.tool == t) && contains e.capability privileged_sinks

-- And it does so from more than a description.
abbrev pub is_solid : String → CapabilityEdge → Bool
is_solid t e = is_privileged t e && not (e.derivation == description)

abbrev pub is_backed : Option SinkClass → Bool
is_backed none = false
is_backed (some c) = c.backed

is_backed-stronger :
    (mine : SinkClass) (o : Option SinkClass)
    → (stronger mine o).backed ≡ (mine.backed || is_backed o)
unfolding stronger
is_backed-stronger mine none = ground arith
is_backed-stronger mine (some theirs) = ground arith

-- The class of a tool after one round of the loop.
abbrev pub next_classes : List String → Classes → CapabilityEdge → Classes
next_classes sinks classes e =
    if not (contains e.tool sinks) || not (contains e.capability privileged_sinks)
    then classes
    else insert e.tool (stronger (class_of e) (lookup e.tool classes)) classes

-- The round is about this tool.
abbrev takes : List String → CapabilityEdge → String → Bool
takes sinks e t = contains t sinks && is_privileged t e

lookup-next_own :
    (sinks : List String) (classes : Classes) (e : CapabilityEdge)
    → lookup e.tool (next_classes sinks classes e) ≡ (
        if contains e.tool sinks && contains e.capability privileged_sinks
        then some (stronger (class_of e) (lookup e.tool classes))
        else lookup e.tool classes)
lookup-next_own sinks classes e =
    let put =
      lookup-insert e.tool e.tool (stronger (class_of e) (lookup e.tool classes)) classes
      ∙ rw (beq_refl e.tool) refl in
    elim (Bool-cases (contains e.tool sinks)) [
      | inl a ↦ elim (Bool-cases (contains e.capability privileged_sinks)) [
        | inl b ↦ simp (a, b) put
        | inr b ↦ simp (a, b) refl
      ]
      | inr a ↦ simp a refl
    ]

lookup-next_other :
    (sinks : List String) (classes : Classes) (e : CapabilityEdge) (t : String)
    → (t == e.tool) ≡ false
    → lookup t (next_classes sinks classes e) ≡ lookup t classes
lookup-next_other sinks classes e t ne =
    let put =
      lookup-insert e.tool t (stronger (class_of e) (lookup e.tool classes)) classes ∙ rw ne refl in
    elim (Bool-cases (contains e.tool sinks)) [
      | inl a ↦ elim (Bool-cases (contains e.capability privileged_sinks)) [
        | inl b ↦ simp (a, b) put
        | inr b ↦ simp (a, b) refl
      ]
      | inr a ↦ simp a refl
    ]

lookup-next_classes :
    (sinks : List String) (classes : Classes) (e : CapabilityEdge) (t : String)
    → lookup t (next_classes sinks classes e) ≡ (
        if takes sinks e t
        then some (stronger (class_of e) (lookup t classes))
        else lookup t classes)
lookup-next_classes sinks classes e t = elim (Bool-cases (t == e.tool)) [
  | inl same ↦
      subst
        (λ (x : String). lookup x (next_classes sinks classes e) ≡ (
          if takes sinks e x
          then some (stronger (class_of e) (lookup x classes))
          else lookup x classes))
        (sym ((eq_iff t e.tool).0 same))
        (lookup-next_own sinks classes e ∙ rw (beq_refl e.tool) refl)
  | inr other ↦
      lookup-next_other sinks classes e t other
      ∙ rw (beq_ne e.tool t (λ same. ground (arith, eq_iff t e.tool))) (ground arith)
]

is_some-next_classes :
    (sinks : List String) (classes : Classes) (e : CapabilityEdge) (t : String)
    → is_some (lookup t (next_classes sinks classes e))
      ≡ (is_some (lookup t classes) || takes sinks e t)
is_some-next_classes sinks classes e t =
    ap is_some (lookup-next_classes sinks classes e t) ∙ ground arith

is_backed-next_classes :
    (sinks : List String) (classes : Classes) (e : CapabilityEdge) (t : String)
    → is_backed (lookup t (next_classes sinks classes e))
      ≡ (is_backed (lookup t classes) || (contains t sinks && is_solid t e))
is_backed-next_classes sinks classes e t =
    ap is_backed (lookup-next_classes sinks classes e t) ∙ elim (Bool-cases (takes sinks e t)) [
      | inl taken ↦
          rw taken (is_backed-stronger (class_of e) (lookup t classes) ∙ ground (arith, taken))
      | inr left ↦ rw left (ground (arith, left))
    ]

pub is_some-classify_from :
    (sinks : List String) (classes : Classes) (edges : List CapabilityEdge) (t : String)
    → is_some (lookup t (classify_from sinks classes edges))
      ≡ (is_some (lookup t classes) || (contains t sinks && any (is_privileged t) edges))
unfolding classify_from
is_some-classify_from sinks classes [] t = ground arith
is_some-classify_from sinks classes (e ∷ es) t =
    is_some-classify_from sinks (next_classes sinks classes e) es t
    ∙ rw (is_some-next_classes sinks classes e t) (ground arith)

pub is_backed-classify_from :
    (sinks : List String) (classes : Classes) (edges : List CapabilityEdge) (t : String)
    → is_backed (lookup t (classify_from sinks classes edges))
      ≡ (is_backed (lookup t classes) || (contains t sinks && any (is_solid t) edges))
unfolding classify_from
is_backed-classify_from sinks classes [] t = ground arith
is_backed-classify_from sinks classes (e ∷ es) t =
    is_backed-classify_from sinks (next_classes sinks classes e) es t
    ∙ rw (is_backed-next_classes sinks classes e t) (ground arith)
