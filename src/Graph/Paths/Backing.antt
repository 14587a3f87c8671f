-- ===== src/Graph/Paths/Backing.antt =====
-- `path_sinks` splits the sinks by whether an edge beyond a description backs them.
use agent_perimeter.Prelude.{
  ◌≡◌, refl, ap, sym, ◌∙◌, beq_sym, String, Bool, true, false, not, ◌&&◌, ◌||◌, List, [], ◌∷◌, ◌++◌,
  map, any, contains, lookup, keys, is_some, IsDistinct, IsDistinct-insert, ◌==◌, string_eq, eq_iff,
  if◌then◌else◌, arith, Bool-cases, inl, inr,
}
use agent_perimeter.Contracts.{Capability, capability_eq}
use agent_perimeter.Graph.Build.{CapabilityEdge}
use agent_perimeter.Graph.Policy.{capabilities_by_tool}
use agent_perimeter.Graph.Policy.Grouped.{holds}
use agent_perimeter.Graph.Paths.{
  external_sources, privileged_sinks, tools_meeting, pairs_from, all_pairs, sink_of, find_paths,
  stronger, class_of, Classes, classify_from, classify_sinks, with_backed, path_sinks,
}
use agent_perimeter.Graph.Paths.Pairs.{holds_one, contains-meeting}
use agent_perimeter.Graph.Paths.Sinks.{
  is_privileged, is_solid, is_backed, next_classes, is_some-classify_from, is_backed-classify_from,
}

next_classes-IsDistinct :
    (sinks : List String) (classes : Classes) (e : CapabilityEdge)
    → IsDistinct (keys classes)
    → IsDistinct (keys (next_classes sinks classes e))
next_classes-IsDistinct sinks classes e h =
    elim (Bool-cases
      (not (contains e.tool sinks) || not (contains e.capability privileged_sinks))) [
        | inl left ↦ simp left h
        | inr taken ↦
            simp taken
              (IsDistinct-insert e.tool (stronger (class_of e) (lookup e.tool classes)) classes h)
      ]

classify_from-IsDistinct :
    (sinks : List String) (classes : Classes) (edges : List CapabilityEdge)
    → IsDistinct (keys classes)
    → IsDistinct (keys (classify_from sinks classes edges))
unfolding classify_from
classify_from-IsDistinct sinks classes [] h = h
classify_from-IsDistinct sinks classes (e ∷ es) h =
    classify_from-IsDistinct sinks (next_classes sinks classes e) es
      (next_classes-IsDistinct sinks classes e h)

-- A tool that no entry has is in neither half.
with_backed_absent :
    (b : Bool) (t : String) (classes : Classes)
    → contains t (keys classes) ≡ false
    → contains t (with_backed b classes) ≡ false
with_backed_absent b t [] h = refl
with_backed_absent b t ((k, c) ∷ classes) h = ground (arith, with_backed_absent b t classes)

contains-with_backed :
    (b : Bool) (t : String) (classes : Classes)
    → IsDistinct (keys classes)
    → contains t (with_backed b classes) ≡ (
        is_some (lookup t classes)
        && (if b then is_backed (lookup t classes) else not (is_backed (lookup t classes))))
contains-with_backed b t [] h = refl
contains-with_backed b t ((k, c) ∷ classes) h =
    let rest = contains-with_backed b t classes h.1 in
    elim (Bool-cases (t == k)) [
      | inl same ↦
          let gone =
            with_backed_absent b t classes
              (ap (λ (x : String). contains x (keys classes)) ((eq_iff t k).0 same) ∙ h.0) in
          elim (Bool-cases (if b then c.backed else not c.backed)) [
            | inl met ↦ simp (met, same) refl
            | inr unmet ↦ simp (unmet, same) gone
          ]
      | inr other ↦ elim (Bool-cases (if b then c.backed else not c.backed)) [
        | inl met ↦ simp (met, other) rest
        | inr unmet ↦ simp (unmet, other) rest
      ]
    ]

-- The privileged edges of a tool, asked one capability at a time.
either_way :
    (own x h y r : Bool)
    → (((own && x) || h) || ((own && y) || r)) ≡ ((own && (x || y)) || (h || r))
either_way own x h y r = ground arith

holds_one-step :
    (e : CapabilityEdge) (es : List CapabilityEdge) (t : String) (cs : List Capability)
    → holds_one (e ∷ es) t cs ≡ (((e.tool == t) && contains e.capability cs) || holds_one es t cs)
holds_one-step e es t [] = ground arith
holds_one-step e es t (c ∷ cs) =
    ap (λ (b : Bool). holds (e ∷ es) t c || b) (holds_one-step e es t cs)
    ∙ either_way (e.tool == t) (c == e.capability) (holds es t c) (contains e.capability cs)
        (holds_one es t cs)
    ∙ ap
        (λ (b : Bool).
          ((e.tool == t) && (b || contains e.capability cs)) || (holds es t c || holds_one es t cs))
        (beq_sym c e.capability)

holds_one-is_privileged :
    (edges : List CapabilityEdge) (t : String)
    → holds_one edges t privileged_sinks ≡ any (is_privileged t) edges
holds_one-is_privileged [] t = refl
holds_one-is_privileged (e ∷ es) t =
    holds_one-step e es t privileged_sinks
    ∙ ap (λ (b : Bool). is_privileged t e || b) (holds_one-is_privileged es t)

-- Every sink of a pair comes from the sinks.
contains-pairs_from :
    (s t : String) (sinks : List String)
    → contains t (map sink_of (pairs_from s sinks)) ≡ true
    → contains t sinks ≡ true
contains-pairs_from s t [] h = h
contains-pairs_from s t (k ∷ sinks) h = elim (Bool-cases (s == k)) [
  | inl same ↦ ground (arith, contains-pairs_from s t sinks (simp same at h))
  | inr other ↦ ground (arith, contains-pairs_from s t sinks, simp other at h)
]

map-sink_of-append :
    (t : String) (ps qs : List (String × String))
    → contains t (map sink_of (ps ++ qs))
      ≡ (contains t (map sink_of ps) || contains t (map sink_of qs))
map-sink_of-append t [] qs = refl
map-sink_of-append t (p ∷ ps) qs = ground (arith, map-sink_of-append t ps qs)

contains-all_pairs :
    (t : String) (sources sinks : List String)
    → contains t (map sink_of (all_pairs sources sinks)) ≡ true
    → contains t sinks ≡ true
contains-all_pairs t [] sinks h = absurd (cc)
contains-all_pairs t (s ∷ sources) sinks h =
    let split = map-sink_of-append t (pairs_from s sinks) (all_pairs sources sinks) in
    elim (Bool-cases (contains t (map sink_of (pairs_from s sinks)))) [
      | inl here ↦ contains-pairs_from s t sinks here
      | inr later ↦ contains-all_pairs t sources sinks (ground (arith, h, split, later))
    ]

-- The tool is the sink of some path.
abbrev pub is_sink : List CapabilityEdge → String → Bool
is_sink edges t = contains t (map sink_of (find_paths edges))

is_sink-is_privileged :
    (edges : List CapabilityEdge) (t : String)
    → is_sink edges t ≡ true
    → any (is_privileged t) edges ≡ true
unfolding find_paths
is_sink-is_privileged edges t h =
    sym (holds_one-is_privileged edges t)
    ∙ sym (contains-meeting privileged_sinks edges t)
    ∙ contains-all_pairs t (tools_meeting external_sources (capabilities_by_tool edges))
        (tools_meeting privileged_sinks (capabilities_by_tool edges)) h

-- The two halves of `path_sinks` divide the sinks of the injection paths: a sink is in the first
-- where some edge beyond a description gives it a privileged capability, and in the second where
-- every edge that gives it one comes from a description.
pub path_sinks_divide :
    (edges : List CapabilityEdge) (t : String)
    → (contains t (path_sinks edges).0 ≡ (is_sink edges t && any (is_solid t) edges))
      × (contains t (path_sinks edges).1 ≡ (is_sink edges t && not (any (is_solid t) edges)))
unfolding path_sinks classify_sinks
path_sinks_divide edges t =
    let sinks = map sink_of (find_paths edges) in
    let classes = classify_from sinks [] edges in
    let distinct = classify_from-IsDistinct sinks [] edges tt in
    let listed = is_some-classify_from sinks [] edges t in
    let solid = is_backed-classify_from sinks [] edges t in
    elim (Bool-cases (is_sink edges t)) [
      | inl yes₁ ↦
          let full = is_sink-is_privileged edges t yes₁ in
          (
            contains-with_backed true t classes distinct ∙ rw (listed, solid, full, yes₁) refl,
            contains-with_backed false t classes distinct ∙ rw (listed, solid, full, yes₁) refl,
          )
      | inr no₁ ↦ (
        contains-with_backed true t classes distinct ∙ rw (listed, solid, no₁) refl,
        contains-with_backed false t classes distinct ∙ rw (listed, solid, no₁) refl,
      )
    ]
