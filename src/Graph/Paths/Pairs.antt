-- ===== src/Graph/Paths/Pairs.antt =====
-- Which pairs are injection paths, from the edges alone.
use agent_perimeter.Prelude.{
  ◌≡◌, refl, ap, ◌∙◌, String, Bool, false, not, ◌&&◌, ◌||◌, List, [], ◌∷◌, ◌++◌, any, contains,
  keys, IsDistinct, ◌==◌, string_eq, eq_iff, arith, Bool-cases, inl, inr,
}
use agent_perimeter.Contracts.{Capability, capability_eq}
use agent_perimeter.Graph.Build.{CapabilityEdge}
use agent_perimeter.Graph.Policy.{meets, Grouped, capabilities_by_tool}
use agent_perimeter.Graph.Policy.Grouped.{
  holds, capabilities, capabilities_by_tool-holds, capabilities_by_tool-IsDistinct,
}
use agent_perimeter.Graph.Policy.Findings.{absent-capabilities}
use agent_perimeter.Graph.Paths.{
  external_sources, privileged_sinks, tools_meeting, pairs_from, all_pairs, find_paths,
}

-- Some edge gives the tool one of the capabilities.
abbrev pub holds_one : List CapabilityEdge → String → List Capability → Bool
holds_one edges tool [] = false
holds_one edges tool (c ∷ cs) = holds edges tool c || holds_one edges tool cs

abbrev contains_one : List Capability → List Capability → Bool
contains_one caps [] = false
contains_one caps (c ∷ cs) = contains c caps || contains_one caps cs

abbrev pub is_path : String → String → List (String × String) → Bool
is_path s k = any (λ p. (p.0 == s) && (p.1 == k))

contains_one-cons :
    (x : Capability) (xs others : List Capability)
    → contains_one (x ∷ xs) others ≡ (contains x others || contains_one xs others)
contains_one-cons x xs [] = refl
contains_one-cons x xs (c ∷ cs) =
    ground
      (arith, contains_one-cons x xs cs, capability_eq.equal_iff x c, capability_eq.equal_iff c x)

meets-contains_one : (caps others : List Capability) → meets caps others ≡ contains_one caps others
meets-contains_one [] [] = refl
meets-contains_one [] (c ∷ others) = meets-contains_one [] others
meets-contains_one (x ∷ xs) others =
    ground (arith, contains_one-cons x xs others, meets-contains_one xs others)

contains_one-holds_one :
    (edges : List CapabilityEdge) (tool : String) (others : List Capability)
    → contains_one (capabilities (capabilities_by_tool edges) tool) others
      ≡ holds_one edges tool others
contains_one-holds_one edges tool [] = refl
contains_one-holds_one edges tool (c ∷ others) =
    ground
      (arith, contains_one-holds_one edges tool others, capabilities_by_tool-holds edges tool c)

contains-tools_meeting :
    (others : List Capability) (t : Grouped) (tool : String)
    → IsDistinct (keys t)
    → contains tool (tools_meeting others t) ≡ meets (capabilities t tool) others
contains-tools_meeting others [] tool h = refl
contains-tools_meeting others ((k, caps) ∷ t) tool h =
    let rest = contains-tools_meeting others t tool h.1 in
    elim (Bool-cases (tool == k)) [
      | inl same ↦
          let gone =
            rest
            ∙ ap (λ (cs : List Capability). meets cs others)
                (ap (capabilities t) ((eq_iff tool k).0 same) ∙ absent-capabilities t k h.0) in
          elim (Bool-cases (meets caps others)) [
            | inl met ↦ simp (met, same) refl
            | inr unmet ↦ simp (unmet, same) gone
          ]
      | inr other ↦ elim (Bool-cases (meets caps others)) [
        | inl met ↦ simp (met, other) rest
        | inr unmet ↦ simp (unmet, other) rest
      ]
    ]

is_path-pairs_from :
    (s k s' : String) (sinks : List String)
    → is_path s k (pairs_from s' sinks) ≡ ((s' == s) && (contains k sinks && not (s == k)))
is_path-pairs_from s k s' [] = ground arith
is_path-pairs_from s k s' (j ∷ sinks) = ground (
  arith,
  is_path-pairs_from s k s' sinks,
  eq_iff s' s,
  eq_iff j k,
  eq_iff k j,
  eq_iff s' j,
  eq_iff s k,
)

is_path-append :
    (s k : String) (ps qs : List (String × String))
    → is_path s k (ps ++ qs) ≡ (is_path s k ps || is_path s k qs)
is_path-append s k [] qs = refl
is_path-append s k (p ∷ ps) qs = ground (arith, is_path-append s k ps qs)

is_path-all_pairs :
    (s k : String) (sources sinks : List String)
    → is_path s k (all_pairs sources sinks)
      ≡ (contains s sources && (contains k sinks && not (s == k)))
is_path-all_pairs s k [] sinks = refl
is_path-all_pairs s k (s' ∷ sources) sinks = ground (
  arith,
  is_path-append s k (pairs_from s' sinks) (all_pairs sources sinks),
  is_path-pairs_from s k s' sinks,
  is_path-all_pairs s k sources sinks,
  eq_iff s' s,
  eq_iff s s',
)

pub contains-meeting :
    (others : List Capability) (edges : List CapabilityEdge) (tool : String)
    → contains tool (tools_meeting others (capabilities_by_tool edges))
      ≡ holds_one edges tool others
contains-meeting others edges tool =
    contains-tools_meeting others (capabilities_by_tool edges) tool
      (capabilities_by_tool-IsDistinct edges)
    ∙ meets-contains_one (capabilities (capabilities_by_tool edges) tool) others
    ∙ contains_one-holds_one edges tool others

-- A pair is an injection path exactly where some edge gives the first tool an external source,
-- some edge gives the second a privileged sink, and the two are different tools.
pub find_paths-is_path :
    (edges : List CapabilityEdge) (s k : String)
    → is_path s k (find_paths edges)
      ≡ (holds_one edges s external_sources && (holds_one edges k privileged_sinks && not (s == k)))
unfolding find_paths
find_paths-is_path edges s k =
    is_path-all_pairs s k (tools_meeting external_sources (capabilities_by_tool edges))
      (tools_meeting privileged_sinks (capabilities_by_tool edges))
    ∙ rw (contains-meeting external_sources edges s, contains-meeting privileged_sinks edges k) refl
