-- ===== src/Graph/Policy/Reports.antt =====
-- What `evaluate` reports of a tool, from the edges alone.
use agent_perimeter.Prelude.{
  ◌≡◌, refl, ap, sym, subst, ◌∙◌, String, Bool, true, false, ◌&&◌, ◌||◌, some, List, [], ◌∷◌, ◌++◌,
  map, contains, All, All-append, keys, string_eq, beq_refl, if◌then◌else◌, arith, Bool-cases, inl,
  inr,
}
use agent_perimeter.Contracts.{
  Capability, fs_read, fs_write, net_out, exec, secret_read, db_read, db_write, capability_eq,
}
use agent_perimeter.Graph.Build.{CapabilityEdge}
use agent_perimeter.Graph.Policy.{
  Policy, policies, confused_deputy, secret_egress, meets, local_state, Grouped,
  capabilities_by_tool, derivation_severity, PolicyFinding, evaluate,
}
use agent_perimeter.Graph.Policy.Grouped.{
  holds, mentions, capabilities, capabilities_by_tool-holds, capabilities_by_tool-mentions,
  capabilities_by_tool-IsDistinct,
}
use agent_perimeter.Graph.Policy.Weakest.{
  IsLowest, derivations_of, weakest-IsLowest, weakest-mentions,
}
use agent_perimeter.Graph.Policy.Findings.{
  pure, pure_finding, all_pure, evaluate-pure, findings_of, findings_of-all_pure,
}

meets-local_state :
    (caps : List Capability)
    → meets caps local_state ≡ (
        contains fs_read caps
        || contains db_read caps
        || contains secret_read caps
        || contains exec caps)
meets-local_state [] = refl
meets-local_state (fs_read ∷ cs) = refl
meets-local_state (fs_write ∷ cs) = meets-local_state cs
meets-local_state (net_out ∷ cs) = meets-local_state cs
meets-local_state (exec ∷ cs) = ground arith
meets-local_state (secret_read ∷ cs) = ground arith
meets-local_state (db_read ∷ cs) = ground arith
meets-local_state (db_write ∷ cs) = meets-local_state cs

abbrev pub policy_of : PolicyFinding → Policy
policy_of f = f.policy

module _ (edges : List CapabilityEdge) where
  -- The predicates of the policies, asked of the edges.
  abbrev pub reads_local : String → Bool
  reads_local tool =
      holds edges tool fs_read
      || holds edges tool db_read
      || holds edges tool secret_read
      || holds edges tool exec

  abbrev pub when_reported : Bool → Policy → List Policy
  when_reported b p = if b then p ∷ [] else []

  abbrev pub expected_policies : String → List Policy
  expected_policies tool =
      when_reported (reads_local tool && holds edges tool net_out) confused_deputy
      ++ when_reported (holds edges tool secret_read && holds edges tool net_out) secret_egress

  pure-policies :
      (tool : String) (caps : List Capability)
      → map policy_of (pure edges tool caps policies)
        ≡ when_reported (meets caps local_state && contains net_out caps) confused_deputy
          ++ when_reported (contains secret_read caps && contains net_out caps) secret_egress
  pure-policies tool caps = elim (Bool-cases (meets caps local_state && contains net_out caps)) [
    | inl a ↦ elim (Bool-cases (contains secret_read caps && contains net_out caps)) [
      | inl b ↦ rw (a, b) refl
      | inr b ↦ rw (a, b) refl
    ]
    | inr a ↦ elim (Bool-cases (contains secret_read caps && contains net_out caps)) [
      | inl b ↦ rw (a, b) refl
      | inr b ↦ rw (a, b) refl
    ]
  ]

  -- `evaluate` never raises, and reports of each tool the policies whose predicate holds of the
  -- capabilities that its edges give it, once each: the confused deputy where the tool reads local
  -- state and reaches the network, and secret egress where it reads secrets and does.
  pub evaluate_reports :
      (fs : List PolicyFinding) × (evaluate edges ≡ some fs)
      × ((tool : String) → map policy_of (findings_of edges tool fs) ≡ expected_policies tool)
  evaluate_reports = (
    all_pure edges (capabilities_by_tool edges),
    evaluate-pure edges,
    λ tool.
        let caps = capabilities (capabilities_by_tool edges) tool in
        ap (map policy_of) (
          findings_of-all_pure edges tool (capabilities_by_tool edges)
            (capabilities_by_tool-IsDistinct edges))
        ∙ pure-policies tool caps
        ∙ rw
            (
              meets-local_state caps,
              capabilities_by_tool-holds edges tool fs_read,
              capabilities_by_tool-holds edges tool db_read,
              capabilities_by_tool-holds edges tool secret_read,
              capabilities_by_tool-holds edges tool exec,
              capabilities_by_tool-holds edges tool net_out,
            )
            refl,
  )

  -- The finding's derivation is one of the tool's, and no edge of the tool ranks below it; the
  -- severity is the one of this derivation.
  abbrev pub IsGraded : PolicyFinding → Type 0
  IsGraded f =
      IsLowest f.derivation (derivations_of edges f.tool)
      × (f.severity ≡ derivation_severity f.derivation)

  if-IsGraded :
      (b : Bool) (f : PolicyFinding) → IsGraded f → All IsGraded (if b then f ∷ [] else [])
  if-IsGraded true f h = (h, tt)
  if-IsGraded false f h = tt

  pure-IsGraded :
      (tool : String) (caps : List Capability) (ps : List Policy)
      → mentions edges tool ≡ true
      → All IsGraded (pure edges tool caps ps)
  pure-IsGraded tool caps [] h = tt
  pure-IsGraded tool caps (p ∷ ps) h =
      let (d, found) = weakest-mentions edges tool h in
      let own : IsGraded (pure_finding edges tool p) =
        rw found (weakest-IsLowest edges tool d found, refl) in
      All-append IsGraded _ (pure edges tool caps ps)
        (if-IsGraded (p.predicate caps) (pure_finding edges tool p) own)
        (pure-IsGraded tool caps ps h)

  all_pure-IsGraded :
      (t : Grouped)
      → ((k : String) → contains k (keys t) ≡ true → mentions edges k ≡ true)
      → All IsGraded (all_pure edges t)
  all_pure-IsGraded [] h = tt
  all_pure-IsGraded ((tool, caps) ∷ t) h =
      All-append IsGraded (pure edges tool caps policies) (all_pure edges t)
        (pure-IsGraded tool caps policies (h tool (rw (beq_refl tool) refl)))
        (all_pure-IsGraded t (λ k m. h k (ground (arith, m))))

  -- Each finding that `evaluate` returns rests on the weakest evidence for its tool: its derivation
  -- is the one of some edge of the tool, no edge of the tool ranks below it, and the severity is
  -- the one of this derivation.
  pub evaluate-IsGraded : (fs : List PolicyFinding) → evaluate edges ≡ some fs → All IsGraded fs
  evaluate-IsGraded fs ran = subst (All IsGraded) (ground (arith, ran, evaluate-pure edges)) (
      all_pure-IsGraded (capabilities_by_tool edges)
        (λ k m. sym (capabilities_by_tool-mentions edges k) ∙ m))
