-- ===== src/Graph/Policy/Findings.antt =====
-- Which findings `evaluate` returns for a tool, from the edges alone.
use agent_perimeter.Prelude.{
  ◌≡◌, refl, ap, sym, subst, ◌∙◌, String, true, false, some, List, [], ◌∷◌, ◌++◌, filter,
  filter-append, contains, keys, IsDistinct, get_or, beq_refl, beq_ne, append_nil, ◌==◌, string_eq,
  eq_iff, if◌then◌else◌, arith, Bool-cases, inl, inr,
}
use agent_perimeter.Contracts.{description, Capability, capability_eq}
use agent_perimeter.Graph.Build.{CapabilityEdge}
use agent_perimeter.Graph.Policy.{
  Policy, policies, Grouped, capabilities_by_tool, weakest, PolicyFinding, finding, tool_findings,
  grouped_findings, evaluate,
}
use agent_perimeter.Graph.Policy.Grouped.{mentions, capabilities, capabilities_by_tool-mentions}
use agent_perimeter.Graph.Policy.Weakest.{weakest-mentions}

pub absent-capabilities :
    (t : Grouped) (k : String) → contains k (keys t) ≡ false → capabilities t k ≡ []
absent-capabilities [] k h = refl
absent-capabilities ((j, caps) ∷ t) k h = ground (arith, absent-capabilities t k)

module _ (edges : List CapabilityEdge) where
  -- The findings without the failure of `min`, which never comes.
  abbrev pub pure_finding : String → Policy → PolicyFinding
  pure_finding tool p = finding edges tool p (get_or (weakest edges tool) description)

  abbrev pub pure : String → List Capability → List Policy → List PolicyFinding
  pure tool caps [] = []
  pure tool caps (p ∷ ps) =
      (if p.predicate caps then pure_finding tool p ∷ [] else []) ++ pure tool caps ps

  abbrev pub all_pure : Grouped → List PolicyFinding
  all_pure [] = []
  all_pure ((tool, caps) ∷ t) = pure tool caps policies ++ all_pure t

  tool_findings-pure :
      (tool : String) (caps : List Capability) (ps : List Policy)
      → mentions edges tool ≡ true
      → tool_findings edges tool caps ps ≡ some (pure tool caps ps)
  unfolding tool_findings
  tool_findings-pure tool caps [] h = refl
  tool_findings-pure tool caps (p ∷ ps) h =
      let (d, found) = weakest-mentions edges tool h in
      let rest = tool_findings-pure tool caps ps h in
      elim (Bool-cases (p.predicate caps)) [
        | inl yes₁ ↦ simp (rest, yes₁, found) refl
        | inr no₁ ↦ simp (rest, no₁) refl
      ]

  grouped_findings-pure :
      (t : Grouped)
      → ((k : String) → contains k (keys t) ≡ true → mentions edges k ≡ true)
      → grouped_findings edges t ≡ some (all_pure t)
  unfolding grouped_findings
  grouped_findings-pure [] h = refl
  grouped_findings-pure ((tool, caps) ∷ t) h =
      rw
        (
          tool_findings-pure tool caps policies (h tool (rw (beq_refl tool) refl)),
          grouped_findings-pure t (λ k m. h k (ground (arith, m))),
        )
        refl

  pub evaluate-pure : evaluate edges ≡ some (all_pure (capabilities_by_tool edges))
  unfolding evaluate
  evaluate-pure =
      grouped_findings-pure (capabilities_by_tool edges)
        (λ k m. sym (capabilities_by_tool-mentions edges k) ∙ m)

  abbrev pub findings_of : String → List PolicyFinding → List PolicyFinding
  findings_of tool = filter (λ f. f.tool == tool)

  findings_of-pure :
      (tool k : String) (caps : List Capability) (ps : List Policy)
      → findings_of tool (pure k caps ps) ≡ (if k == tool then pure k caps ps else [])
  findings_of-pure tool k caps [] = ground arith
  findings_of-pure tool k caps (p ∷ ps) =
      let rest = findings_of-pure tool k caps ps in
      elim (Bool-cases (p.predicate caps)) [
        | inl yes₁ ↦ simp (rest, yes₁) (ground arith)
        | inr no₁ ↦ simp (rest, no₁) refl
      ]

  findings_of-first :
      (tool k : String) (caps : List Capability) (t : Grouped)
      → findings_of tool (all_pure ((k, caps) ∷ t))
        ≡ (if k == tool then pure k caps policies else []) ++ findings_of tool (all_pure t)
  findings_of-first tool k caps t =
      filter-append (λ (f : PolicyFinding). f.tool == tool) (pure k caps policies) (all_pure t)
      ∙ ap (λ (fs : List PolicyFinding). fs ++ findings_of tool (all_pure t))
          (findings_of-pure tool k caps policies)

  -- The entry of the tool itself, where no other is left.
  findings_of-own :
      (tool : String) (caps : List Capability) (rest : List PolicyFinding)
      → rest ≡ []
      → (if tool == tool then pure tool caps policies else []) ++ rest ≡ pure tool caps policies
  findings_of-own tool caps rest e = rw (e, beq_refl tool) (append_nil (pure tool caps policies))

  pub findings_of-all_pure :
      (tool : String) (t : Grouped)
      → IsDistinct (keys t)
      → findings_of tool (all_pure t) ≡ pure tool (capabilities t tool) policies
  findings_of-all_pure tool [] h = refl
  findings_of-all_pure tool ((k, caps) ∷ t) h =
      let rest = findings_of-all_pure tool t h.1 in
      findings_of-first tool k caps t ∙ elim (Bool-cases (tool == k)) [
        | inl same ↦
            let e = (eq_iff tool k).0 same in
            let gone =
              rest
              ∙ ap (λ (cs : List Capability). pure tool cs policies)
                  (ap (capabilities t) e ∙ absent-capabilities t k h.0) in
            rw same (
              subst
                (λ (x : String).
                  (if x == tool then pure x caps policies else []) ++ findings_of tool (all_pure t)
                  ≡ pure tool caps policies)
                e (findings_of-own tool caps (findings_of tool (all_pure t)) gone))
        | inr other ↦
            let other' = beq_ne k tool (λ e. ground (arith, eq_iff tool k)) in
            rw (rest, other, other') refl
      ]
