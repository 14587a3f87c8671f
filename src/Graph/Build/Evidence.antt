-- ===== src/Graph/Build/Evidence.antt =====
-- The edges of one tool: at most one for each capability, from the strongest evidence for it.
use agent_perimeter.Prelude.{
  ◌≡◌, refl, ap, sym, subst, ◌∙◌, String, Bool, false, ◌&&◌, ◌||◌, Option, none, some, List, [],
  ◌∷◌, lookup, insert, lookup-insert, has_key, is_some, beq_refl, ◌==◌, string_eq, if◌then◌else◌,
  arith, Bool-cases, Option-cases, inl, inr,
}
use agent_perimeter.Contracts.{Derivation, name, description, Capability, capability_eq}
use agent_perimeter.Discover.Parse.{ToolRecord}
use agent_perimeter.Graph.Build.{
  Rationale, Signals, name_signals, description_signals, parameter, says, CapabilityEdge, edge,
  Found, parameter_names, add_name, add_names, add_says, add_description, found_of,
}

module _ (search : String → String → Option String) where
  -- A name signal for the capability matches the parameter.
  abbrev pub names : Capability → String → Signals → Bool
  names c param [] = false
  names c param ((pattern, d) ∷ signals) =
      ((c == d) && is_some (search pattern param)) || names c param signals

  -- The last parameter that names the capability, or what was found before.
  abbrev pub last_named : Capability → List String → Option String → Option String
  last_named c [] before = before
  last_named c (param ∷ params) before =
      last_named c params (if names c param name_signals then some param else before)

  -- What the first matching description signal for the capability matches.
  abbrev pub first_said : Capability → String → Signals → Option String
  first_said c prose [] = none
  first_said c prose ((pattern, d) ∷ signals) =
      if (c == d) && is_some (search pattern prose)
      then search pattern prose
      else first_said c prose signals

  abbrev pub from_name : String → Capability → Option String → Option CapabilityEdge
  from_name tool c none = none
  from_name tool c (some param) = some (edge tool c name (parameter param))

  abbrev pub from_said : String → Capability → Option String → Option CapabilityEdge
  from_said tool c none = none
  from_said tool c (some text) = some (edge tool c description (says text))

  abbrev pub or_else : Option CapabilityEdge → Option CapabilityEdge → Option CapabilityEdge
  or_else (some e) _ = some e
  or_else none other = other

  -- The evidence for a capability: a parameter's name before the description.
  abbrev pub evidence : ToolRecord → Capability → Option CapabilityEdge
  evidence tool c =
      or_else (from_name tool.name c (last_named c (parameter_names tool.input_schema) none))
        (from_said tool.name c (first_said c tool.description description_signals))

  or_else-none : (o : Option CapabilityEdge) → o ≡ or_else o none
  or_else-none none = refl
  or_else-none (some e) = refl

  lookup-edge :
      (tool : String) (c d : Capability) (k : Derivation) (why : Rationale) (found : Found)
      → lookup c (insert d (edge tool d k why) found)
        ≡ (if c == d then some (edge tool c k why) else lookup c found)
  lookup-edge tool c d k why found =
      lookup-insert d c (edge tool d k why) found ∙ elim (Bool-cases (c == d)) [
        | inl same ↦ rw same (
            ap (λ (x : Capability). some (edge tool x k why))
              (sym ((capability_eq.equal_iff c d).0 same)))
        | inr other ↦ rw other refl
      ]

  lookup-add_name :
      (tool param : String) (signals : Signals) (found : Found) (c : Capability)
      → lookup c (add_name search tool param signals found) ≡ (
          if names c param signals
          then some (edge tool c name (parameter param))
          else lookup c found)
  unfolding add_name
  lookup-add_name tool param [] found c = refl
  lookup-add_name tool param ((pattern, d) ∷ signals) found c =
      let e = edge tool d name (parameter param) in
      elim (Bool-cases (is_some (search pattern param))) [
        | inl hit ↦ simp hit (
            lookup-add_name tool param signals (insert d e found) c
            ∙ rw (lookup-edge tool c d name (parameter param) found) (ground arith))
        | inr miss ↦ simp miss (lookup-add_name tool param signals found c ∙ ground arith)
      ]

  lookup-add_names :
      (tool : String) (params : List String) (found : Found) (before : Option String)
      (c : Capability)
      → lookup c found ≡ from_name tool c before
      → lookup c (add_names search tool params found)
        ≡ from_name tool c (last_named c params before)
  unfolding add_names
  lookup-add_names tool [] found before c h = h
  lookup-add_names tool (param ∷ params) found before c h =
      lookup-add_names tool params (add_name search tool param name_signals found)
        (if names c param name_signals then some param else before) c
        (lookup-add_name tool param name_signals found c
          ∙ elim (Bool-cases (names c param name_signals)) [
            | inl hit ↦ rw hit refl
            | inr miss ↦ rw miss h
          ])

  -- One step of the description loop, from what its search found.
  abbrev said_step : String → Capability → Option String → Found → Found
  said_step tool d r found = if has_key d found then found else add_says tool d r found

  abbrev said : String → Capability → Capability → Option String → Option CapabilityEdge
  said tool c d r = if (c == d) && is_some r then from_said tool c r else none

  -- The step for the capability that is looked up.
  lookup-said_same :
      (tool : String) (c : Capability) (found : Found) (text : String)
      → lookup c (said_step tool c (some text) found)
        ≡ or_else (lookup c found) (some (edge tool c description (says text)))
  lookup-said_same tool c found text = elim (Option-cases (lookup c found)) [
    | inl new ↦ rw new (lookup-edge tool c c description (says text) found ∙ rw (beq_refl c) refl)
    | inr (e, old) ↦ rw old old
  ]

  lookup-said_step :
      (tool : String) (c d : Capability) (r : Option String) (found : Found)
      → lookup c (said_step tool d r found) ≡ or_else (lookup c found) (said tool c d r)
  lookup-said_step tool c d none found =
      let nothing : lookup c found ≡ or_else (lookup c found) (said tool c d none) =
        elim (Bool-cases (c == d)) [
          | inl same ↦ rw same (or_else-none (lookup c found))
          | inr other ↦ rw other (or_else-none (lookup c found))
        ] in
      elim (Bool-cases (has_key d found)) [ inl old ↦ rw old nothing | inr new ↦ rw new nothing ]
  lookup-said_step tool c d (some text) found = elim (Bool-cases (c == d)) [
    | inl same ↦ rw same (
        subst
          (λ (x : Capability).
            lookup c (said_step tool x (some text) found)
            ≡ or_else (lookup c found) (some (edge tool c description (says text))))
          ((capability_eq.equal_iff c d).0 same) (lookup-said_same tool c found text))
    | inr other ↦ rw other (elim (Bool-cases (has_key d found)) [
      | inl old ↦ rw old (or_else-none (lookup c found))
      | inr new ↦ rw new (
          lookup-edge tool c d description (says text) found
          ∙ rw other (or_else-none (lookup c found)))
    ])
  ]

  or_else_assoc :
      (o p q : Option CapabilityEdge) → or_else (or_else o p) q ≡ or_else o (or_else p q)
  or_else_assoc none p q = refl
  or_else_assoc (some e) p q = refl

  or_else-said :
      (tool : String) (c d : Capability) (r rest : Option String)
      → or_else (said tool c d r) (from_said tool c rest)
        ≡ from_said tool c (if (c == d) && is_some r then r else rest)
  or_else-said tool c d none rest = ground arith
  or_else-said tool c d (some text) rest = ground arith

  lookup-add_description :
      (tool prose : String) (signals : Signals) (found : Found) (c : Capability)
      → lookup c (add_description search tool prose signals found)
        ≡ or_else (lookup c found) (from_said tool c (first_said c prose signals))
  unfolding add_description
  lookup-add_description tool prose [] found c = or_else-none (lookup c found)
  lookup-add_description tool prose ((pattern, d) ∷ signals) found c =
      let r = search pattern prose in
      lookup-add_description tool prose signals (said_step tool d r found) c
      ∙ rw (lookup-said_step tool c d r found) (
          or_else_assoc (lookup c found) (said tool c d r)
            (from_said tool c (first_said c prose signals))
          ∙ ap (or_else (lookup c found)) (or_else-said tool c d r (first_said c prose signals)))

  pub lookup-found_of :
      (tool : ToolRecord) (c : Capability) → lookup c (found_of search tool) ≡ evidence tool c
  unfolding found_of
  lookup-found_of tool c =
      let params = parameter_names tool.input_schema in
      lookup-add_description tool.name tool.description description_signals
        (add_names search tool.name params []) c
      ∙ rw (lookup-add_names tool.name params [] none c refl) refl
