-- ===== src/Scan/Answers.antt =====
-- What the scanner's own requests return where every one of them is answered.
use agent_perimeter.Prelude.{
  ℕ, zero, suc, ◌+◌, ℤ, String, ◌≡◌, refl, sym, subst, inl, inr, true, Option, none, some, contains,
  string_eq, Option-cases, ◌==◌, nat_eq, int_eq, ◌&&◌, Bool-cases,
}
use agent_perimeter.Json.{Value, Object, get_list}
use agent_perimeter.Transport.{Reply, ok, error, raises, Result, value, thrown, Transport}
use agent_perimeter.Transport.Revision.{
  Claimed, initialized, claimed_from, claimed_revision, observed_features, settled, observe,
  fingerprint,
}
use agent_perimeter.Discover.Paging.{
  Progress, Step, stop, next, ToolListing, follow, failed, next_cursor, page_params, page_step,
  page_loop, list_tools, start, max_tool_pages, method_not_found,
}
use agent_perimeter.Discover.Paging.Steps.{page_loop_cases}
use agent_perimeter.Checks.Context.{passive_methods}

abbrev pub IsValue : {A : Type 0} → Result A → Type 0
IsValue (value x) = Unit
IsValue (thrown reason) = ⊥

-- A result or a `TransportError`, and no other exception.
abbrev pub IsAnswer : Reply → Type 0
IsAnswer (ok result) = Unit
IsAnswer (error code) = Unit
IsAnswer (raises reason) = ⊥

-- The passive methods are answered, whatever the answer; a request of a check may still raise.
abbrev pub AnswersPassive : {S : Type 0} → Transport S → Type 0
AnswersPassive {S} t =
    (m : String) (p : Option Object) (s : S)
    → contains m passive_methods ≡ true
    → IsAnswer (t.request m p s).0

abbrev StepReturns : Step → Type 0
StepReturns (stop l) = IsValue l
StepReturns (next p) = Unit

follow-StepReturns : (page : ℕ) (c : Option String) (p : Progress) → StepReturns (follow page c p)
unfolding follow
follow-StepReturns page none p = tt
follow-StepReturns page (some following) p = elim (Bool-cases (contains following p.seen)) [
  | inl again ↦ rw (again, follow) tt
  | inr new ↦ rw (new, follow) tt
]

failed-StepReturns : (page : ℕ) (code : Option ℤ) (p : Progress) → StepReturns (failed page code p)
failed-StepReturns page none p = elim (Bool-cases (page == 1)) [
  | inl first ↦ rw (first) tt
  | inr later ↦ rw (later) tt
]
failed-StepReturns page (some c) p = elim (Bool-cases ((page == 1) && (c == method_not_found))) [
  | inl first ↦ rw (first) tt
  | inr later ↦ rw (later) tt
]

initialized-IsValue :
    (render : Value → String) (code : Option ℤ) (reply : Reply)
    → IsAnswer reply
    → IsValue (initialized render code reply)
initialized-IsValue render code (ok answer) h = tt
initialized-IsValue render code (error e) h = tt
initialized-IsValue render code (raises e) h = h

settled-IsValue : (c : Claimed) (l : Reply) → IsAnswer l → IsValue (settled c (observed_features l))
unfolding observed_features
settled-IsValue c (ok listing) h = tt
settled-IsValue c (error code) h = tt
settled-IsValue c (raises e) h = h

module _ (render : Value → String) where
  page_step-StepReturns :
      (page : ℕ) (p : Progress) (reply : Reply)
      → IsAnswer reply
      → StepReturns (page_step render page p reply)
  unfolding page_step
  page_step-StepReturns page p (error code) h = failed-StepReturns page code p
  page_step-StepReturns page p (raises e) h = h
  page_step-StepReturns page p (ok listing) h = elim (Option-cases (get_list "tools" listing)) [
    | inl missing ↦ rw (missing, page_step) tt
    | inr (raw_tools, e) ↦ rw (e, page_step) (follow-StepReturns page (next_cursor listing) _)
  ]

  module _ {S : Type 0} (t : Transport S) (answers : AnswersPassive t) where
    claimed_from-IsValue : (d : Reply) (s : S) → IsAnswer d → IsValue (claimed_from render t d s).0
    unfolding claimed_from
    claimed_from-IsValue (ok answer) s h = tt
    claimed_from-IsValue (raises e) s h = h
    claimed_from-IsValue (error code) s h =
        initialized-IsValue render code (t.request "initialize" none s).0
          (answers "initialize" none s refl)

    observe-IsValue : (c : Result Claimed) (s : S) → IsValue c → IsValue (observe render t c s).0
    unfolding observe
    observe-IsValue (thrown e) s h = h
    observe-IsValue (value c) s h =
        settled-IsValue c (t.request "tools/list" none s).0 (answers "tools/list" none s refl)

    pub fingerprint-IsValue : (s : S) → IsValue (fingerprint render t s).0
    unfolding fingerprint claimed_revision
    fingerprint-IsValue s =
        let (d, s') = t.request "server/discover" none s in
        let (claimed, s'') = claimed_from render t d s' in
        observe-IsValue claimed s''
          (claimed_from-IsValue d s' (answers "server/discover" none s refl))

    page_loop-IsValue :
        (left page : ℕ) (p : Progress) (s : S) → IsValue (page_loop render t left page p s).0
    unfolding page_loop
    page_loop-IsValue zero page p s = tt
    page_loop-IsValue (suc left) page p s =
        let (reply, s') = t.request "tools/list" (page_params p.cursor) s in
        elim (page_loop_cases render t left page p s) [
          | inl (l, e, same) ↦
              subst (λ (r : Result ToolListing × S). IsValue r.0) (sym same)
                (subst StepReturns e (
                  page_step-StepReturns page p reply
                    (answers "tools/list" (page_params p.cursor) s refl)))
          | inr (p', _, same) ↦
              subst (λ (r : Result ToolListing × S). IsValue r.0) (sym same)
                (page_loop-IsValue left (page + 1) p' s')
        ]

    pub list_tools-IsValue : (s : S) → IsValue (list_tools render t s).0
    unfolding list_tools
    list_tools-IsValue s = page_loop-IsValue max_tool_pages 1 start s
