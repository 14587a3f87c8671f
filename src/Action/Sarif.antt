-- ===== src/Action/Sarif.antt =====
-- What the functions of Action/Verdict read off a SARIF.
use agent_perimeter.Prelude.{
  String, ◌≡◌, ◌≢◌, refl, sym, ap, ◌∙◌, ◌↔◌, ◌⊎◌, inl, inr, true, false, Option, none, some, List,
  [], ◌∷◌, lookup, All, ◌==◌, string_eq, eq_iff, arith, subst, Option-cases, Bool-cases,
}
use agent_perimeter.Json.{
  Value, str, int, float, bool, null, obj, arr, Fields, field, end, Items, cons, nil, items,
  entries, Object, as_object,
}
use agent_perimeter.Action.{Inputs}
use agent_perimeter.Action.Verdict.{
  is_falsy, listed_value, list_or_empty, first_run_of, results_of_runs, sarif_results, names_drift,
  any_drift, drift_selected,
}

-- The results of a SARIF, which are those of its first run.
pub data ResultsOf (sarif : Object) : List Value → Type 0 where
  no_runs : lookup "runs" sarif ≡ none → ResultsOf sarif []
  empty_runs : (v : Value) → lookup "runs" sarif ≡ some v → is_falsy v ≡ true → ResultsOf sarif []
  no_results :
      (run : Fields) (more : Items)
      → lookup "runs" sarif ≡ some (arr (cons (obj run) more))
      → lookup "results" (entries run) ≡ none
      → ResultsOf sarif []
  empty_results :
      (run : Fields) (more : Items) (v : Value)
      → lookup "runs" sarif ≡ some (arr (cons (obj run) more))
      → lookup "results" (entries run) ≡ some v
      → is_falsy v ≡ true
      → ResultsOf sarif []
  results :
      (run : Fields) (more found : Items)
      → lookup "runs" sarif ≡ some (arr (cons (obj run) more))
      → lookup "results" (entries run) ≡ some (arr found)
      → ResultsOf sarif (items found)

-- A result that is an object of another rule than the drift check.
abbrev pub IsNoDrift : Value → Type 0
IsNoDrift r =
    (o : Object) × (as_object r ≡ some o)
    × (lookup "ruleId" o ≢ some (str "drift.description_drift"))

-- The drift check is among those that `only` leaves.
abbrev pub IsSelected : Inputs → Type 0
IsSelected inputs = (inputs.only ≡ "") ⊎ (inputs.only ≡ "drift.description_drift")

pub drift_selected_iff : (inputs : Inputs) → (drift_selected inputs ≡ true) ↔ IsSelected inputs
unfolding drift_selected
drift_selected_iff inputs = (
  λ h. elim (Bool-cases (inputs.only == "")) [
    | inl e ↦ inl ((eq_iff inputs.only "").0 e)
    | inr other ↦ inr ((eq_iff inputs.only "drift.description_drift").0 (ground arith))
  ],
  λ o. elim o [ inl e ↦ rw e refl | inr e ↦ rw e refl ],
)

names_drift_iff :
    (v : Option Value) → (names_drift v ≡ false) ↔ (v ≢ some (str "drift.description_drift"))
names_drift_iff none = (λ h e. cc, λ h. refl)
names_drift_iff (some (str rule)) = (
  λ h e.
      let same : rule ≡ "drift.description_drift" = cc in
      let test = (eq_iff rule "drift.description_drift").1 same in cc,
  λ other. elim (Bool-cases (rule == "drift.description_drift")) [
    | inl e ↦
        absurd
          (other (ap (λ (x : String). some (str x)) ((eq_iff rule "drift.description_drift").0 e)))
    | inr e ↦ e
  ],
)
names_drift_iff (some (int z)) = (λ h e. cc, λ h. refl)
names_drift_iff (some (float z)) = (λ h e. cc, λ h. refl)
names_drift_iff (some (bool z)) = (λ h e. cc, λ h. refl)
names_drift_iff (some null) = (λ h e. cc, λ h. refl)
names_drift_iff (some (obj z)) = (λ h e. cc, λ h. refl)
names_drift_iff (some (arr z)) = (λ h e. cc, λ h. refl)

pub any_drift-All : (rs : List Value) → any_drift rs ≡ some false → All IsNoDrift rs
unfolding any_drift
any_drift-All [] h = tt
any_drift-All (r ∷ rs) h = elim (Option-cases (as_object r)) [
  | inl other ↦ absurd (cc (rw (other, any_drift) at h))
  | inr (o, is_object) ↦ elim (Bool-cases (names_drift (lookup "ruleId" o))) [
    | inl drift ↦ absurd (cc (rw (is_object, drift, any_drift) at h))
    | inr clean ↦ (
      (o, is_object, (names_drift_iff (lookup "ruleId" o)).0 clean),
      any_drift-All rs (rw (is_object, clean, any_drift) at h),
    )
  ]
]

pub All-any_drift : (rs : List Value) → All IsNoDrift rs → any_drift rs ≡ some false
unfolding any_drift
All-any_drift [] h = refl
All-any_drift (r ∷ rs) ((o, is_object, clean), rest) =
    rw (is_object, (names_drift_iff (lookup "ruleId" o)).1 clean, any_drift) (All-any_drift rs rest)

pub ResultsOf-sarif_results :
    (s : Object) (rs : List Value) → ResultsOf s rs → sarif_results (some s) ≡ some rs
unfolding sarif_results list_or_empty
ResultsOf-sarif_results s _ (no_runs e) = rw (e, sarif_results) refl
ResultsOf-sarif_results s _ (empty_runs v e falsy) = rw (e, falsy, sarif_results) refl
ResultsOf-sarif_results s _ (no_results run more e f) = rw (e, sarif_results, f, list_or_empty) refl
ResultsOf-sarif_results s _ (empty_results run more v e f falsy) =
    rw (e, sarif_results, f, falsy, list_or_empty) refl
ResultsOf-sarif_results s _ (results run more nil e f) =
    rw (e, sarif_results, f, list_or_empty) refl
ResultsOf-sarif_results s _ (results run more (cons v vs) e f) =
    rw (e, sarif_results, f, list_or_empty) refl

some-inj : (xs ys : List Value) → ◌≡◌ {A = Option (List Value)} (some xs) (some ys) → xs ≡ ys
some-inj xs ys e = cc

-- A list of results that is no list in the SARIF has entries that are no objects.
listed-items :
    (v : Value) (rs : List Value)
    → is_falsy v ≡ false
    → listed_value v ≡ some rs
    → any_drift rs ≡ some false
    → (found : Items) × (v ≡ arr found) × (rs ≡ items found)
unfolding any_drift
listed-items (arr found) rs truthy e clean = (found, refl, cc)
listed-items (str String.[]) rs truthy e clean = absurd (cc (truthy))
listed-items (str (String.◌∷◌ c s)) rs truthy e clean =
    let bad = subst (λ l. any_drift l ≡ some false) (sym (some-inj _ rs e)) clean in absurd (cc)
listed-items (obj end) rs truthy e clean = absurd (cc (truthy))
listed-items (obj (field k v fs)) rs truthy e clean =
    let bad = subst (λ l. any_drift l ≡ some false) (sym (some-inj _ rs e)) clean in absurd (cc)
listed-items (int z) rs truthy e clean = absurd (cc (e))
listed-items (float t) rs truthy e clean = absurd (cc (e))
listed-items (bool b) rs truthy e clean = absurd (cc (e))
listed-items null rs truthy e clean = absurd (cc (e))

first_run-entries :
    (v : Value) (o : Object)
    → first_run_of v ≡ some o
    → (run : Fields) × (more : Items) × (v ≡ arr (cons (obj run) more)) × (o ≡ entries run)
first_run-entries (arr (cons (obj run) more)) o e = (run, more, refl, cc)
first_run-entries (arr (cons (arr vs) more)) o e = absurd (cc (e))
first_run-entries (arr (cons (str t) more)) o e = absurd (cc (e))
first_run-entries (arr (cons (int z) more)) o e = absurd (cc (e))
first_run-entries (arr (cons (float t) more)) o e = absurd (cc (e))
first_run-entries (arr (cons (bool b) more)) o e = absurd (cc (e))
first_run-entries (arr (cons null more)) o e = absurd (cc (e))
first_run-entries (arr nil) o e = absurd (cc (e))
first_run-entries (obj fs) o e = absurd (cc (e))
first_run-entries (str t) o e = absurd (cc (e))
first_run-entries (int z) o e = absurd (cc (e))
first_run-entries (float t) o e = absurd (cc (e))
first_run-entries (bool b) o e = absurd (cc (e))
first_run-entries null o e = absurd (cc (e))

pub sarif_results-ResultsOf :
    (s : Object) (rs : List Value)
    → sarif_results (some s) ≡ some rs
    → any_drift rs ≡ some false
    → ResultsOf s rs
unfolding sarif_results list_or_empty
sarif_results-ResultsOf s rs h clean = of_runs (lookup "runs" s) refl h
  where
    of_results :
        (run : Fields) (more : Items)
        → lookup "runs" s ≡ some (arr (cons (obj run) more))
        → list_or_empty "results" (entries run) ≡ some rs
        → ResultsOf s rs
    of_results run more e f = elim (Option-cases (lookup "results" (entries run))) [
      | inl missing ↦
          subst (ResultsOf s) (some-inj [] rs (rw (missing, list_or_empty) at f))
            (no_results run more e missing)
      | inr (v, there) ↦ elim (Bool-cases (is_falsy v)) [
        | inl falsy ↦
            subst (ResultsOf s) (some-inj [] rs (rw (there, falsy, list_or_empty) at f))
              (empty_results run more v e there falsy)
        | inr truthy ↦
            let (found, is_list, same) =
              listed-items v rs truthy (rw (there, truthy, list_or_empty) at f) clean in
            subst (ResultsOf s) (sym same) (results run more found e (there ∙ ap some is_list))
      ]
    ]

    of_runs :
        (o : Option Value) → lookup "runs" s ≡ o → results_of_runs o ≡ some rs → ResultsOf s rs
    of_runs none e f = subst (ResultsOf s) (some-inj [] rs f) (no_runs e)
    of_runs (some v) e f = elim (Bool-cases (is_falsy v)) [
      | inl falsy ↦
          subst (ResultsOf s) (some-inj [] rs (rw (falsy, results_of_runs) at f))
            (empty_runs v e falsy)
      | inr truthy ↦ elim (Option-cases (first_run_of v)) [
        | inl missing ↦ absurd (cc (rw (truthy, missing, results_of_runs) at f))
        | inr (o', there) ↦
            let (run, more, same, same') = first_run-entries v o' there in
            of_results run more (e ∙ ap some same) (
              subst (λ (o : Object). list_or_empty "results" o ≡ some rs) same'
                (rw (truthy, there, results_of_runs) at f))
      ]
    ]
