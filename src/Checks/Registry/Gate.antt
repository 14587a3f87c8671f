-- ===== src/Checks/Registry/Gate.antt =====
-- `applicable` drops no check, gates every active one, and skips for a reason that holds.
use agent_perimeter.Prelude.{
  ◌≡◌, refl, sym, subst, ◌∙◌, true, false, not, ◌&&◌, none, some, List, [], ◌∷◌, filter, contains,
  All, ◌↔◌, ◌≢◌, arith, Option-cases, Bool-cases, inl, inr,
}
use agent_perimeter.Model.Feature.{Feature, feature_eq}
use agent_perimeter.Model.Scope.{Authorises, require_scope, require_scope_iff}
use agent_perimeter.Checks.Registry.{
  Check, SkipReason, Situation, Skipped, Detail, skip, refused, no_model_provider, partial_listing,
  baseline_absent, present, is_present, missing_features, later_skip, authorisation_skip, skip_of,
  applicable, feature_absent, not_authorised, model_unavailable, no_baseline, listing_incomplete,
}

-- What a check needs of the scan, stated apart from the code's order of tests.
pub record IsRunnable (s : Situation) (check : Check) : Type 0 where
  pub observed : All (λ f. contains f s.features ≡ true) check.requires_features
  pub judged : check.requires_model ≡ true → s.models_available ≡ true
  pub listed : check.requires_baseline ≡ true → s.listing_complete ≡ true
  pub compared : check.requires_baseline ≡ true → s.baseline_status ≡ present
  pub authorised : check.requires_auth ≡ true → Authorises s.scope s.target s.today

module _ (have : List Feature) where
  abbrev lacking : List Feature → List Feature
  lacking = filter (λ f. not (contains f have))

  lacking→All : (fs : List Feature) → lacking fs ≡ [] → All (λ f. contains f have ≡ true) fs
  lacking→All [] h = tt
  lacking→All (f ∷ fs) h = ground (arith, lacking→All fs)

  All→lacking : (fs : List Feature) → All (λ f. contains f have ≡ true) fs → lacking fs ≡ []
  All→lacking [] h = refl
  All→lacking (f ∷ fs) h = ground (arith, All→lacking fs h.1)

module _ (s : Situation) (check : Check) where
  authorisation_skip_iff : (authorisation_skip s check ≡ none) ↔ Authorises s.scope s.target s.today
  authorisation_skip_iff = (
    λ h. (require_scope_iff s.scope check.id s.target s.today).0 (ground arith),
    λ a. rw ((require_scope_iff s.scope check.id s.target s.today).1 a, authorisation_skip),
  )

  later_skip→IsRunnable :
      later_skip s check ≡ none
      → All (λ f. contains f s.features ≡ true) check.requires_features
      → IsRunnable s check
  later_skip→IsRunnable h seen = record {
    observed = seen;
    judged = λ e. ground arith;
    listed = λ e. ground arith;
    compared = λ e. ground arith;
    authorised = λ e. authorisation_skip_iff.0 (ground arith);
  }

  IsRunnable→later_skip : IsRunnable s check → later_skip s check ≡ none
  IsRunnable→later_skip r = elim (Bool-cases check.requires_auth) [
    | inl active ↦
        rw (active, later_skip, authorisation_skip_iff.1 (r.authorised active))
          (ground (arith, r.judged, r.listed, r.compared))
    | inr passive ↦ ground (arith, r.judged, r.listed, r.compared)
  ]

  skip_of-nil : missing_features s check ≡ [] → skip_of s check ≡ later_skip s check
  unfolding skip_of
  skip_of-nil h = rw (h, skip_of)

  skip_of→nil : skip_of s check ≡ none → missing_features s check ≡ []
  unfolding skip_of
  skip_of→nil h = ground arith

  pub skip_of_iff : (skip_of s check ≡ none) ↔ IsRunnable s check
  skip_of_iff = (
    λ h.
        let e = skip_of→nil h in
        later_skip→IsRunnable (sym (skip_of-nil e) ∙ h)
          (lacking→All s.features check.requires_features e),
    λ r.
        skip_of-nil (All→lacking s.features check.requires_features r.observed)
        ∙ IsRunnable→later_skip r,
  )

-- What each reason says.
abbrev pub Holds : Situation → Check → SkipReason → Type 0
Holds s check feature_absent =
    (f : Feature) × (contains f check.requires_features ≡ true) × (contains f s.features ≡ false)
Holds s check model_unavailable = (check.requires_model ≡ true) × (s.models_available ≡ false)
Holds s check listing_incomplete = (check.requires_baseline ≡ true) × (s.listing_complete ≡ false)
Holds s check no_baseline =
    (check.requires_baseline ≡ true) × (s.listing_complete ≡ true) × (s.baseline_status ≢ present)
Holds s check not_authorised = (check.requires_auth ≡ true) × ¬ Authorises s.scope s.target s.today

-- Every check goes, in order, to one of the two lists.
pub data Split (s : Situation) : List Check → List Check → List Skipped → Type 0 where
  done : Split s [] [] []
  runs :
      {checks runnable : List Check} {skipped : List Skipped} (check : Check)
      → IsRunnable s check
      → Split s checks runnable skipped
      → Split s (check ∷ checks) (check ∷ runnable) skipped
  skips :
      {checks runnable : List Check} {skipped : List Skipped} (check : Check) (why : Skipped)
      → ¬ IsRunnable s check
      → why.check_id ≡ check.id
      → Holds s check why.reason
      → Split s checks runnable skipped
      → Split s (check ∷ checks) runnable (why ∷ skipped)

first_lacking :
    (have : List Feature) (f : Feature) (fs missing : List Feature)
    → lacking have fs ≡ f ∷ missing
    → (contains f fs ≡ true) × (contains f have ≡ false)
first_lacking have f [] missing h = absurd (ground arith)
first_lacking have f (g ∷ fs) missing h =
    ground (arith, first_lacking have f fs missing, feature_eq.equal_iff f g)

module _ (s : Situation) (check : Check) (why : Skipped) where
  abbrev Explains : Type 0
  Explains = (why.check_id ≡ check.id) × Holds s check why.reason

  skip-Explains :
      (reason : SkipReason) (detail : Detail)
      → skip check reason detail ≡ some why
      → Holds s check reason
      → Explains
  skip-Explains reason detail h holds =
      let same : reason ≡ why.reason = ground arith in
      (ground arith, subst (Holds s check) same holds)

  authorisation_skip-Explains :
      check.requires_auth ≡ true → authorisation_skip s check ≡ some why → Explains
  authorisation_skip-Explains active h =
      elim (Option-cases (require_scope s.scope check.id s.target s.today)) [
        | inl passes ↦ absurd (ground arith)
        | inr (refusal, e) ↦
            skip-Explains not_authorised (refused refusal) (rw (e, authorisation_skip) at h)
              (active, λ a. cc (e, (require_scope_iff s.scope check.id s.target s.today).1 a))
      ]

  later_skip-Explains : later_skip s check ≡ some why → Explains
  later_skip-Explains h = elim (Bool-cases (check.requires_model && not s.models_available)) [
    | inl e ↦
        skip-Explains model_unavailable no_model_provider (rw (e, later_skip) at h) (ground arith)
    | inr e ↦ elim (Bool-cases (check.requires_baseline && not s.listing_complete)) [
      | inl e₂ ↦
          skip-Explains listing_incomplete partial_listing (rw (later_skip, e, e₂) at h)
            (ground arith)
      | inr e₂ ↦ elim (Bool-cases (check.requires_baseline && not (is_present s.baseline_status))) [
        | inl e₃ ↦
            skip-Explains no_baseline (baseline_absent s.baseline_status)
              (rw (later_skip, e, e₂, e₃) at h) (ground arith, ground arith, λ p. ground (arith, p))
        | inr e₃ ↦ elim (Bool-cases check.requires_auth) [
          | inl active ↦
              authorisation_skip-Explains active (rw (later_skip, e, e₂, e₃, active) at h)
          | inr passive ↦ absurd (ground arith)
        ]
      ]
    ]
  ]

  skip_of-Explains : skip_of s check ≡ some why → Explains
  unfolding skip_of
  skip_of-Explains h = by_missing (missing_features s check) refl
    where
      by_missing : (fs : List Feature) → missing_features s check ≡ fs → Explains
      by_missing [] e = later_skip-Explains (sym (skip_of-nil s check e) ∙ h)
      by_missing (f ∷ fs) e =
          let (needed, absent) = first_lacking s.features f check.requires_features fs e in
          skip-Explains feature_absent _ (rw (e, skip_of) at h) (f, needed, absent)

-- Every check is either runnable, and then everything that it needs of the scan holds, or skipped
-- under its own id, for a reason that holds; both lists keep the order and nothing else is in them.
pub applicable-Split :
    (s : Situation) (checks : List Check)
    → let (runnable, skipped) = applicable s checks in Split s checks runnable skipped
unfolding applicable
applicable-Split s [] = done
applicable-Split s (check ∷ checks) = elim (Option-cases (skip_of s check)) [
  | inl h ↦ rw (h, applicable) (runs check ((skip_of_iff s check).0 h) (applicable-Split s checks))
  | inr (why, h) ↦
      let (same, holds) = skip_of-Explains s check why h in
      rw (h, applicable)
        (skips check why (λ r. cc ((skip_of_iff s check).1 r, h)) same holds
          (applicable-Split s checks))
]
