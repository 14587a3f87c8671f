-- ===== src/Scan/Reports/Drift.antt =====
-- The drift events of a scan, where the comparison returns.
use agent_perimeter.Prelude.{
  ◌≡◌, refl, ◌∙◌, ap, ◌⊎◌, inl, inr, true, false, none, some, List, [], string_eq, Option-cases,
}
use agent_perimeter.Model.Snapshot.{ToolSnapshot}
use agent_perimeter.Drift.Compare.{
  DriftEvent, Outcome, events, other_target, not_an_int, compare_tools,
}
use agent_perimeter.Discover.Paging.{ToolListing}
use agent_perimeter.Scan.Setup.{Python, Arguments}
use agent_perimeter.Scan.Runner.{drift_of}

module _ (py : Python) (a : Arguments) where
  pub drift_of-compared :
      (listing : ToolListing) (drift : List DriftEvent) (b : ToolSnapshot)
      → drift_of py a listing ≡ some drift
      → a.baseline ≡ some b
      → listing.complete ≡ true
      → compare_tools py.arrange py.sha256 b a.target listing.tools a.now ≡ events drift
  unfolding drift_of
  drift_of-compared listing drift b h has complete =
      split (compare_tools py.arrange py.sha256 b a.target listing.tools a.now) refl
    where
      split :
          (o : Outcome)
          → compare_tools py.arrange py.sha256 b a.target listing.tools a.now ≡ o
          → compare_tools py.arrange py.sha256 b a.target listing.tools a.now ≡ events drift
      split (events found) e = e ∙ ap events (cc (rw (has, complete, e, drift_of) at h))
      split other_target e = absurd (cc (rw (has, complete, e, drift_of) at h))
      split not_an_int e = absurd (cc (rw (has, complete, e, drift_of) at h))

  pub drift_of-not_compared :
      (listing : ToolListing) (drift : List DriftEvent)
      → drift_of py a listing ≡ some drift
      → (a.baseline ≡ none) ⊎ (listing.complete ≡ false)
      → drift ≡ []
  unfolding drift_of
  drift_of-not_compared listing drift h (inl without) = cc (rw (without, drift_of) at h)
  drift_of-not_compared listing drift h (inr partial) = elim (Option-cases a.baseline) [
    | inl without ↦ cc (rw (without, drift_of) at h)
    | inr (b, has) ↦ cc (rw (has, partial, drift_of) at h)
  ]
