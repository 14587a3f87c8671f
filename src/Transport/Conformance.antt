-- ===== src/Transport/Conformance.antt =====
-- agent_perimeter/checks/revision/conformance_mismatch.py: what the claimed revision has that the
-- server does not show. A finding is what is particular to it.
use agent_perimeter.Prelude.{
  ◌≡◌, refl, ap, ◌∙◌, String, Bool, not, ◌&&◌, Option, none, some, List, [], ◌∷◌, filter, contains,
  occurrences, occurrences-sorted, occurrences-distinct, IsDistinct, IsDistinct-filter, map, sorted,
  ◌==◌, if◌then◌else◌, arith, Bool-cases, inl, inr,
}
use agent_perimeter.Contracts.{Severity, medium, low, info}
use agent_perimeter.Model.Feature.{
  Feature, server_discover, result_type, cacheable_result, feature_eq, feature_value, Revision,
  r2025_11_25, r2026_07_28, bundles,
}
use agent_perimeter.Checks.Registry.{text_le}
use agent_perimeter.Transport.Revision.{Fingerprint, passively_observable_features}

-- `SECURITY_CONSEQUENCE.get`, with its default
abbrev pub security_consequence : Feature → Severity × String
security_consequence result_type =
    (medium, "clients cannot distinguish a complete result from an input_required one")
security_consequence server_discover =
    (medium, "the mandatory discovery RPC is absent, so clients must guess capabilities")
security_consequence cacheable_result =
    (low, "cache lifetime and scope are unstated, so intermediaries decide for themselves")
security_consequence f = (info, "no security consequence identified")

pub record Mismatch : Type 0 where
  pub claimed : Revision
  pub feature : Feature
  pub severity : Severity
  pub consequence : String

abbrev pub mismatch : Revision → Feature → Mismatch
mismatch claimed f = record {
  claimed = claimed;
  feature = f;
  severity = (security_consequence f).0;
  consequence = (security_consequence f).1;
}

-- `(BUNDLES[claimed] & PASSIVELY_OBSERVABLE_FEATURES) - fingerprint.features`
abbrev pub missing : Revision → List Feature → List Feature
missing claimed shown =
    filter (λ f. contains f passively_observable_features && not (contains f shown))
      (bundles claimed)

abbrev pub by_value : Feature → Feature → Bool
by_value f g = text_le (feature_value f) (feature_value g)

abbrev pub mismatches_of : Option Revision → List Feature → List Mismatch
mismatches_of none shown = []
mismatches_of (some claimed) shown =
    map (mismatch claimed) (sorted by_value (missing claimed shown))

unfoldable pub conformance_mismatches : Fingerprint → List Mismatch
conformance_mismatches fp = mismatches_of fp.revision_claimed fp.features

contains-filter_iff :
    (p : Feature → Bool) (f : Feature) (fs : List Feature)
    → contains f (filter p fs) ≡ (contains f fs && p f)
contains-filter_iff p f [] = refl
contains-filter_iff p f (g ∷ fs) =
    let rest = contains-filter_iff p f fs in
    elim (Bool-cases (f == g)) [
      | inl same ↦
          let alike = ap p ((feature_eq.equal_iff f g).0 same) in
          elim (Bool-cases (p g)) [
            | inl kept ↦ rw (kept, same, alike ∙ kept) refl
            | inr dropped ↦ rw (dropped, same) (ground (arith, rest, alike, dropped))
          ]
      | inr other ↦ elim (Bool-cases (p g)) [
        | inl kept ↦ rw (kept, other) rest
        | inr dropped ↦ rw (dropped, other) rest
      ]
    ]

abbrev pub feature_of : Mismatch → Feature
feature_of m = m.feature

abbrev same_feature : Feature → Feature
same_feature f = f

feature_of-mismatch :
    (claimed : Revision) (fs : List Feature)
    → map feature_of (map (mismatch claimed) fs) ≡ map same_feature fs
feature_of-mismatch claimed [] = refl
feature_of-mismatch claimed (f ∷ fs) = ap (f ∷◌) (feature_of-mismatch claimed fs)

map-same_feature : (fs : List Feature) → map same_feature fs ≡ fs
map-same_feature [] = refl
map-same_feature (f ∷ fs) = ap (f ∷◌) (map-same_feature fs)

bundles-IsDistinct : (r : Revision) → IsDistinct (bundles r)
bundles-IsDistinct r2025_11_25 = (refl, (refl, (refl, (refl, tt))))
bundles-IsDistinct r2026_07_28 = (refl, (refl, (refl, (refl, (refl, (refl, (refl, tt)))))))

-- The claimed revision has the feature, the scanner can observe it, and the server did not show it.
abbrev pub is_missing : Revision → Fingerprint → Feature → Bool
is_missing claimed fp f =
    contains f (bundles claimed)
    && (contains f passively_observable_features && not (contains f fp.features))

-- Where a revision is claimed, each feature of its bundle that the scanner can observe and that the
-- server did not show is reported once, and no other feature is.
pub conformance_mismatches-is_missing :
    (fp : Fingerprint) (claimed : Revision) (f : Feature)
    → fp.revision_claimed ≡ some claimed
    → occurrences f (map feature_of (conformance_mismatches fp))
      ≡ (if is_missing claimed fp f then 1 else 0)
unfolding conformance_mismatches
conformance_mismatches-is_missing fp claimed f e =
    let test : Feature → Bool =
      λ g. contains g passively_observable_features && not (contains g fp.features) in
    let left = missing claimed fp.features in
    ap (λ (o : Option Revision). occurrences f (map feature_of (mismatches_of o fp.features))) e
    ∙ ap (occurrences f) (feature_of-mismatch claimed (sorted by_value left))
    ∙ occurrences-sorted by_value same_feature f left
    ∙ ap (occurrences f) (map-same_feature left)
    ∙ occurrences-distinct f left
        (IsDistinct-filter test (bundles claimed) (bundles-IsDistinct claimed))
    ∙ rw (contains-filter_iff test f (bundles claimed)) refl
