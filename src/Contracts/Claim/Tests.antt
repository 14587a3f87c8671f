-- ===== src/Contracts/Claim/Tests.antt =====
-- Claims derived from one another, and uses of the theorems on them.
use agent_perimeter.Prelude.{
  ◌≡◌, refl, ◌≤◌, ◌↔◌, true, none, some, [], ◌∷◌, contains, string_eq, false,
}
use agent_perimeter.Json.{null}
use agent_perimeter.Contracts.Claim.{
  Claim, claim, no_more, nan, rank, parent, deterministic, derived, parents, caveat,
  parent_confidences, within, is_accepted, inherited_caveats,
}
use agent_perimeter.Contracts.Claim.Ancestry.{
  NoNan, later, first, DerivedFrom, itself, through, is_accepted-DerivedFrom,
}
use agent_perimeter.Contracts.Claim.Caveats.{Ancestor, inherited_caveats_iff}

abbrev observed : Claim
observed = claim null deterministic none (some (rank 70)) 0 no_more (some "listing incomplete")

abbrev inferred : Claim
inferred = claim null derived none (some (rank 60)) 1 (parent observed no_more) (some "by name")

abbrev asserted : Claim
asserted = claim null deterministic none (some (rank 100)) 1 no_more (some "by hand")

abbrev concluded : Claim
concluded =
    claim null derived none (some (rank 60)) 2 (parent inferred (parent asserted no_more)) none

abbrev overconfident : Claim
overconfident =
    claim null derived none (some (rank 61)) 2 (parent inferred (parent asserted no_more)) none

overconfident_refused : is_accepted overconfident ≡ false
unfolding is_accepted within parent_confidences
overconfident_refused = refl

-- The second parent's caveat comes after that of the first parent's own parent.
depth_first : inherited_caveats concluded ≡ "by name" ∷ "listing incomplete" ∷ "by hand" ∷ []
unfolding inherited_caveats
depth_first = refl

inferred-NoNan : NoNan (parents inferred)
inferred-NoNan _ first e = cc
inferred-NoNan p (later up) e = elim up [ ]

concluded-NoNan : NoNan (parents concluded)
concluded-NoNan _ first e = cc
concluded-NoNan _ (later first) e = cc
concluded-NoNan p (later (later up)) e = elim up [ ]

concluded-DerivedFrom : DerivedFrom observed concluded 60
unfolding is_accepted within parent_confidences
concluded-DerivedFrom =
    through {p = inferred} refl refl refl concluded-NoNan first
      (through {p = observed} refl refl refl inferred-NoNan first (itself refl))

-- A parent that states NaN lets any confidence pass.
unbounded :
    is_accepted (
      claim null derived none
        (some (rank 90))
        1
        (parent (claim null deterministic none (some nan) 0 no_more none) (parent observed no_more))
        none)
    ≡ true
unfolding is_accepted within parent_confidences
unbounded = refl

is_accepted-DerivedFrom_example : 60 ≤ 70
is_accepted-DerivedFrom_example =
    is_accepted-DerivedFrom observed concluded 60 70 concluded-DerivedFrom refl

inherited_caveats_iff_example :
    (contains "listing incomplete" (inherited_caveats concluded) ≡ true)
    ↔ ((b : Claim) × Ancestor b (parents concluded) × (caveat b ≡ some "listing incomplete"))
inherited_caveats_iff_example = inherited_caveats_iff concluded "listing incomplete"
