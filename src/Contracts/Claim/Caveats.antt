-- ===== src/Contracts/Claim/Caveats.antt =====
-- Which caveats inherited_caveats gives: those of the ancestors.
use agent_perimeter.Prelude.{
  ◌≡◌, refl, ap, ◌∙◌, ◌↔◌, String, Bool, true, ◌||◌, Option, none, some, ◌++◌, arith, Bool-cases,
  inl, inr, contains, contains-append, string_eq, beq_refl,
}
use agent_perimeter.Contracts.Claim.{
  Claim, claim, Parents, no_more, parent, parents, caveat, held, inherited_caveats, caveats_from,
}
use agent_perimeter.Contracts.Claim.Ancestry.{Parent, first, later}

-- A claim is an ancestor of every claim that names it as a parent, or names a descendant of it.
pub data Ancestor (b : Claim) : Parents → Type 0 where
  direct : {ps : Parents} → Parent b ps → Ancestor b ps
  indirect : {p : Claim} {ps : Parents} → Parent p ps → Ancestor b (parents p) → Ancestor b ps

contains-held : (k : String) (o : Option String) → contains k (held o) ≡ true → o ≡ some k
contains-held k none h = absurd (cc)
contains-held k (some j) h = ap some (let e = string_eq.equal_iff k j in ground (arith, h, e))

held-contains : (k : String) (o : Option String) → o ≡ some k → contains k (held o) ≡ true
held-contains k o e = rw (e, beq_refl k) refl

inherited_caveats-parents : (c : Claim) → inherited_caveats c ≡ caveats_from (parents c)
unfolding inherited_caveats
inherited_caveats-parents (claim v m d c o ps k) = refl

-- where a caveat among those of the first parent and the others comes from
abbrev at_first : String → Claim → Parents → Bool
at_first k p ps =
    contains k (held (caveat p))
    || (contains k (inherited_caveats p) || contains k (caveats_from ps))

caveats_from-parent :
    (k : String) (p : Claim) (ps : Parents)
    → contains k (caveats_from (parent p ps)) ≡ at_first k p ps
unfolding caveats_from inherited_caveats
caveats_from-parent k p ps =
    let whole = contains-append k (held (caveat p) ++ inherited_caveats p) (caveats_from ps) in
    let own = contains-append k (held (caveat p)) (inherited_caveats p) in
    whole ∙ ground (arith, own)

caveats_from-Parent :
    (k : String) (b : Claim) (ps : Parents)
    → Parent b ps
    → ((caveat b ≡ some k) → contains k (caveats_from ps) ≡ true)
      × (contains k (caveats_from (parents b)) ≡ true → contains k (caveats_from ps) ≡ true)
caveats_from-Parent k b _ (first {ps}) = (
  λ e. caveats_from-parent k b ps ∙ rw (held-contains k (caveat b) e) (ground arith),
  λ h.
      caveats_from-parent k b ps
      ∙ (let own = ap (contains k) (inherited_caveats-parents b) ∙ h in ground (arith, own)),
)
caveats_from-Parent k b _ (later {q} {ps} up) = (
  λ e.
      caveats_from-parent k q ps
      ∙ (let rest = (caveats_from-Parent k b ps up).0 e in ground (arith, rest)),
  λ h.
      caveats_from-parent k q ps
      ∙ (let rest = (caveats_from-Parent k b ps up).1 h in ground (arith, rest)),
)

caveats_from-Ancestor :
    (k : String) (b : Claim) (ps : Parents)
    → Ancestor b ps
    → caveat b ≡ some k
    → contains k (caveats_from ps) ≡ true
caveats_from-Ancestor k b ps (direct up) e = (caveats_from-Parent k b ps up).0 e
caveats_from-Ancestor k b ps (indirect {p} up above) e =
    (caveats_from-Parent k p ps up).1 (caveats_from-Ancestor k b (parents p) above e)

abbrev Source : String → Parents → Type 0
Source k ps = (b : Claim) × Ancestor b ps × (caveat b ≡ some k)

one_more : (k : String) (q : Claim) (ps : Parents) → Source k ps → Source k (parent q ps)
one_more k q ps (b, direct up, e) = (b, direct (later up), e)
one_more k q ps (b, indirect up above, e) = (b, indirect (later up) above, e)

mutual
  unfolding inherited_caveats caveats_from

  from_ancestor :
      (k : String) (c : Claim) → contains k (inherited_caveats c) ≡ true → Source k (parents c)
  from_ancestor k (claim v m d c o ps w) h = from_above k ps h

  from_above : (k : String) (ps : Parents) → contains k (caveats_from ps) ≡ true → Source k ps
  from_above k no_more h = absurd (cc)
  from_above k (parent p ps) h = elim (Bool-cases (contains k (held (caveat p)))) [
    | inl own ↦ (p, direct first, contains-held k (caveat p) own)
    | inr other ↦ elim (Bool-cases (contains k (inherited_caveats p))) [
      | inl above ↦ let (b, up, e) = from_ancestor k p above in (b, indirect first up, e)
      | inr beyond ↦ one_more k p ps (
          from_above k ps
            (let e = caveats_from-parent k p ps in ground (arith, h, e, other, beyond)))
    ]
  ]

-- A claim inherits exactly the caveats of its ancestors, however far up they stand.
pub inherited_caveats_iff :
    (c : Claim) (k : String)
    → (contains k (inherited_caveats c) ≡ true)
      ↔ ((b : Claim) × Ancestor b (parents c) × (caveat b ≡ some k))
inherited_caveats_iff c k = (
  from_ancestor k c,
  λ s.
      ap (contains k) (inherited_caveats-parents c)
      ∙ caveats_from-Ancestor k s.0 (parents c) s.1 s.2,
)
