-- ===== src/Contracts/Claim/Ancestry.antt =====
-- The ancestors of a claim: how far its confidence is bounded by theirs, and which caveats it inherits.
use mathlib.Core.List.{Memᴰ}
use mathlib.Core.List.Memᴰ
use agent_perimeter.Prelude.{
  ℕ, ◌≤◌, ◌≡◌, ◌≢◌, refl, sym, ◌∙◌, true, false, Option, none, some, List, [], ◌∷◌, ltb, arith,
  Bool-cases, ◌⊎◌, inl, inr, All, All-append,
}
use agent_perimeter.Contracts.Claim.{
  Claim, claim, Parents, no_more, parent, derived, Confidence, nan, rank, exceeds, method,
  confidence, parents, is_root, held, parent_confidences, min_from, within, is_accepted,
}

pub data Parent (p : Claim) : Parents → Type 0 where
  first : {ps : Parents} → Parent p (parent p ps)
  later : {q : Claim} {ps : Parents} → Parent p ps → Parent p (parent q ps)

-- No parent states NaN.
abbrev pub NoNan : Parents → Type 0
NoNan ps = (p : Claim) → Parent p ps → confidence p ≢ some nan

-- A claim and one that it is derived from, over claims that pass the check, that are derived
-- themselves and that all state a confidence, which is NaN for none of them and none of their
-- parents.
pub data DerivedFrom (b : Claim) : Claim → ℕ → Type 0 where
  itself : {n : ℕ} → confidence b ≡ some (rank n) → DerivedFrom b b n
  through :
      {a p : Claim} {n m : ℕ}
      → is_accepted a ≡ true
      → method a ≡ derived
      → confidence a ≡ some (rank n)
      → NoNan (parents a)
      → Parent p (parents a)
      → DerivedFrom b p m
      → DerivedFrom b a n

states_confidence : {b a : Claim} {n : ℕ} → DerivedFrom b a n → confidence a ≡ some (rank n)
states_confidence (itself e) = e
states_confidence (through acc der e clean up rest) = e

abbrev IsRank : Confidence → Type 0
IsRank nan = ⊥
IsRank (rank n) = Unit

-- At most, for two that are no NaN.
abbrev AtMost : Confidence → ℕ → Type 0
AtMost nan m = ⊥
AtMost (rank n) m = n ≤ m

rank-inj : (n m : ℕ) → ◌≡◌ {A = Confidence} (rank n) (rank m) → n ≡ m
rank-inj n m e = cc

-- The lowest of some ranks is at most each of them.
min_from-AtMost :
    (n m : ℕ) (cs : List Confidence)
    → All IsRank cs
    → (n ≤ m) ⊎ Memᴰ (rank m) cs
    → AtMost (min_from (rank n) cs) m
min_from-AtMost n m [] h (inl low) = low
min_from-AtMost n m [] h (inr there) = absurd (Memᴰ.not-nil there)
min_from-AtMost n m (nan ∷ cs) h o = absurd h.0
min_from-AtMost n m (rank k ∷ cs) h o = elim (Bool-cases (ltb k n)) [
  | inl less ↦ rw (less, min_from) (min_from-AtMost k m cs h.1 (smaller less o))
  | inr other ↦ rw (other, min_from) (min_from-AtMost n m cs h.1 (kept other o))
]
  where
    smaller : ltb k n ≡ true → (n ≤ m) ⊎ Memᴰ (rank m) (rank k ∷ cs) → (k ≤ m) ⊎ Memᴰ (rank m) cs
    smaller less (inl low) = inl (ground arith)
    smaller less (inr there) = elim (Memᴰ.cases_cons there) [
      | inl same ↦ inl (let e = rank-inj m k same in omega (arith, e))
      | inr later_ ↦ inr later_
    ]

    kept : ltb k n ≡ false → (n ≤ m) ⊎ Memᴰ (rank m) (rank k ∷ cs) → (n ≤ m) ⊎ Memᴰ (rank m) cs
    kept other (inl low) = inl low
    kept other (inr there) = elim (Memᴰ.cases_cons there) [
      | inl same ↦ inl (let e = rank-inj m k same in ground (arith, e, other))
      | inr later_ ↦ inr later_
    ]

parent_confidences-Parent :
    (p : Claim) (c : Confidence) (ps : Parents)
    → Parent p ps
    → confidence p ≡ some c
    → Memᴰ c (parent_confidences ps)
unfolding parent_confidences
parent_confidences-Parent p c _ (first {ps}) e = rw e (Memᴰ.head refl)
parent_confidences-Parent p c _ (later {q} {ps} up) e =
    Memᴰ.append_right (held (confidence q)) (parent_confidences-Parent p c ps up e)

held-IsRank : (o : Option Confidence) → o ≢ some nan → All IsRank (held o)
held-IsRank none h = tt
held-IsRank (some nan) h = absurd (h refl)
held-IsRank (some (rank n)) h = (tt, tt)

parent_confidences-IsRank : (ps : Parents) → NoNan ps → All IsRank (parent_confidences ps)
unfolding parent_confidences
parent_confidences-IsRank no_more h = tt
parent_confidences-IsRank (parent p ps) h =
    All-append IsRank (held (confidence p)) (parent_confidences ps)
      (held-IsRank (confidence p) (h p first))
      (parent_confidences-IsRank ps (λ q up. h q (later up)))

is_root-Parent : (p : Claim) (ps : Parents) → Parent p ps → is_root ps ≡ false
is_root-Parent p _ first = refl
is_root-Parent p _ (later up) = refl

not_exceeding : (n m : ℕ) (c : Confidence) → exceeds (rank n) c ≡ false → AtMost c m → n ≤ m
not_exceeding n m nan e h = absurd h
not_exceeding n m (rank k) e h = ground (arith, e, h)

within-AtMost :
    (n m : ℕ) (cs : List Confidence)
    → within (some (rank n)) cs ≡ true
    → All IsRank cs
    → Memᴰ (rank m) cs
    → n ≤ m
unfolding within
within-AtMost n m [] w h there = absurd (Memᴰ.not-nil there)
within-AtMost n m (nan ∷ cs) w h there = absurd h.0
within-AtMost n m (rank k ∷ cs) w h there =
    not_exceeding n m (min_from (rank k) cs) (ground (arith, w))
      (min_from-AtMost k m cs h.1 (in_tail (Memᴰ.cases_cons there)))
  where
    in_tail : (rank m ≡ rank k) ⊎ Memᴰ (rank m) cs → (k ≤ m) ⊎ Memᴰ (rank m) cs
    in_tail (inl same) = inl (let e = rank-inj m k same in omega (arith, e))
    in_tail (inr later_) = inr later_

is_accepted-Parent :
    (a p : Claim) (n m : ℕ)
    → is_accepted a ≡ true
    → method a ≡ derived
    → confidence a ≡ some (rank n)
    → NoNan (parents a)
    → Parent p (parents a)
    → confidence p ≡ some (rank m)
    → n ≤ m
unfolding is_accepted
is_accepted-Parent (claim v md d c o ps k) p n m acc der e clean up f =
    within-AtMost n m (parent_confidences ps) (rw (der, is_root-Parent p ps up, e) at acc)
      (parent_confidences-IsRank ps clean) (parent_confidences-Parent p (rank m) ps up f)

some-rank-inj : (n m : ℕ) → ◌≡◌ {A = Option Confidence} (some (rank n)) (some (rank m)) → n ≡ m
some-rank-inj n m e = cc

-- A claim is never trusted more than what it is derived from: if it is reached from another over
-- claims that pass the check, are derived and state a confidence, as the other does, and if neither
-- they nor their parents state NaN, then its confidence is at most that of the other.
pub is_accepted-DerivedFrom :
    (b a : Claim) (n m : ℕ) → DerivedFrom b a n → confidence b ≡ some (rank m) → n ≤ m
is_accepted-DerivedFrom b _ n m (itself e) f =
    let same = some-rank-inj n m (sym e ∙ f) in omega (arith, same)
is_accepted-DerivedFrom b _ _ l (through {a} {p} {n} {m} acc der e clean up rest) f =
    let step = is_accepted-Parent a p n m acc der e clean up (states_confidence rest) in
    let beyond = is_accepted-DerivedFrom b p m l rest f in omega (arith, step, beyond)
