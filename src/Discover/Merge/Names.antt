-- ===== src/Discover/Merge/Names.antt =====
-- What `merge_page` makes of the listing: its names in first-seen order, and the records under
-- each name.
use agent_perimeter.Prelude.{
  ℕ, zero, suc, String, ◌≡◌, refl, ◌∙◌, sym, ap, not, none, some, List, [], ◌∷◌, ◌++◌, arith,
  eq_iff, ◌==◌, string_eq, lookup, has_key, set, filter, if◌then◌else◌, Option-cases, inl, inr,
}
use mathlib.Core.List.{append_assoc, append-nil}
use agent_perimeter.Discover.Parse.{ToolRecord}
use agent_perimeter.Discover.Merge.{Merged, merge_record, merge_records, merge_page}
use agent_perimeter.Discover.Merge.Slots.{
  names, position, names-set, names-append, IsIndex, IsKnown, merge_record-IsKnown,
}

-- the names that no earlier page listed
abbrev pub fresh : Merged → List String → List String
fresh before = filter (λ n. not (has_key n before.index))

-- the records under one name, in order
abbrev pub copies : String → List ToolRecord → List ToolRecord
copies n = filter (λ r. n == r.name)

-- the last of a list, or the default
abbrev pub last_or {ℓ} : {A : Type ℓ} → A → List A → A
last_or c [] = c
last_or c (r ∷ rs) = last_or r rs

-- The first of the old copies gives way to the newest one, and the others stay.
abbrev pub latest : List ToolRecord → List ToolRecord → List ToolRecord
latest [] page = []
latest (c ∷ cs) page = last_or c page ∷ cs

names-merge_record :
    (before m : Merged) (r : ToolRecord)
    → IsKnown before m
    → names (merge_record before.index r m).records ≡ names m.records ++ fresh before (r.name ∷ [])
unfolding merge_record
names-merge_record before m r k = elim (Option-cases (lookup r.name before.index)) [
  | inl new ↦ rw (new, merge_record) (ground (arith, new, names-append m.records (r ∷ [])))
  | inr (slot, old) ↦
      rw (old, merge_record)
        (ground (
          arith,
          old,
          names-set m.records slot r (k r.name slot old),
          append-nil (names m.records),
        ))
]

names-merge_records :
    (before m : Merged) (page : List ToolRecord)
    → IsKnown before m
    → names (merge_records before.index page m).records
      ≡ names m.records ++ fresh before (names page)
unfolding merge_records
names-merge_records before m [] k = sym (append-nil (names m.records))
names-merge_records before m (r ∷ page) k = ground (
  arith,
  names-merge_records before (merge_record before.index r m) page
      (merge_record-IsKnown before m r k),
  names-merge_record before m r k,
  append_assoc (names m.records) (fresh before (r.name ∷ [])) (fresh before (names page)),
)

-- A page adds to the listed names those that no earlier page had, at the end and in the page's
-- order, each as often as the page has it.
pub names-merge_page :
    (page : List ToolRecord) (m : Merged)
    → IsIndex m
    → names (merge_page page m).records ≡ names m.records ++ fresh m (names page)
unfolding merge_page
names-merge_page page m h = names-merge_records m m page (λ n i e. cc (h n))

copies-append :
    (n : String) (rs qs : List ToolRecord) → copies n (rs ++ qs) ≡ copies n rs ++ copies n qs
copies-append n [] qs = refl
copies-append n (r ∷ rs) qs = ground (arith, copies-append n rs qs)

copies_absent :
    (n : String) (rs : List ToolRecord) → position n (names rs) ≡ none → copies n rs ≡ []
copies_absent n [] h = refl
copies_absent n (r ∷ rs) h = ground (arith, copies_absent n rs)

copies-set :
    (n : String) (rs : List ToolRecord) (slot : ℕ) (r : ToolRecord)
    → position r.name (names rs) ≡ some slot
    → copies n (set rs slot r)
      ≡ (if n == r.name then latest (copies n rs) (r ∷ []) else copies n rs)
copies-set n [] slot r h = ground arith
copies-set n (q ∷ rs) zero r h =
    ground (arith, eq_iff n r.name, eq_iff r.name q.name, eq_iff n q.name)
copies-set n (q ∷ rs) (suc slot) r h =
    ground (arith, eq_iff n r.name, eq_iff r.name q.name, eq_iff n q.name, copies-set n rs slot r)

latest-nil : (cs : List ToolRecord) → latest cs [] ≡ cs
latest-nil [] = refl
latest-nil (c ∷ cs) = refl

last_or-append {ℓ} :
    {A : Type ℓ} (c : A) (xs ys : List A) → last_or c (xs ++ ys) ≡ last_or (last_or c xs) ys
last_or-append c [] ys = refl
last_or-append c (x ∷ xs) ys = last_or-append x xs ys

latest-latest : (cs ps qs : List ToolRecord) → latest (latest cs ps) qs ≡ latest cs (ps ++ qs)
latest-latest [] ps qs = refl
latest-latest (c ∷ cs) ps qs = ap (λ d. d ∷ cs) (sym (last_or-append c ps qs))

copies-merge_record :
    (n : String) (before m : Merged) (r : ToolRecord)
    → IsKnown before m
    → copies n (merge_record before.index r m).records ≡ (
        if has_key n before.index
        then latest (copies n m.records) (copies n (r ∷ []))
        else copies n m.records ++ copies n (r ∷ []))
unfolding merge_record
copies-merge_record n before m r k = elim (Option-cases (lookup r.name before.index)) [
  | inl new ↦
      rw (new, merge_record)
        (ground (
          arith,
          new,
          eq_iff n r.name,
          copies-append n m.records (r ∷ []),
          latest-nil (copies n m.records),
          append-nil (copies n m.records),
        ))
  | inr (slot, old) ↦
      rw (old, merge_record)
        (ground (
          arith,
          old,
          eq_iff n r.name,
          copies-set n m.records slot r (k r.name slot old),
          latest-nil (copies n m.records),
          append-nil (copies n m.records),
        ))
]

copies_step :
    (n : String) (before m m' : Merged) (r : ToolRecord) (page : List ToolRecord)
    → copies n m'.records ≡ (
        if has_key n before.index
        then latest (copies n m.records) (copies n (r ∷ []))
        else copies n m.records ++ copies n (r ∷ []))
    → (if has_key n before.index
        then latest (copies n m'.records) (copies n page)
        else copies n m'.records ++ copies n page)
      ≡ (if has_key n before.index
          then latest (copies n m.records) (copies n (r ∷ page))
          else copies n m.records ++ copies n (r ∷ page))
copies_step n before m m' r page e = rw e (
    ground (
      arith,
      copies-append n (r ∷ []) page,
      latest-latest (copies n m.records) (copies n (r ∷ [])) (copies n page),
      append_assoc (copies n m.records) (copies n (r ∷ [])) (copies n page),
    ))

copies-merge_records :
    (n : String) (before m : Merged) (page : List ToolRecord)
    → IsKnown before m
    → copies n (merge_records before.index page m).records ≡ (
        if has_key n before.index
        then latest (copies n m.records) (copies n page)
        else copies n m.records ++ copies n page)
unfolding merge_records
copies-merge_records n before m [] k =
    ground (arith, latest-nil (copies n m.records), append-nil (copies n m.records))
copies-merge_records n before m (r ∷ page) k =
    let m' = merge_record before.index r m in
    copies-merge_records n before m' page (merge_record-IsKnown before m r k)
    ∙ copies_step n before m m' r page (copies-merge_record n before m r k)

-- Under each name: if an earlier page had it, the first record gives way to the page's last one of
-- that name, and any others stay; if not, the listing has exactly the page's records of that name.
pub copies-merge_page :
    (n : String) (page : List ToolRecord) (m : Merged)
    → IsIndex m
    → copies n (merge_page page m).records
      ≡ (if has_key n m.index then latest (copies n m.records) (copies n page) else copies n page)
unfolding merge_page
copies-merge_page n page m h =
    ground
      (arith, copies-merge_records n m m page (λ n i e. cc (h n)), h n, copies_absent n m.records)
