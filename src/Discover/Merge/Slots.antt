-- ===== src/Discover/Merge/Slots.antt =====
-- The slots of `merge_page`: `index` leads every listed name to its first record, and no other.
use mathlib.Core.Option
use agent_perimeter.Prelude.{
  ℕ, zero, suc, String, ◌≡◌, refl, ap, Option, none, some, List, [], ◌∷◌, ◌++◌, arith, eq_iff, ◌==◌,
  string_eq, lookup, Table, lookup-insert, length, set, if◌then◌else◌, Option-cases, inl, inr,
}
use agent_perimeter.Discover.Parse.{ToolRecord}
use agent_perimeter.Discover.Merge.{Merged, merge_record, merge_records, merge_page, set_default}

abbrev pub names : List ToolRecord → List String
names [] = []
names (r ∷ rs) = r.name ∷ names rs

-- The first place of a name.
abbrev pub position : String → List String → Option ℕ
position n [] = none
position n (x ∷ xs) = if n == x then some 0 else Option.map suc (position n xs)

-- The value that is kept, or else the value for a new entry.
abbrev pub or_new : Option ℕ → Option ℕ → Option ℕ
or_new none new = new
or_new (some i) new = some i

pub position-snoc :
    (n x : String) (xs : List String)
    → position n (xs ++ x ∷ []) ≡ or_new (position n xs) (if n == x then some (length xs) else none)
position-snoc n x [] = ground arith
position-snoc n x (y ∷ ys) = ground (arith, position-snoc n x ys)

pub names-append : (rs qs : List ToolRecord) → names (rs ++ qs) ≡ names rs ++ names qs
names-append [] qs = refl
names-append (r ∷ rs) qs = ap (λ ns. r.name ∷ ns) (names-append rs qs)

pub length-names : (rs : List ToolRecord) → length (names rs) ≡ length rs
length-names [] = refl
length-names (r ∷ rs) = ap suc (length-names rs)

-- A record put over one of its own name leaves the names as they are.
pub names-set :
    (rs : List ToolRecord) (slot : ℕ) (r : ToolRecord)
    → position r.name (names rs) ≡ some slot
    → names (set rs slot r) ≡ names rs
names-set [] slot r h = refl
names-set (q ∷ rs) zero r h = ground (arith, eq_iff r.name q.name)
names-set (q ∷ rs) (suc slot) r h = ground (arith, names-set rs slot r)

abbrev pub IsIndex : Merged → Type 0
IsIndex m = (n : String) → lookup n m.index ≡ position n (names m.records)

-- The slots that earlier pages gave still hold their names.
abbrev pub IsKnown : Merged → Merged → Type 0
IsKnown before m =
    (n : String) (i : ℕ) → lookup n before.index ≡ some i → position n (names m.records) ≡ some i

lookup-set_default :
    (k j : String) (slot : ℕ) (t : Table String ℕ)
    → lookup j (set_default k slot t) ≡ or_new (lookup j t) (if j == k then some slot else none)
lookup-set_default k j slot t = elim (Option-cases (lookup k t)) [
  | inl new ↦ ground (arith, new, lookup-insert k j slot t, eq_iff j k)
  | inr (i, old) ↦ ground (arith, old, eq_iff j k)
]

-- A record of a name that no earlier page listed goes to the end.
IsIndex-append :
    (m : Merged) (r : ToolRecord)
    → IsIndex m
    → IsIndex (record {
      records = m.records ++ r ∷ [];
      index = set_default r.name (length m.records) m.index;
    })
IsIndex-append m r h n =
    rw (lookup-set_default r.name n (length m.records) m.index, names-append m.records (r ∷ []))
      (ground (arith, h n, position-snoc n r.name (names m.records), length-names m.records))

pub merge_record-IsIndex :
    (before m : Merged) (r : ToolRecord)
    → IsKnown before m
    → IsIndex m
    → IsIndex (merge_record before.index r m)
unfolding merge_record
merge_record-IsIndex before m r k h = elim (Option-cases (lookup r.name before.index)) [
  | inl new ↦ rw (new, merge_record) (IsIndex-append m r h)
  | inr (slot, old) ↦
      rw (old, merge_record) (λ n. rw (names-set m.records slot r (k r.name slot old)) (h n))
]

pub merge_record-IsKnown :
    (before m : Merged) (r : ToolRecord)
    → IsKnown before m
    → IsKnown before (merge_record before.index r m)
unfolding merge_record
merge_record-IsKnown before m r k n i e = elim (Option-cases (lookup r.name before.index)) [
  | inl new ↦
      rw (new, merge_record, names-append m.records (r ∷ []))
        (ground (arith, k n i e, position-snoc n r.name (names m.records)))
  | inr (slot, old) ↦
      rw (old, merge_record, names-set m.records slot r (k r.name slot old)) (k n i e)
]

pub merge_records-IsIndex :
    (before m : Merged) (page : List ToolRecord)
    → IsKnown before m
    → IsIndex m
    → IsIndex (merge_records before.index page m)
unfolding merge_records
merge_records-IsIndex before m [] k h = h
merge_records-IsIndex before m (r ∷ page) k h =
    merge_records-IsIndex before (merge_record before.index r m) page
      (merge_record-IsKnown before m r k) (merge_record-IsIndex before m r k h)

-- Where the index leads every listed name to the slot of its first record, and no other name
-- anywhere, it does so after a further page.
pub merge_page-IsIndex :
    (page : List ToolRecord) (m : Merged) → IsIndex m → IsIndex (merge_page page m)
unfolding merge_page
merge_page-IsIndex page m h = merge_records-IsIndex m m page (λ n i e. cc (h n)) h
