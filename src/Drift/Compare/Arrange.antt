-- ===== src/Drift/Compare/Arrange.antt =====
-- The keys that `compare` goes through: those of both sides, once each, sorted by name and place.
use agent_perimeter.Prelude.{
  ℕ, ◌≡◌, refl, ap, true, false, not, ◌||◌, ◌&&◌, beq_refl, some, List, [], ◌∷◌, map, filter, Table,
  keys, has_key, has_key-contains, IsDistinct-insert, insert, contains, contains-append, IsDistinct,
  IsDistinct-filter, IsDistinct-append, IsApart, ◌==◌, list_beq_iff, nat_eq, list_eq, occurrences,
  occurrences-sorted, arith, Bool-cases, Option-cases, inl, inr,
}
use agent_perimeter.Model.Snapshot.{SnapshotTool}
use agent_perimeter.Drift.Keys.{Key, key_order}
use agent_perimeter.Drift.Compare.{decorated, order_leb, snd, sorted_keys, union_keys, zipped}

snd-decorated :
    (ks : List Key) (ds : List ((Key × ℕ) × Key)) → decorated ks ≡ some ds → map snd ds ≡ ks
snd-decorated [] ds e = ground arith
snd-decorated (key ∷ ks) ds e = elim (Option-cases (key_order key)) [
  | inl raised ↦ absurd (ground arith)
  | inr (order, found) ↦ elim (Option-cases (decorated ks)) [
    | inl raised ↦ absurd (ground arith)
    | inr (rest, e') ↦ ground (arith, snd-decorated ks rest e')
  ]
]

-- Sorting neither loses nor repeats a key.
pub occurrences-sorted_keys :
    (ks ks' : List Key) (k : Key) → sorted_keys ks ≡ some ks' → occurrences k ks' ≡ occurrences k ks
unfolding sorted_keys
occurrences-sorted_keys ks ks' k e = elim (Option-cases (decorated ks)) [
  | inl raised ↦ absurd (ground arith)
  | inr (ds, found) ↦
      ground (arith, snd-decorated ks ds found, occurrences-sorted order_leb snd k ds)
]

pub IsDistinct-zipped :
    (t : Table Key SnapshotTool) (ks : List Key) (tools : List SnapshotTool)
    → IsDistinct (keys t)
    → IsDistinct (keys (zipped t ks tools))
IsDistinct-zipped t [] tools h = h
IsDistinct-zipped t (k ∷ ks) [] h = h
IsDistinct-zipped t (k ∷ ks) (tool ∷ tools) h =
    IsDistinct-zipped (insert k tool t) ks tools (IsDistinct-insert k tool t h)

separated :
    (ks ms : List Key) → ((k : Key) → contains k ks ≡ true → contains k ms ≡ false) → IsApart ks ms
separated [] ms h = tt
separated (k ∷ ks) ms h =
    (h k (rw (beq_refl k) refl), separated ks ms (λ j m. h j (ground (arith, m))))

-- The keys of the second side that the first has not.
abbrev new_keys : Table Key SnapshotTool → List Key → List Key
new_keys before ks = filter (λ k. not (has_key k before)) ks

contains-new_keys :
    (before : Table Key SnapshotTool) (k : Key) (ks : List Key)
    → contains k (new_keys before ks) ≡ (contains k ks && not (has_key k before))
contains-new_keys before k [] = refl
contains-new_keys before k (j ∷ ks) =
    let rest = contains-new_keys before k ks in
    elim (Bool-cases (k == j)) [
      | inl same ↦
          let alike = ap (λ (y : Key). not (has_key y before)) ((list_beq_iff k j).0 same) in
          ground (arith, rest, same, alike)
      | inr other ↦ ground (arith, rest, other)
    ]

pub contains-union_keys :
    (before after : Table Key SnapshotTool) (k : Key)
    → contains k (union_keys before after) ≡ (has_key k before || has_key k after)
contains-union_keys before after k = ground (
  arith,
  contains-append k (keys before) (new_keys before (keys after)),
  contains-new_keys before k (keys after),
  has_key-contains k before,
  has_key-contains k after,
)

pub IsDistinct-union_keys :
    (before after : Table Key SnapshotTool)
    → IsDistinct (keys before)
    → IsDistinct (keys after)
    → IsDistinct (union_keys before after)
IsDistinct-union_keys before after left right =
    IsDistinct-append (keys before) (new_keys before (keys after)) left
      (IsDistinct-filter (λ k. not (has_key k before)) (keys after) right)
      (separated (keys before) (new_keys before (keys after)) (λ k m.
        ground (arith, m, contains-new_keys before k (keys after), has_key-contains k before)))
