-- ===== src/Drift/Compare/Events.antt =====
-- The events of one key among those of all keys.
use agent_perimeter.Prelude.{
  ℕ, zero, suc, ◌≡◌, refl, ap, sym, list_beq_iff, Bool, Option, none, some, List, [], ◌∷◌, ◌++◌,
  filter, filter-append, Table, lookup, ◌==◌, nat_eq, list_eq, if◌then◌else◌, occurrences, arith,
  Bool-cases, inl, inr,
}
use agent_perimeter.Json.Print.{Text}
use agent_perimeter.Model.Snapshot.{SnapshotTool}
use agent_perimeter.Drift.Keys.{Key}
use agent_perimeter.Drift.Compare.{
  DriftField, DriftEvent, event, field_events, key_events, per_tool_fields, each_key,
}

abbrev pub events_of : Key → List DriftEvent → List DriftEvent
events_of k = filter (λ e. k == e.tool_name)

abbrev pub repeated : ℕ → List DriftEvent → List DriftEvent
repeated zero es = []
repeated (suc n) es = es ++ repeated n es

-- Only the events of the key itself name it.
abbrev only_if : Bool → List DriftEvent → List DriftEvent
only_if b es = if b then es else []

events_of-event :
    (k key : Key) (f : DriftField) (old new : Option SnapshotTool) (now : ℕ) (es : List DriftEvent)
    → events_of k es ≡ only_if (k == key) es
    → events_of k (event key f old new now ∷ es) ≡ only_if (k == key) (event key f old new now ∷ es)
unfolding event
events_of-event k key f old new now es rest = ground arith

events_of-field_events :
    (k key : Key) (old new : SnapshotTool) (now : ℕ)
    (fields : List (DriftField × (SnapshotTool → Text)))
    → events_of k (field_events key old new now fields)
      ≡ only_if (k == key) (field_events key old new now fields)
events_of-field_events k key old new now [] = ground arith
events_of-field_events k key old new now ((f, attr) ∷ fields) =
    let rest = events_of-field_events k key old new now fields in
    elim (Bool-cases (attr old == attr new)) [
      | inl same ↦ rw (same, field_events) rest
      | inr other ↦
          rw (other, field_events)
            (events_of-event k key f (some old) (some new) now (field_events key old new now fields)
              rest)
    ]

events_of-key_events :
    (k key : Key) (old new : Option SnapshotTool) (now : ℕ)
    → events_of k (key_events key old new now) ≡ only_if (k == key) (key_events key old new now)
unfolding key_events
events_of-key_events k key none new now = events_of-event k key _ none new now [] (ground arith)
events_of-key_events k key (some old) none now =
    events_of-event k key _ (some old) none now [] (ground arith)
events_of-key_events k key (some old) (some new) now =
    events_of-field_events k key old new now per_tool_fields

module _ (before after : Table Key SnapshotTool) (now : ℕ) where
  abbrev pub body : Key → List DriftEvent
  body key = key_events key (lookup key before) (lookup key after) now

  pub events_of-each_key :
      (k : Key) (ks : List Key)
      → events_of k (each_key before after now ks) ≡ repeated (occurrences k ks) (body k)
  events_of-each_key k [] = refl
  events_of-each_key k (key ∷ ks) =
      let split =
        filter-append (λ (e : DriftEvent). k == e.tool_name) (body key)
          (each_key before after now ks) in
      let own = events_of-key_events k key (lookup key before) (lookup key after) now in
      let rest = events_of-each_key k ks in
      elim (Bool-cases (k == key)) [
        | inl same ↦
            rw (split, own, rest, same, occurrences)
              (ap (λ (y : Key). body y ++ repeated (occurrences k ks) (body k))
                (sym ((list_beq_iff k key).0 same)))
        | inr other ↦ rw (split, own, rest, other, occurrences) refl
      ]
