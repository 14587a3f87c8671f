-- ===== src/Transport/Revision/Annotated.antt =====
-- Where a tool has a header annotation, apart from the order in which the code looks.
use mathlib.Core.List.{Memᴰ}
use mathlib.Core.List.Memᴰ
use agent_perimeter.Prelude.{
  ◌≡◌, refl, sym, ap, ◌∙◌, ◌↔◌, ◌⊎◌, inl, inr, String, Bool, true, some, List, [], ◌∷◌, any,
  has_key, values, string_eq, arith, Bool-cases, Option-cases,
}
use agent_perimeter.Json.{
  Value, null, str, int, float, bool, obj, arr, Fields, field, end, Items, cons, nil, Object,
  entries, items, as_object, get_object, get_list,
}
use agent_perimeter.Transport.Revision.{
  contains_header_annotation, in_fields, in_value, in_items, has_header_annotation,
  annotated_listing,
}

-- The annotation is a key of the dict, or stands under a value that is a dict, or under a dict in
-- a value that is a list. A list within a list is not looked into.
pub data Annotated : Value → Type 0 where
  here : {fs : Fields} → has_key "x-mcp-header" (entries fs) ≡ true → Annotated (obj fs)
  below :
      {fs : Fields} {v : Value} → Memᴰ v (values (entries fs)) → Annotated v → Annotated (obj fs)
  listed :
      {fs : Fields} {vs : Items} {v : Value}
      → Memᴰ (arr vs) (values (entries fs))
      → Memᴰ v (items vs)
      → Annotated v
      → Annotated (obj fs)

abbrev FieldIn : Fields → Type 0
FieldIn fs =
    ((v : Value) × Memᴰ v (values (entries fs)) × Annotated v)
    ⊎ ((vs : Items) × (v : Value) × Memᴰ (arr vs) (values (entries fs))
        × Memᴰ v (items vs)
        × Annotated v)

abbrev ItemIn : Items → Type 0
ItemIn vs = (v : Value) × Memᴰ v (items vs) × Annotated v

FieldIn-field : (k : String) (v : Value) (fs : Fields) → FieldIn fs → FieldIn (field k v fs)
FieldIn-field k v fs (inl (w, there, h)) = inl (w, Memᴰ.tail there, h)
FieldIn-field k v fs (inr (vs, w, there, at, h)) = inr (vs, w, Memᴰ.tail there, at, h)

FieldIn-Annotated : (fs : Fields) → FieldIn fs → Annotated (obj fs)
FieldIn-Annotated fs (inl (w, there, h)) = below there h
FieldIn-Annotated fs (inr (vs, w, there, at, h)) = listed there at h

mutual
  unfolding contains_header_annotation in_fields in_value in_items

  annotated_value : (v : Value) → contains_header_annotation v ≡ true → Annotated v
  annotated_value (obj fs) h = elim (Bool-cases (has_key "x-mcp-header" (entries fs))) [
    | inl own ↦ here own
    | inr other ↦ FieldIn-Annotated fs (annotated_fields fs (ground (arith, h, other)))
  ]
  annotated_value (arr vs) h = absurd (cc (h))
  annotated_value (str s) h = absurd (cc (h))
  annotated_value (int z) h = absurd (cc (h))
  annotated_value (float t) h = absurd (cc (h))
  annotated_value (bool b) h = absurd (cc (h))
  annotated_value null h = absurd (cc (h))

  annotated_fields : (fs : Fields) → in_fields fs ≡ true → FieldIn fs
  annotated_fields end h = absurd (cc (h))
  annotated_fields (field k v fs) h = elim (Bool-cases (in_value v)) [
    | inl own ↦ annotated_entry k v fs own
    | inr other ↦ FieldIn-field k v fs (annotated_fields fs (ground (arith, h, other)))
  ]

  annotated_entry :
      (k : String) (v : Value) (fs : Fields) → in_value v ≡ true → FieldIn (field k v fs)
  annotated_entry k (obj gs) fs h = elim (Bool-cases (has_key "x-mcp-header" (entries gs))) [
    | inl own ↦ inl (obj gs, Memᴰ.head refl, here own)
    | inr other ↦ inl (
      obj gs,
      Memᴰ.head refl,
      FieldIn-Annotated gs (annotated_fields gs (ground (arith, h, other))),
    )
  ]
  annotated_entry k (arr vs) fs h =
      let (v, at, a) = annotated_items vs h in inr (vs, v, Memᴰ.head refl, at, a)
  annotated_entry k (str s) fs h = absurd (cc (h))
  annotated_entry k (int z) fs h = absurd (cc (h))
  annotated_entry k (float t) fs h = absurd (cc (h))
  annotated_entry k (bool b) fs h = absurd (cc (h))
  annotated_entry k null fs h = absurd (cc (h))

  annotated_items : (vs : Items) → in_items vs ≡ true → ItemIn vs
  annotated_items nil h = absurd (cc (h))
  annotated_items (cons v vs) h = elim (Bool-cases (contains_header_annotation v)) [
    | inl own ↦ (v, Memᴰ.head refl, annotated_value v own)
    | inr other ↦
        let (w, at, a) = annotated_items vs (ground (arith, h, other)) in (w, Memᴰ.tail at, a)
  ]

in_fields-Mem :
    (v : Value) (fs : Fields)
    → Memᴰ v (values (entries fs))
    → in_value v ≡ true
    → in_fields fs ≡ true
unfolding in_fields
in_fields-Mem v end there h = absurd (Memᴰ.not-nil there)
in_fields-Mem v (field k w fs) there h = elim (Memᴰ.cases_cons there) [
  | inl same ↦ let e = ap in_value (sym same) ∙ h in ground (arith, e)
  | inr later ↦ let e = in_fields-Mem v fs later h in ground (arith, e)
]

in_items-Mem :
    (v : Value) (vs : Items)
    → Memᴰ v (items vs)
    → contains_header_annotation v ≡ true
    → in_items vs ≡ true
unfolding in_items
in_items-Mem v nil there h = absurd (Memᴰ.not-nil there)
in_items-Mem v (cons w vs) there h = elim (Memᴰ.cases_cons there) [
  | inl same ↦ let e = ap contains_header_annotation (sym same) ∙ h in ground (arith, e)
  | inr later ↦ let e = in_items-Mem v vs later h in ground (arith, e)
]

in_value-contains : (v : Value) → contains_header_annotation v ≡ true → in_value v ≡ true
unfolding in_value contains_header_annotation
in_value-contains (obj fs) h = h
in_value-contains (arr vs) h = absurd (cc (h))
in_value-contains (str s) h = absurd (cc (h))
in_value-contains (int z) h = absurd (cc (h))
in_value-contains (float t) h = absurd (cc (h))
in_value-contains (bool b) h = absurd (cc (h))
in_value-contains null h = absurd (cc (h))

Annotated-contains : (v : Value) → Annotated v → contains_header_annotation v ≡ true
unfolding contains_header_annotation in_value
Annotated-contains _ (here own) = ground (arith, own)
Annotated-contains _ (below {fs} {v} there a) =
    let e = in_fields-Mem v fs there (in_value-contains v (Annotated-contains v a)) in
    ground (arith, e)
Annotated-contains _ (listed {fs} {vs} {v} there at a) =
    let e = in_fields-Mem (arr vs) fs there (in_items-Mem v vs at (Annotated-contains v a)) in
    ground (arith, e)

-- Some property of the input schema of some tool is annotated.
pub record ShowsAnnotation (listing : Object) : Type 0 where
  pub tools : List Value
  pub tool : Value
  pub entry : Object
  pub schema : Object
  pub properties : Object
  pub property : Value
  pub is_listing : get_list "tools" listing ≡ some tools
  pub in_listing : Memᴰ tool tools
  pub is_entry : as_object tool ≡ some entry
  pub is_schema : get_object "inputSchema" entry ≡ some schema
  pub has_properties : get_object "properties" schema ≡ some properties
  pub in_properties : Memᴰ property (values properties)
  pub annotated : Annotated property

any-Mem :
    (p : Value → Bool) (vs : List Value) → any p vs ≡ true → (v : Value) × Memᴰ v vs × (p v ≡ true)
any-Mem p [] h = absurd (cc (h))
any-Mem p (v ∷ vs) h = elim (Bool-cases (p v)) [
  | inl own ↦ (v, Memᴰ.head refl, own)
  | inr other ↦
      let (w, there, e) = any-Mem p vs (ground (arith, h, other)) in (w, Memᴰ.tail there, e)
]

Mem-any :
    (p : Value → Bool) (v : Value) (vs : List Value) → Memᴰ v vs → p v ≡ true → any p vs ≡ true
Mem-any p v [] there h = absurd (Memᴰ.not-nil there)
Mem-any p v (w ∷ vs) there h = elim (Memᴰ.cases_cons there) [
  | inl same ↦ let e = ap p (sym same) ∙ h in ground (arith, e)
  | inr later ↦ let e = Mem-any p v vs later h in ground (arith, e)
]

tested-ShowsAnnotation :
    (listing : Object)
    → annotated_listing (get_list "tools" listing) ≡ true
    → ShowsAnnotation listing
unfolding has_header_annotation
tested-ShowsAnnotation listing h = elim (Option-cases (get_list "tools" listing)) [
  | inl missing ↦ absurd (cc (rw (missing, annotated_listing) at h))
  | inr (tools, is_listing) ↦
      let (tool, in_listing, e) =
        any-Mem has_header_annotation tools (rw (is_listing, annotated_listing) at h) in
      elim (Option-cases (as_object tool)) [
        | inl missing ↦ absurd (cc (rw (missing, has_header_annotation) at e))
        | inr (entry, is_entry) ↦ elim (Option-cases (get_object "inputSchema" entry)) [
          | inl missing ↦ absurd (cc (rw (is_entry, missing, has_header_annotation) at e))
          | inr (schema, is_schema) ↦ elim (Option-cases (get_object "properties" schema)) [
            | inl missing ↦
                absurd (cc (rw (is_entry, is_schema, missing, has_header_annotation) at e))
            | inr (properties, has_properties) ↦
                let (property, in_properties, a) =
                  any-Mem contains_header_annotation (values properties)
                    (rw (is_entry, is_schema, has_properties, has_header_annotation) at e) in
                record {
                  tools = tools;
                  tool = tool;
                  entry = entry;
                  schema = schema;
                  properties = properties;
                  property = property;
                  is_listing = is_listing;
                  in_listing = in_listing;
                  is_entry = is_entry;
                  is_schema = is_schema;
                  has_properties = has_properties;
                  in_properties = in_properties;
                  annotated = annotated_value property a;
                }
          ]
        ]
      ]
]

ShowsAnnotation-tested :
    (listing : Object)
    → ShowsAnnotation listing
    → annotated_listing (get_list "tools" listing) ≡ true
unfolding has_header_annotation
ShowsAnnotation-tested listing s =
    let inner =
      Mem-any contains_header_annotation s.property (values s.properties) s.in_properties
        (Annotated-contains s.property s.annotated) in
    let own : has_header_annotation s.tool ≡ true =
      rw (s.is_entry, s.is_schema, s.has_properties, has_header_annotation) inner in
    rw (s.is_listing, annotated_listing)
      (Mem-any has_header_annotation s.tool s.tools s.in_listing own)

pub annotated_listing_iff :
    (listing : Object)
    → (annotated_listing (get_list "tools" listing) ≡ true) ↔ ShowsAnnotation listing
annotated_listing_iff listing = (tested-ShowsAnnotation listing, ShowsAnnotation-tested listing)
