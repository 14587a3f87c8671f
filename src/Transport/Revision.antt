-- ===== src/Transport/Revision.antt =====
-- agent_perimeter/transport/revision.py: which revision a server claims, and which features it shows.
-- A set of features is a list; the time of observation is left out, and a confidence is in hundredths.
pub mod Annotated
pub mod Evidence
pub mod Shown
use agent_perimeter.Prelude.{
  ℕ, ℤ, String, Bool, true, false, not, ◌&&◌, ◌||◌, Option, none, some, List, [], ◌∷◌, ◌++◌, map,
  any, filter, contains, lookup, has_key, values, ◌==◌, string_eq, if◌then◌else◌,
}
use agent_perimeter.Json.{
  Value, null, obj, arr, Fields, field, end, Items, cons, nil, Object, entries, as_object, as_list,
  get_object, get_list, py_str,
}
use agent_perimeter.Json.Print.{text_leb}
use agent_perimeter.Model.Scope.{codes}
use agent_perimeter.Model.Feature.{
  Feature, server_discover, extensions, initialize_handshake, result_type, cacheable_result,
  param_headers, feature_eq, Revision, r2025_11_25, r2026_07_28, revision_value,
}
use agent_perimeter.Transport.{Reply, ok, error, raises, Result, value, thrown, Transport}

abbrev pub known_older_revisions : List String
known_older_revisions = "2025-06-18" ∷ "2025-03-26" ∷ []

abbrev pub live_probe_confidence : ℕ
live_probe_confidence = 95

abbrev pub passively_observable_features : List Feature
passively_observable_features =
    server_discover ∷ extensions ∷ initialize_handshake ∷ result_type ∷ cacheable_result
    ∷ param_headers ∷ []

abbrev pub revisions : List Revision
revisions = r2025_11_25 ∷ r2026_07_28 ∷ []

-- `Revision(v)` where `v` is a known value
abbrev pub revision_of : String → List Revision → Option Revision
revision_of v [] = none
revision_of v (r ∷ rs) = if v == revision_value r then some r else revision_of v rs

abbrev pub known : List String → List Revision
known [] = []
known (v ∷ vs) = elim (revision_of v revisions) [ none ↦ known vs | some r ↦ r ∷ known vs ]

-- Python's `>` on the values of two revisions
abbrev pub later_than : Revision → Revision → Bool
later_than a b = not (text_leb (codes (revision_value a)) (codes (revision_value b)))

-- Python's `max`: the first of the highest
abbrev pub max_from : Revision → List Revision → Revision
max_from best [] = best
max_from best (r ∷ rs) = max_from (if later_than r best then r else best) rs

abbrev pub max_of : List Revision → Option Revision
max_of [] = none
max_of (r ∷ rs) = some (max_from r rs)

unfoldable pub highest_known : List String → Option Revision
highest_known versions = max_of (known versions)

-- The caveat of an unknown revision.
pub data RevisionCaveat : Type 0 where
  no_version no_answer : RevisionCaveat
  predates : String → RevisionCaveat
  unrecognised : List String → RevisionCaveat

abbrev pub caveat_of_older : List String → List String → RevisionCaveat
caveat_of_older [] versions = unrecognised versions
caveat_of_older (v ∷ vs) versions = predates v

unfoldable pub revision_caveat : List String → Bool → Bool → RevisionCaveat
revision_caveat [] discover_answered initialize_answered =
    if discover_answered || initialize_answered then no_version else no_answer
revision_caveat (v ∷ vs) discover_answered initialize_answered =
    caveat_of_older (filter (λ u. contains u known_older_revisions) (v ∷ vs)) (v ∷ vs)

-- `_contains_header_annotation`, and its loops over the values of a dict and the items of a list
unfoldable mutual
  pub contains_header_annotation : Value → Bool
  contains_header_annotation (obj fs) = has_key "x-mcp-header" (entries fs) || in_fields fs
  contains_header_annotation v = false

  pub in_fields : Fields → Bool
  in_fields end = false
  in_fields (field k v fs) = in_value v || in_fields fs

  pub in_value : Value → Bool
  in_value (obj fs) = has_key "x-mcp-header" (entries fs) || in_fields fs
  in_value (arr vs) = in_items vs
  in_value v = false

  pub in_items : Items → Bool
  in_items nil = false
  in_items (cons v vs) = contains_header_annotation v || in_items vs

-- `_has_header_annotation`, one `get` after the other
abbrev pub annotated_properties : Option Object → Bool
annotated_properties none = false
annotated_properties (some properties) = any contains_header_annotation (values properties)

abbrev pub annotated_schema : Option Object → Bool
annotated_schema none = false
annotated_schema (some schema) = annotated_properties (get_object "properties" schema)

abbrev pub annotated_tool : Option Object → Bool
annotated_tool none = false
annotated_tool (some tool) = annotated_schema (get_object "inputSchema" tool)

unfoldable pub has_header_annotation : Value → Bool
has_header_annotation tool = annotated_tool (as_object tool)

-- `observed.add` under a test
abbrev pub when : Bool → Feature → List Feature
when b f = if b then f ∷ [] else []

abbrev pub annotated_listing : Option (List Value) → Bool
annotated_listing none = false
annotated_listing (some tools) = any has_header_annotation tools

-- What a listing shows.
unfoldable pub listing_features : Object → List Feature
listing_features listing =
    when (has_key "resultType" listing) result_type
    ++ when (has_key "ttlMs" listing || has_key "cacheScope" listing) cacheable_result
    ++ when (annotated_listing (get_list "tools" listing)) param_headers

-- `_observed_features`, from the reply on
unfoldable pub observed_features : Reply → Result (List Feature)
observed_features (error code) = value []
observed_features (raises e) = thrown e
observed_features (ok listing) = value (listing_features listing)

-- What `_claimed_revision` returns.
pub record Claimed : Type 0 where
  pub revision : Option Revision
  pub observed : List Feature
  pub versions : List String
  pub discover_error_code : Option ℤ

abbrev pub has_extensions : Option Object → Bool
has_extensions none = false
has_extensions (some capabilities) = has_key "extensions" capabilities

abbrev pub all_versions : (Value → String) → Option (List Value) → List String
all_versions render none = []
all_versions render (some vs) = map (py_str render) vs

abbrev pub one_version : (Value → String) → Option Value → List String
one_version render none = []
one_version render (some v) = py_str render v ∷ []

abbrev pub not_null : Option Value → Option Value
not_null (some null) = none
not_null o = o

abbrev pub discovered : (Value → String) → Object → Claimed
discovered render discover =
    let versions = all_versions render (get_list "protocolVersions" discover) in
    record {
      revision = highest_known versions;
      observed =
          server_discover ∷ when (has_extensions (get_object "capabilities" discover)) extensions;
      versions = versions;
      discover_error_code = none;
    }

abbrev pub initialized : (Value → String) → Option ℤ → Reply → Result Claimed
initialized render code (raises e) = thrown e
initialized render code (error _) =
    value (record { revision = none; observed = []; versions = []; discover_error_code = code })
initialized render code (ok answer) =
    let versions = one_version render (not_null (lookup "protocolVersion" answer)) in
    value (record {
      revision = highest_known versions;
      observed = initialize_handshake ∷ [];
      versions = versions;
      discover_error_code = code;
    })

pub record Fingerprint : Type 0 where
  pub revision_claimed : Option Revision
  pub features : List Feature
  pub confidence : ℕ
  pub caveat : Option RevisionCaveat
  pub protocol_versions_advertised : List String
  pub discover_error_code : Option ℤ

abbrev pub caveat_of_claim : Option Revision → RevisionCaveat → Option RevisionCaveat
caveat_of_claim none c = some c
caveat_of_claim (some r) c = none

-- The end of `fingerprint`, from what was claimed and observed.
unfoldable pub settle : Claimed → List Feature → Fingerprint
settle c observed =
    let all_features = c.observed ++ observed in
    record {
      revision_claimed = c.revision;
      features = all_features;
      confidence = live_probe_confidence;
      caveat = caveat_of_claim c.revision (
          revision_caveat c.versions (contains server_discover all_features)
            (contains initialize_handshake all_features));
      protocol_versions_advertised = c.versions;
      discover_error_code = c.discover_error_code;
    }

abbrev pub settled : Claimed → Result (List Feature) → Result Fingerprint
settled c (thrown e) = thrown e
settled c (value observed) = value (settle c observed)

module _ (render : Value → String) {S : Type 0} (t : Transport S) where
  -- `_claimed_revision`, from the reply to server/discover on
  unfoldable pub claimed_from : Reply → S → Result Claimed × S
  claimed_from (ok discover) s = (value (discovered render discover), s)
  claimed_from (raises e) s = (thrown e, s)
  claimed_from (error code) s =
      let (reply, s') = t.request "initialize" none s in (initialized render code reply, s')

  unfoldable pub claimed_revision : S → Result Claimed × S
  claimed_revision s = let (reply, s') = t.request "server/discover" none s in claimed_from reply s'

  -- `fingerprint`, from what `_claimed_revision` ends in
  unfoldable pub observe : Result Claimed → S → Result Fingerprint × S
  observe (thrown e) s = (thrown e, s)
  observe (value claimed) s =
      let (reply, s') = t.request "tools/list" none s in
      (settled claimed (observed_features reply), s')

  unfoldable pub fingerprint : S → Result Fingerprint × S
  fingerprint s = let (claimed, s') = claimed_revision s in observe claimed s'
