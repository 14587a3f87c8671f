-- ===== src/Transport/Tests.antt =====
-- Servers at which the theorems on the fingerprint are applied.
use agent_perimeter.Prelude.{
  ◌≡◌, refl, String, false, none, some, [], ◌∷◌, map, occurrences, ◌==◌, string_eq, if◌then◌else◌,
}
use agent_perimeter.Json.{Value, str, obj, arr, field, end, cons, nil}
use agent_perimeter.Model.Feature.{
  server_discover, result_type, cacheable_result, extensions, param_headers, r2026_07_28,
  feature_eq,
}
use agent_perimeter.Transport.{ok, error, raises, thrown, Transport}
use agent_perimeter.Transport.Revision.{
  Fingerprint, contains_header_annotation, in_fields, in_value, in_items, claimed_from,
  claimed_revision, fingerprint, observe,
}
use agent_perimeter.Transport.Conformance.{
  feature_of, is_missing, conformance_mismatches, conformance_mismatches-is_missing,
}
use agent_perimeter.Transport.Revision.Shown.{Shown}

abbrev render : Value → String
render v = ""

-- Answers server/discover with both revisions, and lists one tool with an annotated parameter.
abbrev server : Transport (Unit {0})
server = record {
  request = λ method params s. (
    if method == "server/discover"
        then ok (
            ("protocolVersions", arr (cons (str "2025-11-25") (cons (str "2026-07-28") nil)))
            ∷ ("capabilities", obj (field "extensions" (obj end) end))
            ∷ [])
        else if method == "tools/list"
        then ok (
            (
              "tools",
              arr (
                  cons
                    (obj (
                      field "inputSchema"
                        (obj (
                          field "properties"
                            (obj
                              (field "region" (obj (field "x-mcp-header" (str "Region") end)) end))
                            end))
                        end))
                    nil),
            )
            ∷ [])
        else error none,
    s,
  );
}

-- What it shows is three features, and its later revision is the one it claims.
abbrev shown_by_server : Fingerprint
shown_by_server = record {
  revision_claimed = some r2026_07_28;
  features = server_discover ∷ extensions ∷ param_headers ∷ [];
  confidence = 95;
  caveat = none;
  protocol_versions_advertised = "2025-11-25" ∷ "2026-07-28" ∷ [];
  discover_error_code = none;
}

-- A connection that is refused leaves the fingerprint as an exception.
unreachable :
    (fingerprint render (record { request = λ m p s. (raises "ConnectError", s) }) tt).0
    ≡ thrown "ConnectError"
unfolding fingerprint claimed_revision claimed_from observe
unreachable = refl

-- An annotation in a list within a list is not found, though it stands under the node.
nested_list :
    contains_header_annotation (
      obj (
        field "examples"
          (arr (cons (arr (cons (obj (field "x-mcp-header" (str "A") end)) nil)) nil))
          end))
    ≡ false
unfolding contains_header_annotation in_fields in_value in_items
nested_list = refl

-- A server that claims the later revision and shows only server/discover and result types.
abbrev partial_server : Fingerprint
partial_server = record {
  revision_claimed = some r2026_07_28;
  features = server_discover ∷ result_type ∷ [];
  confidence = 95;
  caveat = none;
  protocol_versions_advertised = "2026-07-28" ∷ [];
  discover_error_code = none;
}

partial_server-lacks :
    map feature_of (conformance_mismatches partial_server)
    ≡ cacheable_result ∷ extensions ∷ param_headers ∷ []
unfolding conformance_mismatches
partial_server-lacks = refl

conformance_mismatches-is_missing_example :
    occurrences extensions (map feature_of (conformance_mismatches partial_server))
    ≡ (if is_missing r2026_07_28 partial_server extensions then 1 else 0)
conformance_mismatches-is_missing_example =
    conformance_mismatches-is_missing partial_server r2026_07_28 extensions refl
