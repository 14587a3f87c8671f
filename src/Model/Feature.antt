-- ===== src/Model/Feature.antt =====
-- agent_perimeter/model/feature.py and transport/features.yaml: protocol features, and the bundles
-- that the two known revisions name. A feature set is a list that is only asked for membership.
use agent_perimeter.Prelude.{ℕ, String, ◌≡◌, refl, List, [], ◌∷◌, HasEq, nth, by_place}

pub data Feature : Type 0 where
  server_discover result_type cacheable_result mrtr param_headers subscriptions_listen : Feature
  extensions initialize_handshake session_header sse_resumability : Feature
  subscribe_unsubscribe : Feature

pub data Revision : Type 0 where
  r2025_11_25 r2026_07_28 : Revision

abbrev pub features : List Feature
features =
    server_discover ∷ result_type ∷ cacheable_result ∷ mrtr ∷ param_headers ∷ subscriptions_listen
    ∷ extensions ∷ initialize_handshake ∷ session_header ∷ sse_resumability ∷ subscribe_unsubscribe
    ∷ []

abbrev pub feature_place : Feature → ℕ
feature_place server_discover = 0
feature_place result_type = 1
feature_place cacheable_result = 2
feature_place mrtr = 3
feature_place param_headers = 4
feature_place subscriptions_listen = 5
feature_place extensions = 6
feature_place initialize_handshake = 7
feature_place session_header = 8
feature_place sse_resumability = 9
feature_place subscribe_unsubscribe = 10

pub feature_found : (f : Feature) → nth subscribe_unsubscribe features (feature_place f) ≡ f
feature_found server_discover = refl
feature_found _ = refl

instance abbrev pub feature_eq : HasEq Feature
feature_eq = by_place feature_place subscribe_unsubscribe features feature_found

abbrev pub feature_value : Feature → String
feature_value server_discover = "server_discover"
feature_value result_type = "result_type"
feature_value cacheable_result = "cacheable_result"
feature_value mrtr = "mrtr"
feature_value param_headers = "param_headers"
feature_value subscriptions_listen = "subscriptions_listen"
feature_value extensions = "extensions"
feature_value initialize_handshake = "initialize_handshake"
feature_value session_header = "session_header"
feature_value sse_resumability = "sse_resumability"
feature_value subscribe_unsubscribe = "subscribe_unsubscribe"

abbrev pub revision_value : Revision → String
revision_value r2025_11_25 = "2025-11-25"
revision_value r2026_07_28 = "2026-07-28"

abbrev pub bundles : Revision → List Feature
bundles r2025_11_25 =
    initialize_handshake ∷ session_header ∷ sse_resumability ∷ subscribe_unsubscribe ∷ []
bundles r2026_07_28 =
    server_discover ∷ result_type ∷ cacheable_result ∷ mrtr ∷ param_headers ∷ subscriptions_listen
    ∷ extensions ∷ []
