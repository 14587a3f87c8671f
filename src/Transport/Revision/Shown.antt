-- ===== src/Transport/Revision/Shown.antt =====
-- Observe or abstain: a fingerprint has a feature exactly where an answer showed it.
use agent_perimeter.Prelude.{String, ◌≡◌, ◌⊎◌, true, Option, some, has_key, string_eq}
use agent_perimeter.Json.{Object, get_object}
use agent_perimeter.Model.Feature.{
  Feature, server_discover, result_type, cacheable_result, param_headers, extensions,
  initialize_handshake, feature_eq,
}
use agent_perimeter.Transport.{Reply, ok, Transport}
use agent_perimeter.Transport.Revision.Annotated.{ShowsAnnotation}

abbrev pub Key : String → Object → Type 0
Key k o = has_key k o ≡ true

-- What the answer to server/discover shows.
abbrev pub DiscoverShows : Feature → Object → Type 0
DiscoverShows server_discover answer = Unit
DiscoverShows extensions answer =
    (capabilities : Object) × (get_object "capabilities" answer ≡ some capabilities)
    × Key "extensions" capabilities
DiscoverShows f answer = ⊥

-- What the answer to initialize shows.
abbrev pub InitializeShows : Feature → Type 0
InitializeShows initialize_handshake = Unit
InitializeShows f = ⊥

-- What a listing shows.
abbrev pub ListingShows : Feature → Object → Type 0
ListingShows result_type listing = Key "resultType" listing
ListingShows cacheable_result listing = Key "ttlMs" listing ⊎ Key "cacheScope" listing
ListingShows param_headers listing = ShowsAnnotation listing
ListingShows f listing = ⊥

abbrev pub Discovered : Feature → Reply → Type 0
Discovered f (ok answer) = DiscoverShows f answer
Discovered f reply = ⊥

abbrev pub Initialized : Feature → Option Reply → Type 0
Initialized f (some (ok answer)) = InitializeShows f
Initialized f reply = ⊥

abbrev pub Listed : Feature → Reply → Type 0
Listed f (ok listing) = ListingShows f listing
Listed f reply = ⊥

-- Of the replies to server/discover, to initialize (where it is asked) and to tools/list.
abbrev pub Shown : Feature → Reply × Option Reply × Reply → Type 0
Shown f (discover, initialize, listing) =
    Discovered f discover ⊎ (Initialized f initialize ⊎ Listed f listing)
