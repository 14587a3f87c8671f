-- ===== src/Checks/Context.antt =====
-- agent_perimeter/checks/context.py: the transport of a check that is not cleared for active
-- probing.
use agent_perimeter.Prelude.{
  String, not, ◌||◌, Option, List, [], ◌∷◌, contains, string_eq, if◌then◌else◌,
}
use agent_perimeter.Json.{Object}
use agent_perimeter.Transport.{Reply, Transport, has_header_override}
use agent_perimeter.Model.Scope.{Refusal, not_passive}

abbrev pub passive_methods : List String
passive_methods = "server/discover" ∷ "initialize" ∷ "tools/list" ∷ []

-- What a check sees of a request: the transport's answer, or `AuthorizationRequired`.
pub data Answer : Type 0 where
  replied : Reply → Answer
  refused : Refusal → Answer

-- A transport as a check sees it.
abbrev pub Channel : Type 0 → Type 0
Channel S = String → Option Object → S → Answer × S

-- `context.transport`
abbrev pub direct : {S : Type 0} → Transport S → Channel S
direct t method params s = let (reply, s') = t.request method params s in (replied reply, s')

-- `_UnauthorisedTransport.request`
unfoldable pub unauthorised : {S : Type 0} → Transport S → Channel S
unauthorised t method params s =
    if not (contains method passive_methods) || has_header_override params
    then (refused (not_passive method), s)
    else direct t method params s
