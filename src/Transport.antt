-- ===== src/Transport.antt =====
-- agent_perimeter/transport/base.py: what the scanner asks of a server. The server is a state and
-- an answer to each request, so it may answer one request differently at different times.
pub mod Revision
pub mod Conformance
mod Tests
use agent_perimeter.Prelude.{
  ◌≡◌, refl, ◌⊎◌, inl, inr, ℤ, String, Bool, true, false, Option, none, some, List, [], ◌∷◌, ◌++◌,
  has_key, string_eq,
}
use agent_perimeter.Json.{Object}

-- What a request ends in: a result object, `TransportError` with the JSON-RPC code that was
-- observed, or another exception, such as a connect error of httpx.
pub data Reply : Type 0 where
  ok : Object → Reply
  error : Option ℤ → Reply
  raises : String → Reply

-- What a function returns, or the exception that leaves it.
pub data Result (A : Type 0) : Type 0 where
  value : A → Result A
  thrown : String → Result A

pub Result-cases :
    {A : Type 0} (r : Result A)
    → ((x : A) × (r ≡ value x)) ⊎ ((reason : String) × (r ≡ thrown reason))
Result-cases (value x) = inl (x, refl)
Result-cases (thrown reason) = inr (reason, refl)

pub record Transport (S : Type 0) : Type 0 where
  pub request : String → Option Object → S → Reply × S

abbrev pub header_override_param : String
header_override_param = "_ap_header_override"

-- `bool(params and HEADER_OVERRIDE_PARAM in params)`
unfoldable pub has_header_override : Option Object → Bool
has_header_override none = false
has_header_override (some params) = has_key header_override_param params

-- What a transport without headers answers to the probe param: a `TransportError` with no code.
unfoldable pub reject_header_override : Option Object → Option Reply
unfolding has_header_override
reject_header_override params = elim (has_header_override params) [
  | true ↦ some (error none)
  | false ↦ none
]

pub record Request : Type 0 where
  pub method : String
  pub params : Option Object

-- The same server, with the requests that it was sent, oldest first.
abbrev pub recording : {S : Type 0} → Transport S → Transport (S × List Request)
recording t = record {
  request = λ m p (s, sent).
      let (reply, s') = t.request m p s in
      (reply, (s', sent ++ record { method = m; params = p } ∷ []));
}
