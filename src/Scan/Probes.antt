-- ===== src/Scan/Probes.antt =====
-- agent_perimeter/checks/revision/oauth_metadata.py and agent_perimeter/checks/static/auth_probe.py: the
-- two plain HTTP requests of a scan. What httpx does is a parameter.
use agent_perimeter.Prelude.{
  ℕ, pos, String, Bool, not, ◌||◌, Option, none, some, [], ◌∷◌, ◌==◌, nat_eq, starts_with, get_or,
  if◌then◌else◌,
}
use agent_perimeter.Json.{Value, str, int, Object, as_object}
use agent_perimeter.Transport.{Result, value, thrown}
use agent_perimeter.Checks.Descriptions.Imperative.{Urls}

pub record HttpResponse : Type 0 where
  pub status_code : ℕ
  -- `response.json()`, or none for its ValueError
  pub json : Option Value
  -- `response.headers.get("WWW-Authenticate")`
  pub www_authenticate : Option String

-- A response, an `httpx.HTTPError`, or another exception (such as InvalidURL).
pub data HttpExchange : Type 0 where
  answered : HttpResponse → HttpExchange
  http_error : HttpExchange
  other_error : String → HttpExchange

-- The outside that an `httpx.Client` reaches. A post always carries the same tools/list body.
pub record Web (S : Type 0) : Type 0 where
  pub get : String → S → HttpExchange × S
  pub post : String → S → HttpExchange × S

abbrev pub well_known : String
well_known = "/.well-known/oauth-authorization-server"

-- `target.startswith(("http://", "https://"))`
abbrev pub is_http : String → Bool
is_http target = starts_with "http://" target || starts_with "https://" target

abbrev pub metadata_of : HttpExchange → Result (Option Object)
metadata_of http_error = value none
metadata_of (other_error e) = thrown e
metadata_of (answered r) =
    if not (r.status_code == 200)
    then value none
    else value (elim r.json [ none ↦ none | some v ↦ as_object v ])

abbrev pub auth_probe_of : HttpExchange → Result Object
auth_probe_of http_error = value []
auth_probe_of (other_error e) = thrown e
auth_probe_of (answered r) = value (
    ("status_code", int (pos r.status_code))
    ∷ ("www_authenticate", str (get_or r.www_authenticate ""))
    ∷ [])

module _ (urls : Urls) {S : Type 0} (web : Web S) where
  unfoldable pub fetch_oauth_metadata : String → S → Result (Option Object) × S
  fetch_oauth_metadata target s =
      if not (is_http target) then (value none, s) else elim (urls.split_url target) [
        | none ↦ (thrown "ValueError", s)
        | some (scheme, netloc) ↦
            let (exchange, s') = web.get (urls.join_url scheme netloc well_known) s in
            (metadata_of exchange, s')
      ]

  unfoldable pub probe_auth_challenge : String → S → Result Object × S
  probe_auth_challenge target s =
      if not (is_http target)
      then (value [], s)
      else let (exchange, s') = web.post target s in (auth_probe_of exchange, s')
