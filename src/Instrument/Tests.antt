-- ===== src/Instrument/Tests.antt =====
-- A session with a target of two tools, at which the theorems on the proxy are applied.
use agent_perimeter.Prelude.{
  ℕ, ◌≡◌, refl, String, ◌&&◌, Option, none, some, [], ◌∷◌, map, ◌==◌, string_eq, pos, if◌then◌else◌,
  has_text,
}
use agent_perimeter.Json.{Value, str, int, obj, arr, field, end, cons, nil, Object}
use agent_perimeter.Discover.Parse.{parse, parse_entries, parse_tools}
use agent_perimeter.Discover.Merge.{merge_record, merge_records, merge_page}
use agent_perimeter.Graph.Build.{add_name, add_names, add_description, found_of, build_graph}
use agent_perimeter.Graph.Policy.{grouped_from, capabilities_by_tool}
use agent_perimeter.Graph.Paths.{find_paths}
use agent_perimeter.Instrument.Patterns.{
  apply_patterns, sub_from, match_length, after_lead, run_length,
}
use agent_perimeter.Instrument.Redact.{
  Canary, redact, decode_rounds, still_encoded, redact_patterns, sentence,
}
use agent_perimeter.Instrument.Recorder.{Library}
use agent_perimeter.Instrument.Recorder.Later.{Later}
use agent_perimeter.Instrument.Proxy.{
  answered, failed, Upstream, new_proxy, listing_cursor, result_reply,
}
use agent_perimeter.Instrument.Serve.{
  absorb, page_round, page_through, recorded_text, injects, with_canary, call_ended, make_ready,
  call_tool, dispatch, reply_to, handle, handle_all,
}
use agent_perimeter.Instrument.Serve.Keeps.{handle_all-Later}
use agent_perimeter.Instrument.Serve.Watched.{watching, said, sayings, handle_all-tells}
use agent_perimeter.Instrument.Serve.Origin.{OfReply, handle_all-handle}

abbrev search : String → String → Option String
search pattern text =
    if (pattern == "^(url|uri|endpoint|host|webhook|callback)$") && (text == "url")
    then some "url"
    else if (pattern == "^(command|cmd|script|shell|exec|argv)$") && (text == "cmd")
    then some "cmd"
    else none

-- Decodes one text.
abbrev unquote : String → String
unquote text = if text == "%67hp_aaaaaaaaaaaaaaaaaaaa" then "ghp_aaaaaaaaaaaaaaaaaaaa" else text

abbrev library : Library
library = record { search = search; unquote = unquote; render = λ v. "7" }

abbrev canary : Canary
canary = record { nonce = "00" }

glued_redacted :
    apply_patterns "key_ghp_aaaaaaaaaaaaaaaaaaZZ9!" ≡ "key_[REDACTED:github_pat:ghp_...aZZ9]!"
unfolding apply_patterns sub_from match_length after_lead run_length
glued_redacted = refl

encoded_redacted :
    redact unquote none "%67hp_aaaaaaaaaaaaaaaaaaaa" ≡ "[REDACTED:github_pat:ghp_...aaaa]"
unfolding redact decode_rounds still_encoded redact_patterns apply_patterns sub_from match_length
    after_lead run_length has_text
encoded_redacted = refl

abbrev tool : String → String → Value
tool name parameter = obj (
    field "name" (str name) (
      field "inputSchema" (obj (field "properties" (obj (field parameter (obj end) end)) end)) end))

abbrev listing : Object
listing = ("tools", arr (cons (tool "fetch" "url") (cons (tool "shell" "cmd") nil))) ∷ []

abbrev greeted : Object
greeted =
    ("content", arr (cons (obj (field "type" (str "text") (field "text" (str "hello") end))) nil))
    ∷ []

-- The target lists its tools and answers each call with a greeting.
abbrev target : Upstream (Unit {0})
target = record {
  request = λ method params s.
      if method == "tools/list"
      then (answered listing, s)
      else if method == "tools/call"
      then (answered greeted, s)
      else (failed "OSError" "closed", s);
}

abbrev call : ℕ → String → Value → Object
call id name arguments =
    ("jsonrpc", str "2.0")
    ∷ ("id", int (pos id))
    ∷ ("method", str "tools/call")
    ∷ ("params", obj (field "name" (str name) (field "arguments" arguments end)))
    ∷ []

abbrev fetch_call : Object
fetch_call = call 1 "fetch" (obj (field "url" (str "http://a.test") end))

abbrev fetch_reply : Object
fetch_reply =
    (
      "content",
      arr (
          cons (obj (field "type" (str "text") (field "text" (str "hello") end))) (
            cons (obj (field "type" (str "text") (field "text" (str (sentence canary)) end))) nil)),
    )
    ∷ []

fetch_marked :
    (handle library canary target fetch_call new_proxy tt).2
    ≡ some (result_reply (int (pos 1)) fetch_reply)
unfolding handle dispatch call_tool make_ready page_through page_round absorb call_ended injects
    with_canary recorded_text new_proxy listing_cursor parse_tools parse_entries parse merge_page
    merge_records merge_record build_graph found_of add_names add_name add_description find_paths
    capabilities_by_tool grouped_from reply_to
fetch_marked = refl

abbrev shell_call : Object
shell_call = call 2 "shell" (obj (field "cmd" (str "echo AP-CANARY-00") end))

handle_all-Later_example :
    Later new_proxy.recorder
      (handle_all library canary target (fetch_call ∷ shell_call ∷ []) new_proxy tt).0.recorder
handle_all-Later_example =
    handle_all-Later library canary target (fetch_call ∷ shell_call ∷ []) new_proxy tt

handle_all-tells_example :
    let (p, (s', log), replies) =
      handle_all library canary
        (watching target)
        (fetch_call ∷ shell_call ∷ [])
        new_proxy
        (tt, []) in
    map said p.recorder.calls ≡ sayings library canary log
handle_all-tells_example = handle_all-tells library canary target (fetch_call ∷ shell_call ∷ []) tt

handle_all-handle_example :
    let (p, (s', log), replies) =
      handle_all library canary (watching target) (fetch_call ∷ []) new_proxy (tt, []) in
    let (q, (s'', log'), reply) = handle library canary (watching target) shell_call p (s', log) in
    OfReply library canary q log' reply
handle_all-handle_example = handle_all-handle library canary target (fetch_call ∷ []) shell_call tt
