-- ===== src/Instrument/Serve.antt =====
-- The methods of the Proxy of agent_perimeter/instrument/proxy.py. Each takes the proxy and the target's
-- state, and returns both; the log lines are left out.
pub mod Steps
pub mod Keeps
pub mod Watched
pub mod Origin
use agent_perimeter.Prelude.{
  ℕ, zero, suc, ◌+◌, ℤ, negsuc, String, Bool, true, false, not, ◌&&◌, ◌||◌, Option, none, some,
  List, [], ◌∷◌, ◌++◌, map, lookup, insert, has_key, is_some, get_or, contains, ◌==◌, string_eq,
  if◌then◌else◌, plus,
}
use agent_perimeter.Json.{
  Value, str, int, null, obj, arr, field, end, Object, get_object, get_list, get_str,
}
use agent_perimeter.Discover.Parse.{parse_tools}
use agent_perimeter.Discover.Merge.{merge_page}
use agent_perimeter.Discover.Paging.{max_tool_pages, page_params}
use agent_perimeter.Graph.Build.{CapabilityEdge, build_graph}
use agent_perimeter.Graph.Paths.{SinkClass, find_paths, classify_sinks}
use agent_perimeter.Instrument.Redact.{Canary, sentence}
use agent_perimeter.Instrument.Recorder.{
  Library, repeat_cursor, page_cap, hide, record_call, add_sinks, mark_listing_incomplete,
}
use agent_perimeter.Instrument.Proxy.{
  Attempt, answered, transport_error, failed, Upstream, Proxy, listing_cursor, cursor_of, text_of,
  source_of, starts_listing, items_of, is_error, code_or_internal, Dispatched, ended, no_tool_name,
  no_method, needs_name, upstream_text, request_failed, Response, result_reply, error_reply, Round,
  stop, follow, stop_listing, listing_stopped, arguments_of,
}

abbrev pub requested_version : Option Object → Option String
requested_version none = none
requested_version (some params) = get_str "protocolVersion" params

-- The result of `initialize`.
abbrev pub greeting : Option Object → Object
greeting params =
    ("protocolVersion", str (get_or (requested_version params) "2025-11-25"))
    ∷ ("capabilities", obj (field "tools" (obj end) end))
    ∷ (
      "serverInfo",
      obj (field "name" (str "agent-perimeter-instrument") (field "version" (str "0.1.0") end)),
    )
    ∷ []

module _ (py : Library) (canary : Canary) where
  -- What `_absorb` sets once the page is merged into the records.
  abbrev pub classified : List CapabilityEdge → Proxy → Proxy
  classified edges p = record p {
    sources = map source_of (find_paths edges);
    sinks = classify_sinks edges;
    recorder = add_sinks py canary (classify_sinks edges) p.recorder;
  }

  abbrev pub with_page : Object → Proxy → Proxy
  with_page listing p = record p {
    merged = merge_page (parse_tools py.render listing) p.merged;
    pages = p.pages + 1;
    listed = true;
    pending = listing_cursor listing;
  }

  -- `_absorb`
  unfoldable pub absorb : Object → Option String → Proxy → Proxy
  absorb listing cursor p =
      let q = with_page listing (starts_listing cursor p) in
      classified (build_graph py.search q.merged.records) q

  -- From `following` on.
  abbrev pub follow_cursor : Option String → List String → Proxy → Round
  follow_cursor none requested p = stop (record p { pending = none })
  follow_cursor (some following) requested p =
      if contains following requested
      then stop (stop_listing repeat_cursor p)
      else follow following p

  -- One round of `_page_through`, from the end of the request on.
  unfoldable pub page_round : Option String → List String → Proxy → Attempt → Round
  page_round cursor requested p (answered listing) =
      follow_cursor (listing_cursor listing) requested (absorb listing cursor p)
  page_round cursor requested p (transport_error code text) = stop (listing_stopped cursor p)
  page_round cursor requested p (failed type text) = stop (listing_stopped cursor p)

  -- `_page_through`, with the pages that the cap leaves.
  unfoldable pub page_through :
      {S : Type 0} → Upstream S → ℕ → Option String → List String → Proxy → S → Proxy × S
  page_through t zero cursor requested p s = (stop_listing page_cap p, s)
  page_through t (suc left) cursor requested p s =
      let (outcome, s') = t.request "tools/list" (page_params cursor) s in
      elim (page_round cursor requested p outcome) [
        | stop p' ↦ (p', s')
        | follow following p' ↦ page_through t left (some following) (following ∷ requested) p' s'
      ]

  -- The text of the result that is recorded for a call.
  unfoldable pub recorded_text : Attempt → String
  recorded_text (answered result) = text_of py.render result
  recorded_text (transport_error code text) =
      plus "error " (plus (py.render (int (code_or_internal code))) (plus ": " text))
  recorded_text (failed type text) = plus "error -32603: " (plus type (plus ": " text))

  -- `inject`
  unfoldable pub injects : String → Proxy → Attempt → Bool
  injects name p (answered result) = contains name p.sources && not (is_error result)
  injects name p (transport_error code text) = false
  injects name p (failed type text) = false

  abbrev pub sentence_block : Value
  sentence_block = obj (field "type" (str "text") (field "text" (str (sentence canary)) end))

  -- `{**result, "content": blocks}`
  unfoldable pub with_canary : Object → Object
  with_canary result =
      insert "content"
        (arr (items_of (get_or (get_list "content" result) [] ++ sentence_block ∷ []))) result

  abbrev pub passed_on : Bool → Attempt → Attempt
  passed_on inject (answered result) =
      if inject then answered (with_canary result) else answered result
  passed_on inject (transport_error code text) = transport_error code text
  passed_on inject (failed type text) = failed type text

  -- From the end of the call's own request on.
  unfoldable pub call_ended : String → Object → Proxy → Attempt → Proxy × Attempt
  call_ended name params p outcome = (
    record p {
      recorder =
          record_call py canary name (arguments_of params) (recorded_text outcome)
            (injects name p outcome) (lookup name p.sinks) p.recorder;
    },
    passed_on (injects name p outcome) outcome,
  )

  module _ {S : Type 0} (t : Upstream S) where
    -- What precedes a call: the listing is completed where it is not.
    unfoldable pub make_ready : Proxy → S → Proxy × S
    make_ready p s =
        if not p.listed || is_some p.pending
        then page_through t max_tool_pages p.pending [] p s
        else (p, s)

    abbrev pub call_named : String → Object → Proxy → S → Proxy × S × Dispatched
    call_named name params p s =
        let (p', s') = make_ready p s in
        let (outcome, s'') = t.request "tools/call" (some params) s' in
        let (p'', result) = call_ended name params p' outcome in (p'', s'', ended result)

    -- `_call_tool`
    unfoldable pub call_tool : Option Object → Proxy → S → Proxy × S × Dispatched
    call_tool none p s = (p, s, no_tool_name)
    call_tool (some params) p s = elim (get_str "name" params) [
      | none ↦ (p, s, no_tool_name)
      | some name ↦ call_named name params p s
    ]

    abbrev pub listing_ended : Option Object → Proxy → Attempt → Proxy
    listing_ended params p (answered listing) = absorb listing (cursor_of params) p
    listing_ended params p (transport_error code text) = p
    listing_ended params p (failed type text) = p

    -- `_dispatch`
    unfoldable pub dispatch : String → Option Object → Proxy → S → Proxy × S × Dispatched
    dispatch method params p s =
        if method == "initialize"
        then (p, s, ended (answered (greeting params)))
        else if method == "tools/list"
        then (let (outcome, s') = t.request "tools/list" params s in
            (listing_ended params p outcome, s', ended outcome))
        else if method == "tools/call"
        then call_tool params p s
        else (let (outcome, s') = t.request method params s in (p, s', ended outcome))

    -- What `handle` answers to a request with an id.
    unfoldable pub reply_to : Value → Dispatched → Response
    reply_to id (ended (answered result)) = result_reply id result
    reply_to id (ended (transport_error code text)) =
        error_reply id (code_or_internal code) (upstream_text (hide py canary text))
    reply_to id (ended (failed type text)) =
        error_reply id (negsuc 32602) (request_failed type (hide py canary text))
    reply_to id no_tool_name = error_reply id (negsuc 32601) needs_name

    abbrev pub handle_request :
        String → Object → Option Value → Proxy → S → Proxy × S × Option Response
    handle_request method message none p s = (p, s, none)
    handle_request method message (some id) p s =
        let (p', s', d) = dispatch method (get_object "params" message) p s in
        (p', s', some (reply_to id d))

    unfoldable pub handle : Object → Proxy → S → Proxy × S × Option Response
    handle message p s = elim (get_str "method" message) [
      | none ↦
          (p, s, some (error_reply (get_or (lookup "id" message) null) (negsuc 32599) no_method))
      | some method ↦ handle_request method message (lookup "id" message) p s
    ]

    -- The messages of a session, one after the other, with the replies.
    unfoldable pub handle_all : List Object → Proxy → S → Proxy × S × List (Option Response)
    handle_all [] p s = (p, s, [])
    handle_all (message ∷ messages) p s =
        let (p', s', reply) = handle message p s in
        let (p'', s'', replies) = handle_all messages p' s' in (p'', s'', reply ∷ replies)
