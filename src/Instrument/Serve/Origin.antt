-- ===== src/Instrument/Serve/Origin.antt =====
-- Where each result that the agent gets comes from, and which results carry the canary.
use agent_perimeter.Prelude.{
  ◌≡◌, refl, ◌∙◌, ap, sym, String, Bool, true, false, not, ◌&&◌, Option, none, some, List, [], ◌∷◌,
  ◌++◌, map, lookup, lookup-insert, get_or, ◌⊎◌, contains, ◌==◌, string_eq, Bool-cases,
  Option-cases, inl, inr,
}
use agent_perimeter.Json.{Value, str, obj, arr, field, end, Object, get_str, get_list}
use agent_perimeter.Graph.Build.{build_graph}
use agent_perimeter.Graph.Paths.{find_paths}
use agent_perimeter.Instrument.Redact.{Canary, sentence}
use agent_perimeter.Instrument.Recorder.{Library, CallRecord, record_call}
use agent_perimeter.Instrument.Proxy.{
  items_of, items-items_of, Attempt, answered, transport_error, failed, Upstream, Proxy, new_proxy,
  source_of, is_error, Dispatched, ended, no_tool_name, Response, result_reply, error_reply,
}
use agent_perimeter.Instrument.Serve.{
  greeting, injects, with_canary, call_ended, make_ready, call_tool, listing_ended, dispatch,
  reply_to, handle, handle_all,
}
use agent_perimeter.Instrument.Serve.Steps.{make_ready-Steps}
use agent_perimeter.Instrument.Serve.Keeps.{
  IsClassified, Steps-IsClassified, handle_all-IsClassified,
}
use agent_perimeter.Instrument.Serve.Watched.{Exchange, exchange, watching, calls_of}

module _ (py : Library) (canary : Canary) where
  -- A tool from which a path leads to a privileged sink, by the tools that the proxy knows.
  abbrev pub is_source : String → Proxy → Bool
  is_source name p =
      contains name (map source_of (find_paths (build_graph py.search p.merged.records)))

  -- The result with a text block of the canary's sentence at the end of its content, and each
  -- other entry as it was. A content that is no list is dropped.
  pub record Marks (result r : Object) : Type 0 where
    pub given : List Value
    pub content :
        (get_list "content" result ≡ some given)
        ⊎ ((get_list "content" result ≡ none) × (given ≡ []))
    pub marked_content :
        get_list "content" r
        ≡ some (
            given
            ++ obj (field "type" (str "text") (field "text" (str (sentence canary)) end)) ∷ [])
    pub others : (k : String) → (k == "content") ≡ false → lookup k r ≡ lookup k result

  with_canary-Marks : (result : Object) → Marks result (with_canary py canary result)
  unfolding with_canary
  with_canary-Marks result = record {
    given = get_or (get_list "content" result) [];
    content = elim (Option-cases (get_list "content" result)) [
      | inl missing ↦ rw missing (inr (refl, refl))
      | inr (given, e) ↦ rw e (inl refl)
    ];
    marked_content =
        let blocks : List Value =
          get_or (get_list "content" result) []
          ++ obj (field "type" (str "text") (field "text" (str (sentence canary)) end)) ∷ [] in
        let put = lookup-insert "content" "content" (arr (items_of blocks)) result in
        rw (put, get_list) (ap some (items-items_of blocks));
    others = λ k other.
        let blocks : List Value =
          get_or (get_list "content" result) []
          ++ obj (field "type" (str "text") (field "text" (str (sentence canary)) end)) ∷ [] in
        lookup-insert "content" k (arr (items_of blocks)) result ∙ rw other refl;
  }

  -- Where a result comes from, given the proxy and the exchanges that the message leaves.
  pub data Origin (p : Proxy) (log : List Exchange) (r : Object) : Type 0 where
    greets : (params : Option Object) → r ≡ greeting params → Origin p log r
    forwards :
        (before : List Exchange) (method : String) (params : Option Object)
        → log ≡ before ++ exchange method params (answered r) ∷ []
        → (method == "tools/call") ≡ false
        → Origin p log r
    -- the result of a call as it came, recorded as such
    unmarked :
        (before : List Exchange) (params : Object) (name : String) (earlier : List CallRecord)
        (call : CallRecord)
        → log ≡ before ++ exchange "tools/call" (some params) (answered r) ∷ []
        → get_str "name" params ≡ some name
        → (is_source name p && not (is_error r)) ≡ false
        → calls_of p ≡ earlier ++ call ∷ []
        → call.injected ≡ false
        → Origin p log r
    -- the result of a call with the canary, recorded as such
    marked :
        (before : List Exchange) (params result : Object) (name : String)
        (earlier : List CallRecord) (call : CallRecord)
        → log ≡ before ++ exchange "tools/call" (some params) (answered result) ∷ []
        → get_str "name" params ≡ some name
        → (is_source name p && not (is_error result)) ≡ true
        → Marks result r
        → calls_of p ≡ earlier ++ call ∷ []
        → call.injected ≡ true
        → Origin p log r

  abbrev pub OfAttempt : Proxy → List Exchange → Attempt → Type 0
  OfAttempt p log (answered r) = Origin p log r
  OfAttempt p log (transport_error code text) = Unit
  OfAttempt p log (failed type text) = Unit

  abbrev pub OfDispatched : Proxy → List Exchange → Dispatched → Type 0
  OfDispatched p log (ended outcome) = OfAttempt p log outcome
  OfDispatched p log no_tool_name = Unit

  abbrev pub OfReply : Proxy → List Exchange → Option Response → Type 0
  OfReply p log none = Unit
  OfReply p log (some (error_reply id code text)) = Unit
  OfReply p log (some (result_reply id r)) = Origin p log r

  forwarded :
      (p : Proxy) (log : List Exchange) (method : String) (params : Option Object)
      (outcome : Attempt)
      → (method == "tools/call") ≡ false
      → OfAttempt p (log ++ exchange method params outcome ∷ []) outcome
  forwarded p log method params (answered r) other = forwards log method params refl other
  forwarded p log method params (transport_error code text) other = tt
  forwarded p log method params (failed type text) other = tt

  call_ended-Origin :
      (name : String) (params : Object) (p : Proxy) (log : List Exchange) (outcome : Attempt)
      → IsClassified py canary p
      → get_str "name" params ≡ some name
      → let (q, result) = call_ended py canary name params p outcome in
        OfAttempt q (log ++ exchange "tools/call" (some params) outcome ∷ []) result
  unfolding call_ended record_call injects
  call_ended-Origin name params p log (transport_error code text) h given = tt
  call_ended-Origin name params p log (failed type text) h given = tt
  call_ended-Origin name params p log (answered r) h given =
      let source = ap (λ (l : List String). contains name l && not (is_error r)) h.of_sources in
      elim (Bool-cases (contains name p.sources && not (is_error r))) [
        | inl yes_ ↦ rw yes_ (
            marked log params r name (calls_of p) _ refl given (sym source ∙ yes_)
              (with_canary-Marks r) refl refl)
        | inr no_ ↦
            rw no_ (unmarked log params name (calls_of p) _ refl given (sym source ∙ no_) refl refl)
      ]

  reply_to-Origin :
      {S : Type 0} (t : Upstream S) (id : Value) (p : Proxy) (log : List Exchange) (d : Dispatched)
      → OfDispatched p log d
      → OfReply p log (some (reply_to py canary t id d))
  unfolding reply_to
  reply_to-Origin t id p log (ended (answered r)) h = h
  reply_to-Origin t id p log (ended (transport_error code text)) h = tt
  reply_to-Origin t id p log (ended (failed type text)) h = tt
  reply_to-Origin t id p log no_tool_name h = tt

  module _ {S : Type 0} (t : Upstream S) where
    call_tool-Origin :
        (params : Option Object) (p : Proxy) (s : S) (log : List Exchange)
        → IsClassified py canary p
        → let (q, (s', log'), d) = call_tool py canary (watching t) params p (s, log) in
          OfDispatched q log' d
    unfolding call_tool
    call_tool-Origin none p s log h = tt
    call_tool-Origin (some params) p s log h = elim (Option-cases (get_str "name" params)) [
      | inl missing ↦ rw (missing, call_tool) tt
      | inr (name, given) ↦
          let (q, (s', log')) = make_ready py canary (watching t) p (s, log) in
          let (outcome, s'') = t.request "tools/call" (some params) s' in
          rw (given, call_tool)
            (call_ended-Origin name params q log' outcome
              (Steps-IsClassified py canary (make_ready-Steps py canary (watching t) p (s, log)) h)
              given)
    ]

    dispatch-Origin :
        (method : String) (params : Option Object) (p : Proxy) (s : S) (log : List Exchange)
        → IsClassified py canary p
        → let (q, (s', log'), d) = dispatch py canary (watching t) method params p (s, log) in
          OfDispatched q log' d
    unfolding dispatch
    dispatch-Origin method params p s log h = elim (Bool-cases (method == "initialize")) [
      | inl a ↦ rw a (greets params refl)
      | inr a ↦ elim (Bool-cases (method == "tools/list")) [
        | inl b ↦
            let (outcome, s') = t.request "tools/list" params s in
            rw (a, b)
              (forwarded (listing_ended py canary (watching t) params p outcome) log "tools/list"
                params outcome refl)
        | inr b ↦ elim (Bool-cases (method == "tools/call")) [
          | inl c ↦ rw (a, b, c) (call_tool-Origin params p s log h)
          | inr c ↦
              let (outcome, s') = t.request method params s in
              rw (a, b, c) (forwarded p log method params outcome c)
        ]
      ]
    ]

    handle-Origin :
        (message : Object) (p : Proxy) (s : S) (log : List Exchange)
        → IsClassified py canary p
        → let (q, (s', log'), reply) = handle py canary (watching t) message p (s, log) in
          OfReply q log' reply
    unfolding handle
    handle-Origin message p s log h = elim (Option-cases (get_str "method" message)) [
      | inl missing ↦ rw (missing, handle) tt
      | inr (method, given) ↦ elim (Option-cases (lookup "id" message)) [
        | inl silent ↦ rw (given, handle, silent) tt
        | inr (id, asked) ↦
            rw (given, handle, asked)
              (reply_to-Origin (watching t) id _ _ _ (dispatch-Origin method _ p s log h))
      ]
    ]

    -- Whatever the session before, each result that the agent gets is the greeting, or what the target
    -- answered to the last request. That of a call carries the canary exactly if a path leads from its
    -- tool to a privileged sink, by the tools known, and the result is no error: then it is the
    -- target's result with the canary's block at the end of its content, and otherwise the target's
    -- result as it came; and the transcript's last call says which.
    pub handle_all-handle :
        (messages : List Object) (message : Object) (s : S)
        → let (p, (s', log), replies) =
            handle_all py canary (watching t) messages new_proxy (s, []) in
          let (q, (s'', log'), reply) = handle py canary (watching t) message p (s', log) in
          OfReply q log' reply
    handle_all-handle messages message s =
        let (p, (s', log), replies) =
          handle_all py canary (watching t) messages new_proxy (s, []) in
        handle-Origin message p s' log
          (handle_all-IsClassified py canary (watching t) messages (s, []))
