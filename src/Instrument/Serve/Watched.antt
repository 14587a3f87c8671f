-- ===== src/Instrument/Serve/Watched.antt =====
-- The transcript against what the target was really asked.
use mathlib.Core.List.{map-append}
use agent_perimeter.Prelude.{
  ℕ, zero, suc, ◌≡◌, refl, ◌∙◌, ap, sym, subst, String, false, not, ◌||◌, Option, none, some, List,
  [], ◌∷◌, ◌++◌, append_nil, map, lookup, is_some, get_or, contains, ◌==◌, string_eq, if◌then◌else◌,
  Bool-cases, Option-cases, inl, inr, first_chars,
}
use agent_perimeter.Json.{Value, null, Object, get_str}
use agent_perimeter.Discover.Paging.{max_tool_pages, page_params}
use agent_perimeter.Instrument.Redact.{Canary}
use agent_perimeter.Instrument.Recorder.{
  Library, CallRecord, hide, clean, max_result_chars, record_call, add_sinks, entry,
  mark_listing_incomplete,
}
use agent_perimeter.Instrument.Proxy.{
  Attempt, answered, transport_error, failed, Upstream, Proxy, new_proxy, listing_cursor, cursor_of,
  Round, stop, follow, listing_stopped, arguments_of,
}
use agent_perimeter.Instrument.Serve.{
  absorb, follow_cursor, page_round, page_through, recorded_text, injects, call_ended, make_ready,
  call_tool, listing_ended, dispatch, handle, handle_all,
}
use agent_perimeter.Instrument.Serve.Steps.{left_by, after_round, page_through-suc}

-- A request that reached the target, and what it ended in.
pub record Exchange : Type 0 where
  pub method : String
  pub params : Option Object
  pub outcome : Attempt

abbrev pub exchange : String → Option Object → Attempt → Exchange
exchange method params outcome = record { method = method; params = params; outcome = outcome }

-- The same target, with its exchanges, oldest first.
abbrev pub watching : {S : Type 0} → Upstream S → Upstream (S × List Exchange)
watching t = record {
  request = λ method params (s, log).
      let (outcome, s') = t.request method params s in
      (outcome, (s', log ++ exchange method params outcome ∷ []));
}

-- What a call's entry says of it: its name, its arguments and its result.
abbrev pub Saying : Type 0
Saying = String × Value × String

abbrev pub said : CallRecord → Saying
said c = (c.name, c.arguments, c.result)

abbrev pub calls_of : Proxy → List CallRecord
calls_of p = p.recorder.calls

module _ (py : Library) (canary : Canary) where
  -- What the transcript has to say of a tools/call with these params.
  abbrev pub saying : Option Object → Attempt → Saying
  saying none outcome = ("", null, "")
  saying (some params) outcome = (
    hide py canary (get_or (get_str "name" params) ""),
    clean py canary (arguments_of params),
    first_chars max_result_chars (hide py canary (recorded_text py canary outcome)),
  )

  -- What it has to say of the exchanges: of each tools/call, in their order.
  abbrev pub sayings : List Exchange → List Saying
  sayings [] = []
  sayings (e ∷ es) =
      let rest = sayings es in
      if e.method == "tools/call" then saying e.params e.outcome ∷ rest else rest

  sayings-append : (es fs : List Exchange) → sayings (es ++ fs) ≡ sayings es ++ sayings fs
  sayings-append [] fs = refl
  sayings-append (e ∷ es) fs = elim (Bool-cases (e.method == "tools/call")) [
    | inl call ↦ simp (call, sayings-append es fs) refl
    | inr other ↦ simp (other, sayings-append es fs) refl
  ]

  -- The transcript says of the calls what was asked of the target.
  abbrev pub Tells : List CallRecord → List Exchange → Type 0
  Tells calls log = map said calls ≡ sayings log

  -- A request that is no call leaves nothing to tell.
  Tells-other :
      (calls : List CallRecord) (log : List Exchange) (method : String) (params : Option Object)
      (outcome : Attempt)
      → (method == "tools/call") ≡ false
      → Tells calls log
      → Tells calls (log ++ exchange method params outcome ∷ [])
  Tells-other calls log method params outcome other h =
      h
      ∙ sym
          (sayings-append log (exchange method params outcome ∷ []) ∙ simp (other, append_nil) refl)

  absorb-calls :
      (listing : Object) (cursor : Option String) (p : Proxy)
      → calls_of (absorb py canary listing cursor p) ≡ calls_of p
  unfolding absorb add_sinks
  absorb-calls listing none p = refl
  absorb-calls listing (some cursor) p = refl

  listing_stopped-calls :
      (cursor : Option String) (p : Proxy) → calls_of (listing_stopped cursor p) ≡ calls_of p
  unfolding listing_stopped mark_listing_incomplete
  listing_stopped-calls none p = refl
  listing_stopped-calls (some cursor) p = refl

  follow_cursor-calls :
      (following : Option String) (requested : List String) (p : Proxy)
      → calls_of (left_by py canary (follow_cursor py canary following requested p)) ≡ calls_of p
  unfolding mark_listing_incomplete
  follow_cursor-calls none requested p = refl
  follow_cursor-calls (some following) requested p =
      elim (Bool-cases (contains following requested)) [
        | inl again ↦ rw again refl
        | inr new ↦ rw new refl
      ]

  page_round-calls :
      (cursor : Option String) (requested : List String) (p : Proxy) (outcome : Attempt)
      → calls_of (left_by py canary (page_round py canary cursor requested p outcome)) ≡ calls_of p
  unfolding page_round
  page_round-calls cursor requested p (answered listing) =
      follow_cursor-calls (listing_cursor listing) requested (absorb py canary listing cursor p)
      ∙ absorb-calls listing cursor p
  page_round-calls cursor requested p (transport_error code text) = listing_stopped-calls cursor p
  page_round-calls cursor requested p (failed type text) = listing_stopped-calls cursor p

  listing_ended-calls :
      {S : Type 0} (t : Upstream S) (params : Option Object) (p : Proxy) (outcome : Attempt)
      → calls_of (listing_ended py canary t params p outcome) ≡ calls_of p
  listing_ended-calls t params p (answered listing) = absorb-calls listing (cursor_of params) p
  listing_ended-calls t params p (transport_error code text) = refl
  listing_ended-calls t params p (failed type text) = refl

  call_ended-Tells :
      (name : String) (params : Object) (p : Proxy) (log : List Exchange) (outcome : Attempt)
      → get_str "name" params ≡ some name
      → Tells (calls_of p) log
      → Tells
          (calls_of (call_ended py canary name params p outcome).0)
          (log ++ exchange "tools/call" (some params) outcome ∷ [])
  unfolding call_ended record_call
  call_ended-Tells name params p log outcome given h =
      let called =
        entry py canary name (arguments_of params) (recorded_text py canary outcome)
          (injects py canary name p outcome) (lookup name p.sinks) in
      map-append said (calls_of p) (called ∷ [])
      ∙ ap (λ l. l ++ said called ∷ []) h
      ∙ ap
          (λ n.
            sayings log
            ++ (
              hide py canary n,
              clean py canary (arguments_of params),
              first_chars max_result_chars (hide py canary (recorded_text py canary outcome)),
            )
              ∷ [])
          (sym (ap (λ o. get_or o "") given))
      ∙ sym (sayings-append log (exchange "tools/call" (some params) outcome ∷ []))

  module _ {S : Type 0} (t : Upstream S) where
    -- After what was done: a proxy and the exchanges so far.
    abbrev pub Told : Proxy × (S × List Exchange) → Type 0
    Told (p, (s, log)) = Tells (calls_of p) log

    after_round-Told :
        (left : ℕ) (requested : List String) (p : Proxy) (r : Round) (s : S) (log : List Exchange)
        → calls_of (left_by py canary r) ≡ calls_of p
        → Tells (calls_of p) log
        → ((following : String) (q : Proxy)
            → Tells (calls_of q) log
            → Told (
                page_through py canary
                  (watching t)
                  left
                  (some following)
                  (following ∷ requested)
                  q
                  (s, log)))
        → Told (after_round py canary (watching t) left requested r (s, log))
    after_round-Told left requested p (stop q) s log e h loop = ap (map said) e ∙ h
    after_round-Told left requested p (follow following q) s log e h loop =
        loop following q (ap (map said) e ∙ h)

    page_through-Told :
        (left : ℕ) (cursor : Option String) (requested : List String) (p : Proxy) (s : S)
        (log : List Exchange)
        → Tells (calls_of p) log
        → Told (page_through py canary (watching t) left cursor requested p (s, log))
    unfolding page_through mark_listing_incomplete
    page_through-Told zero cursor requested p s log h = h
    page_through-Told (suc left) cursor requested p s log h =
        let (outcome, s') = t.request "tools/list" (page_params cursor) s in
        let log' = log ++ exchange "tools/list" (page_params cursor) outcome ∷ [] in
        subst Told (sym (page_through-suc py canary (watching t) left cursor requested p (s, log)))
          (after_round-Told left requested p (page_round py canary cursor requested p outcome) s'
            log' (page_round-calls cursor requested p outcome)
            (Tells-other (calls_of p) log "tools/list" (page_params cursor) outcome refl h)
            (λ following q h'.
              page_through-Told left (some following) (following ∷ requested) q s' log' h'))

    make_ready-Told :
        (p : Proxy) (s : S) (log : List Exchange)
        → Tells (calls_of p) log
        → Told (make_ready py canary (watching t) p (s, log))
    unfolding make_ready
    make_ready-Told p s log h = elim (Bool-cases (not p.listed || is_some p.pending)) [
      | inl stale ↦ rw stale (page_through-Told max_tool_pages p.pending [] p s log h)
      | inr ready ↦ rw ready h
    ]

    -- The proxy and the exchanges that a call or a message leaves.
    abbrev pub left_after {ℓ} :
        {A : Type ℓ} → Proxy × (S × List Exchange) × A → Proxy × (S × List Exchange)
    left_after (p, s, a) = (p, s)

    call_tool-Told :
        (params : Option Object) (p : Proxy) (s : S) (log : List Exchange)
        → Tells (calls_of p) log
        → Told (left_after (call_tool py canary (watching t) params p (s, log)))
    unfolding call_tool
    call_tool-Told none p s log h = h
    call_tool-Told (some params) p s log h = elim (Option-cases (get_str "name" params)) [
      | inl missing ↦ rw (missing, call_tool) h
      | inr (name, given) ↦
          let (q, (s', log')) = make_ready py canary (watching t) p (s, log) in
          let (outcome, s'') = t.request "tools/call" (some params) s' in
          rw (given, call_tool)
            (call_ended-Tells name params q log' outcome given (make_ready-Told p s log h))
    ]

    dispatch-Told :
        (method : String) (params : Option Object) (p : Proxy) (s : S) (log : List Exchange)
        → Tells (calls_of p) log
        → Told (left_after (dispatch py canary (watching t) method params p (s, log)))
    unfolding dispatch
    dispatch-Told method params p s log h = elim (Bool-cases (method == "initialize")) [
      | inl a ↦ rw a h
      | inr a ↦ elim (Bool-cases (method == "tools/list")) [
        | inl b ↦
            let (outcome, s') = t.request "tools/list" params s in
            rw (a, b)
              (ap (map said) (listing_ended-calls (watching t) params p outcome)
                ∙ Tells-other (calls_of p) log "tools/list" params outcome refl h)
        | inr b ↦ elim (Bool-cases (method == "tools/call")) [
          | inl c ↦ rw (a, b, c) (call_tool-Told params p s log h)
          | inr c ↦
              let (outcome, s') = t.request method params s in
              rw (a, b, c) (Tells-other (calls_of p) log method params outcome c h)
        ]
      ]
    ]

    handle-Told :
        (message : Object) (p : Proxy) (s : S) (log : List Exchange)
        → Tells (calls_of p) log
        → Told (left_after (handle py canary (watching t) message p (s, log)))
    unfolding handle
    handle-Told message p s log h = elim (Option-cases (get_str "method" message)) [
      | inl missing ↦ rw (missing, handle) h
      | inr (method, given) ↦ elim (Option-cases (lookup "id" message)) [
        | inl silent ↦ rw (given, handle, silent) h
        | inr (id, asked) ↦ rw (given, handle, asked) (dispatch-Told method _ p s log h)
      ]
    ]

    handle_all-Told :
        (messages : List Object) (p : Proxy) (s : S) (log : List Exchange)
        → Tells (calls_of p) log
        → Told (left_after (handle_all py canary (watching t) messages p (s, log)))
    unfolding handle_all
    handle_all-Told [] p s log h = h
    handle_all-Told (message ∷ messages) p s log h =
        let (q, (s', log'), reply) = handle py canary (watching t) message p (s, log) in
        handle_all-Told messages q s' log' (handle-Told message p s log h)

    -- Nothing that the agent called is missing from the transcript, and nothing in it was not called:
    -- after any session with a new proxy, its calls are the tools/call requests that the target was
    -- sent, in their order, each with its name, its arguments and the text of what it ended in, all
    -- redacted, and the text cut at 2048 characters.
    pub handle_all-tells :
        (messages : List Object) (s : S)
        → let (p, (s', log), replies) =
            handle_all py canary (watching t) messages new_proxy (s, []) in
          map said p.recorder.calls ≡ sayings log
    unfolding new_proxy
    handle_all-tells messages s = handle_all-Told messages new_proxy s [] refl
