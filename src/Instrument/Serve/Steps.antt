-- ===== src/Instrument/Serve/Steps.antt =====
-- The changes that a message makes to the proxy, as a step relation: whatever is kept by each step is
-- kept by any session.
use agent_perimeter.Prelude.{
  ℕ, zero, suc, ◌≡◌, sym, subst, String, not, ◌||◌, Option, none, some, List, [], ◌∷◌, lookup,
  is_some, contains, ◌==◌, string_eq, arith, Bool-cases, Option-cases, inl, inr,
}
use agent_perimeter.Json.{Object, get_str}
use agent_perimeter.Discover.Paging.{max_tool_pages, page_params}
use agent_perimeter.Instrument.Redact.{Canary}
use agent_perimeter.Instrument.Recorder.{
  Library, Reason, repeat_cursor, page_cap, first_page_failed, page_failed,
}
use agent_perimeter.Instrument.Proxy.{
  Attempt, answered, transport_error, failed, Upstream, Proxy, listing_cursor, cursor_of, Round,
  stop, follow, stop_listing, listing_stopped,
}
use agent_perimeter.Instrument.Serve.{
  absorb, follow_cursor, page_round, page_through, call_ended, make_ready, call_tool, listing_ended,
  dispatch, handle, handle_all,
}

module _ (py : Library) (canary : Canary) where
  pub data Step (p : Proxy) : Proxy → Type 0 where
    absorbs :
        (listing : Object) (cursor : Option String) → Step p (absorb py canary listing cursor p)
    stops : (reason : Reason) → Step p (stop_listing reason p)
    settles : Step p (record p { pending = none })
    calls :
        (name : String) (params : Object) (outcome : Attempt)
        → Step p (call_ended py canary name params p outcome).0

  pub data Steps (p : Proxy) : Proxy → Type 0 where
    here : Steps p p
    next : {q r : Proxy} → Steps p q → Step q r → Steps p r

  Steps-trans : {p q r : Proxy} → Steps p q → Steps q r → Steps p r
  Steps-trans a here = a
  Steps-trans a (next b st) = next (Steps-trans a b) st

  listing_stopped-Steps : (cursor : Option String) (p : Proxy) → Steps p (listing_stopped cursor p)
  unfolding listing_stopped
  listing_stopped-Steps none p = next here (stops first_page_failed)
  listing_stopped-Steps (some cursor) p = next here (stops page_failed)

  -- The proxy that a round leaves.
  abbrev pub left_by : Round → Proxy
  left_by (stop p) = p
  left_by (follow following p) = p

  follow_cursor-Steps :
      (following : Option String) (requested : List String) (p : Proxy)
      → Steps p (left_by (follow_cursor py canary following requested p))
  follow_cursor-Steps none requested p = next here settles
  follow_cursor-Steps (some following) requested p =
      elim (Bool-cases (contains following requested)) [
        | inl again ↦ rw again (next here (stops repeat_cursor))
        | inr new ↦ rw new here
      ]

  page_round-Steps :
      (cursor : Option String) (requested : List String) (p : Proxy) (outcome : Attempt)
      → Steps p (left_by (page_round py canary cursor requested p outcome))
  unfolding page_round
  page_round-Steps cursor requested p (answered listing) =
      Steps-trans (next here (absorbs listing cursor))
        (follow_cursor-Steps (listing_cursor listing) requested (absorb py canary listing cursor p))
  page_round-Steps cursor requested p (transport_error code text) = listing_stopped-Steps cursor p
  page_round-Steps cursor requested p (failed type text) = listing_stopped-Steps cursor p

  module _ {S : Type 0} (t : Upstream S) where
    -- What a loop of pages does after its first round.
    abbrev pub after_round : ℕ → List String → Round → S → Proxy × S
    after_round left requested (stop p) s = (p, s)
    after_round left requested (follow following p) s =
        page_through py canary t left (some following) (following ∷ requested) p s

    pub page_through-suc :
        (left : ℕ) (cursor : Option String) (requested : List String) (p : Proxy) (s : S)
        → let (outcome, s') = t.request "tools/list" (page_params cursor) s in
          page_through py canary t (suc left) cursor requested p s
          ≡ after_round left requested (page_round py canary cursor requested p outcome) s'
    unfolding page_through
    page_through-suc left cursor requested p s = ground arith

    after_round-Steps :
        (left : ℕ) (requested : List String) (p : Proxy) (r : Round) (s : S)
        → Steps p (left_by r)
        → ((following : String) (q : Proxy)
            → Steps q
                (page_through py canary t left (some following) (following ∷ requested) q s).0)
        → Steps p (after_round left requested r s).0
    after_round-Steps left requested p (stop q) s a loop = a
    after_round-Steps left requested p (follow following q) s a loop =
        Steps-trans a (loop following q)

    page_through-Steps :
        (left : ℕ) (cursor : Option String) (requested : List String) (p : Proxy) (s : S)
        → Steps p (page_through py canary t left cursor requested p s).0
    unfolding page_through
    page_through-Steps zero cursor requested p s = next here (stops page_cap)
    page_through-Steps (suc left) cursor requested p s =
        let (outcome, s') = t.request "tools/list" (page_params cursor) s in
        subst (λ r. Steps p r.0) (sym (page_through-suc left cursor requested p s))
          (after_round-Steps left requested p (page_round py canary cursor requested p outcome) s'
            (page_round-Steps cursor requested p outcome)
            (λ following q. page_through-Steps left (some following) (following ∷ requested) q s'))

    pub make_ready-Steps : (p : Proxy) (s : S) → Steps p (make_ready py canary t p s).0
    unfolding make_ready
    make_ready-Steps p s = elim (Bool-cases (not p.listed || is_some p.pending)) [
      | inl stale ↦ rw stale (page_through-Steps max_tool_pages p.pending [] p s)
      | inr ready ↦ rw ready here
    ]

    call_tool-Steps :
        (params : Option Object) (p : Proxy) (s : S) → Steps p (call_tool py canary t params p s).0
    unfolding call_tool
    call_tool-Steps none p s = here
    call_tool-Steps (some params) p s = elim (Option-cases (get_str "name" params)) [
      | inl missing ↦ rw (missing, call_tool) here
      | inr (name, given) ↦
          let (q, s') = make_ready py canary t p s in
          let (outcome, s'') = t.request "tools/call" (some params) s' in
          rw (given, call_tool) (next (make_ready-Steps p s) (calls name params outcome))
    ]

    listing_ended-Steps :
        (params : Option Object) (p : Proxy) (outcome : Attempt)
        → Steps p (listing_ended py canary t params p outcome)
    listing_ended-Steps params p (answered listing) = next here (absorbs listing (cursor_of params))
    listing_ended-Steps params p (transport_error code text) = here
    listing_ended-Steps params p (failed type text) = here

    dispatch-Steps :
        (method : String) (params : Option Object) (p : Proxy) (s : S)
        → Steps p (dispatch py canary t method params p s).0
    unfolding dispatch
    dispatch-Steps method params p s = elim (Bool-cases (method == "initialize")) [
      | inl a ↦ rw a here
      | inr a ↦ elim (Bool-cases (method == "tools/list")) [
        | inl b ↦ rw (a, b) (listing_ended-Steps params p (t.request "tools/list" params s).0)
        | inr b ↦ elim (Bool-cases (method == "tools/call")) [
          | inl c ↦ rw (a, b, c) (call_tool-Steps params p s)
          | inr c ↦ rw (a, b, c) here
        ]
      ]
    ]

    -- The proxy that a message leaves is reached from the one before it by steps.
    pub handle-Steps :
        (message : Object) (p : Proxy) (s : S) → Steps p (handle py canary t message p s).0
    unfolding handle
    handle-Steps message p s = elim (Option-cases (get_str "method" message)) [
      | inl missing ↦ rw (missing, handle) here
      | inr (method, given) ↦ elim (Option-cases (lookup "id" message)) [
        | inl silent ↦ rw (given, handle, silent) here
        | inr (id, asked) ↦ rw (given, handle, asked) (dispatch-Steps method _ p s)
      ]
    ]

    pub handle_all-Steps :
        (messages : List Object) (p : Proxy) (s : S)
        → Steps p (handle_all py canary t messages p s).0
    unfolding handle_all
    handle_all-Steps [] p s = here
    handle_all-Steps (message ∷ messages) p s =
        let (q, s', reply) = handle py canary t message p s in
        Steps-trans (handle-Steps message p s) (handle_all-Steps messages q s')
