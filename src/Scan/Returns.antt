-- ===== src/Scan/Returns.antt =====
-- When a scan returns: the conditions under which no exception leaves `run_scan`.
use agent_perimeter.Prelude.{
  String, ◌≡◌, refl, ◌≢◌, inl, inr, true, false, not, none, some, List, [], ◌∷◌, string_eq, ◌==◌,
  eq_iff, arith, All, contains, subst, Bool-cases, Option-cases, nat_eq,
}
use agent_perimeter.Transport.Revision.{Fingerprint, fingerprint}
use agent_perimeter.Model.Scope.{Authorises, require_scope_iff}
use agent_perimeter.Model.Snapshot.{ToolSnapshot, from_tools}
use agent_perimeter.Discover.Parse.{ToolRecord}
use agent_perimeter.Discover.Paging.{ToolListing, list_tools}
use agent_perimeter.Drift.Compare.{
  DriftEvent, Outcome, events, other_target, not_an_int, compare, compare_tools,
}
use agent_perimeter.Checks.Registry.{Check}
use agent_perimeter.Checks.Run.{Program}
use agent_perimeter.Transport.{Reply, ok, error, raises, Result, value, thrown, Result-cases}
use agent_perimeter.Checks.Context.{passive_methods}
use agent_perimeter.Scan.Answers.{
  IsValue, IsAnswer, AnswersPassive, fingerprint-IsValue, list_tools-IsValue,
}
use agent_perimeter.Scan.Probes.{
  Web, HttpExchange, answered, http_error, other_error, metadata_of, auth_probe_of, is_http,
  well_known, fetch_oauth_metadata, probe_auth_challenge,
}
use agent_perimeter.Api.Events.{EventFrame}
use agent_perimeter.Scan.Setup.{
  ScanMode, passive, active, Endpoint, World, Python, Raw, Arguments, ScanContext, ScanOutcome,
  Scan, scanned, other_baseline, refused, no_transport, failed, build_transport, add_reply,
  baseline_differs, scan_gate,
}
use agent_perimeter.Scan.Runner.{
  after_call, drift_of, raw_replies, run_applicable, run_listed, enumerate, probe, connected,
  open_and_scan, run_scan,
}

abbrev pub Returned : {F : Type 0} → Scan F → Type 0
Returned (scanned o fs) = Unit
Returned other_baseline = ⊥
Returned (refused r) = ⊥
Returned no_transport = ⊥
Returned (failed e) = ⊥

-- httpx answers, or raises one of its own `HTTPError`s.
pub record IsHttp {S : Type 0} (web : Web S) : Type 0 where
  pub get : (url reason : String) (s : S) → (web.get url s).0 ≢ other_error reason
  pub post : (url reason : String) (s : S) → (web.post url s).0 ≢ other_error reason

metadata_of-IsValue :
    (x : HttpExchange) → ((reason : String) → x ≢ other_error reason) → IsValue (metadata_of x)
metadata_of-IsValue http_error h = tt
metadata_of-IsValue (other_error e) h = h e refl
metadata_of-IsValue (answered r) h = elim (Bool-cases (r.status_code == 200)) [
  | inl found ↦ rw (found, metadata_of) tt
  | inr other ↦ rw (other, metadata_of) tt
]

auth_probe_of-IsValue :
    (x : HttpExchange) → ((reason : String) → x ≢ other_error reason) → IsValue (auth_probe_of x)
auth_probe_of-IsValue http_error h = tt
auth_probe_of-IsValue (other_error e) h = h e refl
auth_probe_of-IsValue (answered r) h = tt

module _ (py : Python) (a : Arguments) where
  -- What a scan of these arguments needs to return.
  pub record IsReady {S : Type 0} (w : World S) : Type 0 where
    pub fits : (b : ToolSnapshot) → a.baseline ≡ some b → b.target ≡ a.target
    pub cleared : a.mode ≡ active → Authorises a.scope a.target a.today
    pub endpoint : Endpoint
    pub built : build_transport py.shlex_split a.contact a.target a.image a.env ≡ some endpoint
    pub opens : (s : S) → (w.connect endpoint s).0 ≡ true
    pub splits : py.urls.split_url a.target ≢ none
    pub answers : AnswersPassive w.transport
    pub http : IsHttp w.web
    -- the keys of the tools are numbers that `int` reads
    pub readable :
        (b : ToolSnapshot) (tools : List ToolRecord)
        → a.baseline ≡ some b
        → compare_tools py.arrange py.sha256 b a.target tools a.now ≢ not_an_int

  compare_tools-target :
      (b : ToolSnapshot) (tools : List ToolRecord)
      → b.target ≡ a.target
      → compare_tools py.arrange py.sha256 b a.target tools a.now ≢ other_target
  unfolding compare_tools compare from_tools
  compare_tools-target b tools same h = ground (arith, eq_iff b.target a.target)

  drift_of-returns :
      (listing : ToolListing)
      → ((b : ToolSnapshot) → a.baseline ≡ some b → b.target ≡ a.target)
      → ((b : ToolSnapshot) (tools : List ToolRecord)
          → a.baseline ≡ some b
          → compare_tools py.arrange py.sha256 b a.target tools a.now ≢ not_an_int)
      → (drift : List DriftEvent) × (drift_of py a listing ≡ some drift)
  unfolding drift_of
  drift_of-returns listing fits readable = elim (Option-cases a.baseline) [
    | inl without ↦ ([], rw (without, drift_of) refl)
    | inr (b, has) ↦ elim (Bool-cases listing.complete) [
      | inr partial ↦ ([], rw (has, partial, drift_of) refl)
      | inl complete ↦
          split b has complete (compare_tools py.arrange py.sha256 b a.target listing.tools a.now)
            refl
    ]
  ]
    where
      split :
          (b : ToolSnapshot)
          → a.baseline ≡ some b
          → listing.complete ≡ true
          → (o : Outcome) → compare_tools py.arrange py.sha256 b a.target listing.tools a.now ≡ o
          → (drift : List DriftEvent) × (drift_of py a listing ≡ some drift)
      split b has complete (events found) e = (found, rw (has, complete, e, drift_of) refl)
      split b has complete other_target e =
          absurd (compare_tools-target b listing.tools (fits b has) e)
      split b has complete not_an_int e = absurd (readable b listing.tools has e)

  module _ {F S : Type 0} (run : ScanContext → Check → Program F) (w : World S)
      (ready : IsReady w) where
    after_call-Returned :
        {A : Type 0} (r : Result A) (s : S) (k : A → S → Scan F × S)
        → IsValue r
        → ((x : A) → Returned (k x s).0)
        → Returned (after_call (r, s) k).0
    after_call-Returned (value x) s k v h = h x
    after_call-Returned (thrown reason) s k v h = v

    run_listed-Returned :
        (fp : Fingerprint) (raw : Raw) (listing : ToolListing) (s : S)
        → Returned (run_listed py run w a fp raw listing s).0
    unfolding run_listed run_applicable
    run_listed-Returned fp raw listing s =
        let (drift, e) = drift_of-returns listing ready.fits ready.readable in rw (e, run_listed) tt

    enumerate-Returned :
        (fp : Fingerprint) (raw : Raw) (s : S) → Returned (enumerate py run w a fp raw s).0
    unfolding enumerate
    enumerate-Returned fp raw s =
        let (listing, s') = list_tools py.render w.transport s in
        after_call-Returned listing s' _ (list_tools-IsValue py.render w.transport ready.answers s)
          (λ l. run_listed-Returned fp raw l s')

    add_reply-IsValue :
        (m : String) (reply : Reply) (raw : Raw) → IsAnswer reply → IsValue (add_reply m reply raw)
    add_reply-IsValue m (ok result) raw h = tt
    add_reply-IsValue m (error code) raw h = tt
    add_reply-IsValue m (raises e) raw h = h

    raw_replies-IsValue :
        (methods : List String) (raw : Raw) (s : S)
        → All (λ m. contains m passive_methods ≡ true) methods
        → IsValue (raw_replies py run w methods raw s).0
    unfolding raw_replies
    raw_replies-IsValue [] raw s h = tt
    raw_replies-IsValue (m ∷ methods) raw s h =
        let (reply, s') = w.transport.request m none s in
        let v : IsValue (add_reply m reply raw) =
          add_reply-IsValue m reply raw (ready.answers m none s h.0) in
        elim (Result-cases (add_reply m reply raw)) [
          | inl (more, e) ↦ rw (e, raw_replies) (raw_replies-IsValue methods more s' h.1)
          | inr (reason, e) ↦ absurd (subst (λ (r : Result Raw). IsValue r) e v)
        ]

    fetch-IsValue : (s : S) → IsValue (fetch_oauth_metadata py.urls w.web a.target s).0
    unfolding fetch_oauth_metadata
    fetch-IsValue s = elim (Bool-cases (not (is_http a.target))) [
      | inl other ↦ rw (other, fetch_oauth_metadata) tt
      | inr web ↦ elim (Option-cases (py.urls.split_url a.target)) [
        | inl bad ↦ absurd (ready.splits bad)
        | inr ((scheme, netloc), parts) ↦
            rw (web, parts, fetch_oauth_metadata)
              (let url : String = py.urls.join_url scheme netloc well_known in
                metadata_of-IsValue (w.web.get url s).0 (λ reason. ready.http.get url reason s))
      ]
    ]

    probe-IsValue : (s : S) → IsValue (probe_auth_challenge py.urls w.web a.target s).0
    unfolding probe_auth_challenge
    probe-IsValue s = elim (Bool-cases (not (is_http a.target))) [
      | inl other ↦ rw (other, probe_auth_challenge) tt
      | inr web ↦
          rw (web, probe_auth_challenge)
            (auth_probe_of-IsValue _ (λ reason. ready.http.post a.target reason s))
    ]

    connected-Returned : (e : Endpoint) (s : S) → Returned (connected py run w a e s).0
    unfolding connected probe
    connected-Returned e s =
        let (fp, s₁) = fingerprint py.render w.transport s in
        let methods : List String = "server/discover" ∷ "tools/list" ∷ [] in
        let (raw, s₂) = raw_replies py run w methods [] s₁ in
        let (fetched, s₃) = fetch_oauth_metadata py.urls w.web a.target s₂ in
        let (probed, s₄) = probe_auth_challenge py.urls w.web a.target s₃ in
        after_call-Returned fp s₁ _ (fingerprint-IsValue py.render w.transport ready.answers s)
          λ shown.
            after_call-Returned raw s₂ _ (raw_replies-IsValue methods [] s₁ (refl, (refl, tt)))
              λ more. after_call-Returned fetched s₃ _ (fetch-IsValue s₂) λ metadata.
                after_call-Returned probed s₄ _ (probe-IsValue s₃)
                  λ answer. enumerate-Returned shown _ s₄

    open_and_scan-Returned : (s : S) → Returned (open_and_scan py run w a s).0
    unfolding open_and_scan
    open_and_scan-Returned s =
        rw (ready.built, ready.opens s, open_and_scan)
          (connected-Returned ready.endpoint (w.connect ready.endpoint s).1)

    baseline-fits : baseline_differs a ≡ false
    unfolding baseline_differs
    baseline-fits = elim (Option-cases a.baseline) [
      | inl without ↦ rw (without, baseline_differs) refl
      | inr (b, has) ↦
          rw (has, baseline_differs) (ground (arith, ready.fits b has, eq_iff b.target a.target))
    ]

    gate-passes : (m : ScanMode) → a.mode ≡ m → scan_gate a ≡ none
    unfolding scan_gate
    gate-passes passive e = rw (e, scan_gate) refl
    gate-passes active e =
        rw (e, scan_gate) ((require_scope_iff a.scope "scan" a.target a.today).1 (ready.cleared e))

    Returned-scanned :
        (r : Scan F × S)
        → Returned r.0
        → (o : ScanOutcome F) × (fs : List EventFrame) × (s' : S) × (r ≡ (scanned o fs, s'))
    Returned-scanned (scanned o fs, s') h = (o, fs, s', refl)
    Returned-scanned (other_baseline, s') h = absurd h
    Returned-scanned (refused r, s') h = absurd h
    Returned-scanned (no_transport, s') h = absurd h
    Returned-scanned (failed e, s') h = absurd h

    pub run_scan_returns :
        (s : S)
        → (o : ScanOutcome F) × (fs : List EventFrame) × (s' : S) × (run_scan py run w a s
            ≡ (scanned o fs, s'))
    unfolding run_scan
    run_scan_returns s =
        Returned-scanned (run_scan py run w a s)
          (rw (baseline-fits, gate-passes a.mode refl, run_scan) (open_and_scan-Returned s))
