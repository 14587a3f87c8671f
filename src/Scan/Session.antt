-- ===== src/Scan/Session.antt =====
-- What a whole scan does to the outside: the log of its acts, oldest first.
use agent_perimeter.Prelude.{
  String, ◌≡◌, refl, ap, sym, subst, ◌⊎◌, inl, inr, true, not, Option, none, some, List, [], ◌∷◌,
  ◌++◌, All, contains, string_eq, Bool-cases, Option-cases,
}
use agent_perimeter.Json.{Object}
use agent_perimeter.Transport.{Request, Result, value, thrown, Result-cases}
use agent_perimeter.Transport.Revision.{Fingerprint, fingerprint}
use agent_perimeter.Model.Scope.{Authorises, require_scope_iff}
use agent_perimeter.Discover.Paging.{ToolListing, list_tools}
use agent_perimeter.Checks.Registry.{Check}
use agent_perimeter.Checks.Context.{passive_methods}
use agent_perimeter.Checks.Run.{Program}
use agent_perimeter.Checks.Run.Passive.{IsPassive}
use agent_perimeter.Scan.Probes.{well_known, is_http, fetch_oauth_metadata, probe_auth_challenge}
use agent_perimeter.Scan.Setup.{
  active, Endpoint, World, Python, Raw, Arguments, ScanContext, Scan, build_transport, scan_gate,
  situation, add_reply,
}
use agent_perimeter.Scan.Runner.{
  after_call, drift_of, raw_replies, run_applicable, run_listed, enumerate, probe, connected,
  run_scan,
}
use agent_perimeter.Scan.Traffic.{
  request, plain-keeps, fingerprint-keeps, list_tools-keeps, run_checks-keeps,
}
use agent_perimeter.Scan.Cases.{run_scan-cases}
use agent_perimeter.Scan.Acts.{
  Act, connects, sends, fetches, probes, closes, logged, IsOpened, Session, silent, broken, whole,
  Open, Open-snoc,
}

module _ (py : Python) (a : Arguments) where
  module _ {F S : Type 0} (run : ScanContext → Check → Program F) (w : World S) (e : Endpoint) where
    abbrev I : S × List Act → Type 0
    I (s, log) = Open py a e log

    abbrev Fits : Request → Type 0
    Fits r = IsPassive r ⊎ Authorises a.scope a.target a.today

    request-Open :
        (m : String) (p : Option Object) (s : S × List Act)
        → Fits (request m p)
        → I s
        → I ((logged w).transport.request m p s).1
    request-Open m p (s, log) ok i = Open-snoc py a e log (sends (request m p)) ok i

    raw_replies-Open :
        (methods : List String) (raw : Raw) (s : S × List Act)
        → All (λ m. contains m passive_methods ≡ true) methods
        → I s
        → I (raw_replies py run (logged w) methods raw s).1
    unfolding raw_replies
    raw_replies-Open [] raw s h i = i
    raw_replies-Open (m ∷ methods) raw s h i =
        let (reply, s') = (logged w).transport.request m none s in
        let i' : I s' = plain-keeps (logged w).transport Fits I (λ r. inl) request-Open m s h.0 i in
        elim (Result-cases (add_reply m reply raw)) [
          | inl (more, e) ↦ rw (e, raw_replies) (raw_replies-Open methods more s' h.1 i')
          | inr (reason, e) ↦ rw (e, raw_replies) i'
        ]

    fetch-Open :
        (s : S × List Act) → I s → I (fetch_oauth_metadata py.urls (logged w).web a.target s).1
    unfolding fetch_oauth_metadata
    fetch-Open s i = elim (Bool-cases (not (is_http a.target))) [
      | inl other ↦ rw (other, fetch_oauth_metadata) i
      | inr http ↦ elim (Option-cases (py.urls.split_url a.target)) [
        | inl bad ↦ rw (http, bad, fetch_oauth_metadata) i
        | inr ((scheme, netloc), parts) ↦
            rw (http, parts, fetch_oauth_metadata)
              (Open-snoc py a e s.1 (fetches (py.urls.join_url scheme netloc well_known))
                (scheme, netloc, parts, refl) i)
      ]
    ]

    probe_auth-Open :
        (s : S × List Act) → I s → I (probe_auth_challenge py.urls (logged w).web a.target s).1
    unfolding probe_auth_challenge
    probe_auth-Open s i = elim (Bool-cases (not (is_http a.target))) [
      | inl other ↦ rw (other, probe_auth_challenge) i
      | inr http ↦ rw (http, probe_auth_challenge) (Open-snoc py a e s.1 (probes a.target) refl i)
    ]

    after_call-Open :
        {A : Type 0} (r : Result A) (s : S × List Act)
        (k : A → S × List Act → Scan F × (S × List Act))
        → ((x : A) → I (k x s).1)
        → I s
        → I (after_call (r, s) k).1
    after_call-Open (value x) s k h i = h x
    after_call-Open (thrown reason) s k h i = i

    run_listed-Open :
        (fp : Fingerprint) (raw : Raw) (listing : ToolListing) (s : S × List Act)
        → I s
        → I (run_listed py run (logged w) a fp raw listing s).1
    unfolding run_listed run_applicable
    run_listed-Open fp raw listing s i = elim (Option-cases (drift_of py a listing)) [
      | inl raises ↦ rw (raises, run_listed) i
      | inr (drift, returns) ↦
          rw (returns, run_listed)
            (run_checks-keeps (logged w).transport Fits I (λ r. inl) request-Open _
              (situation a fp listing) a.checks s (λ may q. inr may) i)
    ]

    enumerate-Open :
        (fp : Fingerprint) (raw : Raw) (s : S × List Act)
        → I s
        → I (enumerate py run (logged w) a fp raw s).1
    unfolding enumerate
    enumerate-Open fp raw s i =
        let (listing, s') = list_tools py.render (logged w).transport s in
        let i' : I s' =
          list_tools-keeps (logged w).transport Fits I (λ r. inl) request-Open py.render s i in
        after_call-Open listing s' _ (λ l. run_listed-Open fp raw l s' i') i'

    probe-Open :
        (fp : Fingerprint) (raw : Raw) (s : S × List Act)
        → I s
        → I (probe py run (logged w) a e fp raw s).1
    unfolding probe
    probe-Open fp raw s i =
        let (fetched, s') = fetch_oauth_metadata py.urls (logged w).web a.target s in
        after_call-Open fetched s' _
          (λ metadata.
            let (probed, s'') = probe_auth_challenge py.urls (logged w).web a.target s' in
            after_call-Open probed s'' _
              (λ answer. enumerate-Open fp _ s'' (probe_auth-Open s' (fetch-Open s i)))
              (probe_auth-Open s' (fetch-Open s i)))
          (fetch-Open s i)

    connected-Open : (s : S × List Act) → I s → I (connected py run (logged w) a e s).1
    unfolding connected
    connected-Open s i =
        let (fp, s') = fingerprint py.render (logged w).transport s in
        let i' : I s' =
          fingerprint-keeps (logged w).transport Fits I (λ r. inl) request-Open py.render s i in
        let methods : List String = "server/discover" ∷ "tools/list" ∷ [] in
        let (raw, s'') = raw_replies py run (logged w) methods [] s' in
        let i'' : I s'' = raw_replies-Open methods [] s' (refl, (refl, tt)) i' in
        after_call-Open fp s' _
          (λ x. after_call-Open raw s'' _ (λ more. probe-Open x more s'' i'') i'') i'

  scan_gate-cleared : scan_gate a ≡ none → a.mode ≡ active → Authorises a.scope a.target a.today
  unfolding scan_gate
  scan_gate-cleared passes is_active =
      (require_scope_iff a.scope "scan" a.target a.today).0 (rw (is_active, scan_gate) at passes)

  module _ {F S : Type 0} (run : ScanContext → Check → Program F) (w : World S) where
    closed-Session :
        (e : Endpoint) (r : Scan F × (S × List Act))
        → IsOpened py a e
        → Open py a e r.1.1
        → Session py a ((logged w).close r.1).1
    closed-Session e (r, (s, log)) opens (middle, same, all) =
        subst (Session py a) (sym (ap (λ (l : List Act). l ++ closes ∷ []) same))
          (whole e middle opens all)

    opens-IsOpened :
        (e : Endpoint)
        → build_transport py.shlex_split a.contact a.target a.image a.env ≡ some e
        → scan_gate a ≡ none
        → IsOpened py a e
    opens-IsOpened e built passes = record { built = built; cleared = scan_gate-cleared passes }

    -- Whatever the checks and the server do, a scan either leaves the outside alone, or fails to
    -- open the transport, or opens it once, closes it once at the end, and does in between only
    -- what is allowed: requests that are passive unless a scope file authorises the target today,
    -- a GET of the target's own well-known document, and a POST to the target. In active mode the
    -- transport is opened only under such a scope file.
    pub run_scan-Session : (s : S) → Session py a (run_scan py run (logged w) a (s, [])).1.1
    run_scan-Session s =
        run_scan-cases py a run (logged w) (s, []) (λ r. Session py a r.1.1) silent
          (λ refusal. silent) silent (λ e built passes. broken e (opens-IsOpened e built passes))
          (λ e built passes.
            let s' : S × List Act = ((w.connect e s).1, connects e ∷ []) in
            closed-Session e (connected py run (logged w) a e s') (opens-IsOpened e built passes)
              (connected-Open run w e s' ([], refl, tt)))
