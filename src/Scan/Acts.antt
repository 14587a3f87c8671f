-- ===== src/Scan/Acts.antt =====
-- The acts of a scan on the outside, and the sessions that it may have.
use agent_perimeter.Prelude.{
  String, ◌≡◌, ap, ◌⊎◌, some, List, [], ◌∷◌, ◌++◌, All, All-append, string_eq,
}
use agent_perimeter.Transport.{Request}
use agent_perimeter.Model.Scope.{Authorises}
use agent_perimeter.Checks.Run.Passive.{IsPassive}
use agent_perimeter.Scan.Probes.{well_known}
use agent_perimeter.Scan.Setup.{active, Endpoint, World, Python, Arguments, build_transport}
use agent_perimeter.Scan.Traffic.{request}

pub data Act : Type 0 where
  connects : Endpoint → Act
  sends : Request → Act
  fetches : String → Act
  probes : String → Act
  closes : Act

module _ {S : Type 0} where
  -- `f`, with this act noted.
  abbrev pub noted : {A : Type 0} → Act → A × S → List Act → A × (S × List Act)
  noted act (answer, s) log = (answer, (s, log ++ act ∷ []))

  -- The same outside, with what was done to it.
  abbrev pub logged : World S → World (S × List Act)
  logged w = record {
    connect = λ e (s, log). noted (connects e) (w.connect e s) log;
    transport = record {
      request = λ m p (s, log). noted (sends (request m p)) (w.transport.request m p s) log;
    };
    close = λ (s, log). (w.close s, log ++ closes ∷ []);
    web = record {
      get = λ url (s, log). noted (fetches url) (w.web.get url s) log;
      post = λ url (s, log). noted (probes url) (w.web.post url s) log;
    };
  }

module _ (py : Python) (a : Arguments) where
  -- What a scan may do between opening and closing the transport.
  abbrev pub Allowed : Act → Type 0
  Allowed (connects e) = ⊥
  Allowed (sends r) = IsPassive r ⊎ Authorises a.scope a.target a.today
  Allowed (fetches url) =
      (scheme netloc : String) × (py.urls.split_url a.target ≡ some (scheme, netloc))
      × (url ≡ py.urls.join_url scheme netloc well_known)
  Allowed (probes url) = url ≡ a.target
  Allowed closes = ⊥

  -- The transport that is opened: active mode is authorised.
  pub record IsOpened (e : Endpoint) : Type 0 where
    pub built : build_transport py.shlex_split a.contact a.target a.image a.env ≡ some e
    pub cleared : a.mode ≡ active → Authorises a.scope a.target a.today

  pub data Session : List Act → Type 0 where
    silent : Session []
    -- the constructor of the transport raised
    broken : (e : Endpoint) → IsOpened e → Session (connects e ∷ [])
    whole :
        (e : Endpoint) (middle : List Act)
        → IsOpened e
        → All Allowed middle
        → Session (connects e ∷ (middle ++ closes ∷ []))

  -- The log of an open session.
  abbrev pub Open : Endpoint → List Act → Type 0
  Open e log = (middle : List Act) × (log ≡ connects e ∷ middle) × All Allowed middle

  pub Open-snoc :
      (e : Endpoint) (log : List Act) (act : Act)
      → Allowed act
      → Open e log
      → Open e (log ++ act ∷ [])
  Open-snoc e log act ok (middle, same, all) = (
    middle ++ act ∷ [],
    ap (λ (l : List Act). l ++ act ∷ []) same,
    All-append Allowed middle (act ∷ []) all (ok, tt),
  )
