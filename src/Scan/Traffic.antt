-- ===== src/Scan/Traffic.antt =====
-- What a predicate on the outside needs to survive the fingerprint, the listing and the checks.
use agent_perimeter.Prelude.{
  ℕ, zero, suc, ◌+◌, String, ◌≡◌, refl, sym, subst, true, not, ◌||◌, Option, none, some, List, [],
  ◌∷◌, contains, All, string_eq, arith, Bool-cases, inl, inr,
}
use agent_perimeter.Json.{Value, Object}
use agent_perimeter.Transport.{
  Reply, ok, error, Result, value, thrown, Transport, Request, has_header_override,
}
use agent_perimeter.Transport.Revision.{
  Claimed, fingerprint, claimed_revision, claimed_from, observe,
}
use agent_perimeter.Model.Scope.{Authorises}
use agent_perimeter.Discover.Paging.{
  Progress, ToolListing, page_params, page_loop, list_tools, start, max_tool_pages,
}
use agent_perimeter.Discover.Paging.Steps.{page_loop_cases}
use agent_perimeter.Discover.Paging.Requests.{list_request}
use agent_perimeter.Checks.Registry.{Check, Situation, Skipped, applicable}
use agent_perimeter.Checks.Registry.Gate.{Split, done, runs, skips, applicable-Split}
use agent_perimeter.Checks.Context.{Channel, passive_methods, unauthorised, direct}
use agent_perimeter.Checks.Run.{
  Program, returns, raises, asks, Report, execute, channel_of, run_from, run_checks, book,
}
use agent_perimeter.Checks.Run.Passive.{IsPassive}

abbrev pub request : String → Option Object → Request
request m p = record { method = m; params = p }

-- A method without parameters, of the allowlist.
pub plain-IsPassive : (m : String) → contains m passive_methods ≡ true → IsPassive (request m none)
unfolding has_header_override
plain-IsPassive m h = record { listed = h; plain = refl }

page-IsPassive : (cursor : Option String) → IsPassive (list_request cursor)
unfolding has_header_override
page-IsPassive none = record { listed = refl; plain = refl }
page-IsPassive (some c) = record { listed = refl; plain = refl }

-- `Fits` is what the requests are held to, and `I` what a request that fits keeps.
module _ {S : Type 0} (t : Transport S) (Fits : Request → Type 0) (I : S → Type 0)
    (fits : (r : Request) → IsPassive r → Fits r)
    (keeps : (m : String) (p : Option Object) (s : S)
      → Fits (request m p)
      → I s
      → I (t.request m p s).1) where
  pub plain-keeps :
      (m : String) (s : S) → contains m passive_methods ≡ true → I s → I (t.request m none s).1
  plain-keeps m s h i = keeps m none s (fits (request m none) (plain-IsPassive m h)) i

  module _ (render : Value → String) where
    claimed_from-keeps : (r : Reply) (s : S) → I s → I (claimed_from render t r s).1
    unfolding claimed_from
    claimed_from-keeps (ok discover) s i = i
    claimed_from-keeps (agent_perimeter.Transport.raises e) s i = i
    claimed_from-keeps (error code) s i = plain-keeps "initialize" s refl i

    observe-keeps : (c : Result Claimed) (s : S) → I s → I (observe render t c s).1
    unfolding observe
    observe-keeps (thrown e) s i = i
    observe-keeps (value claimed) s i = plain-keeps "tools/list" s refl i

    pub fingerprint-keeps : (s : S) → I s → I (fingerprint render t s).1
    unfolding fingerprint claimed_revision
    fingerprint-keeps s i =
        let (reply, s') = t.request "server/discover" none s in
        let (claimed, s'') = claimed_from render t reply s' in
        observe-keeps claimed s''
          (claimed_from-keeps reply s' (plain-keeps "server/discover" s refl i))

    page_loop-keeps :
        (left page : ℕ) (p : Progress) (s : S) → I s → I (page_loop render t left page p s).1
    unfolding page_loop
    page_loop-keeps zero page p s i = i
    page_loop-keeps (suc left) page p s i =
        let (reply, s') = t.request "tools/list" (page_params p.cursor) s in
        let i' : I s' =
          keeps "tools/list" (page_params p.cursor) s
            (fits (list_request p.cursor) (page-IsPassive p.cursor)) i in
        elim (page_loop_cases render t left page p s) [
          | inl (l, _, e) ↦ subst (λ (r : Result ToolListing × S). I r.1) (sym e) i'
          | inr (p', _, e) ↦
              subst (λ (r : Result ToolListing × S). I r.1) (sym e)
                (page_loop-keeps left (page + 1) p' s' i')
        ]

    pub list_tools-keeps : (s : S) → I s → I (list_tools render t s).1
    unfolding list_tools
    list_tools-keeps s i = page_loop-keeps max_tool_pages 1 start s i

  unauthorised-keeps : (m : String) (p : Option Object) (s : S) → I s → I (unauthorised t m p s).1
  unfolding unauthorised
  unauthorised-keeps m p s i =
      elim (Bool-cases (not (contains m passive_methods) || has_header_override p)) [
        | inl e ↦ rw (e, unauthorised) i
        | inr e ↦
            rw (e, unauthorised)
              (keeps m p s
                (fits (request m p) (record { listed = ground arith; plain = ground arith })) i)
      ]

  module _ {F : Type 0} where
    execute-keeps :
        (channel : Channel S)
        → ((m : String) (p : Option Object) (s : S) → I s → I (channel m p s).1)
        → (p : Program F) (s : S) → I s
        → I (execute channel p s).1
    unfolding execute
    execute-keeps channel k (returns found) s i = i
    execute-keeps channel k (raises reason) s i = i
    execute-keeps channel k (asks m p rest) s i =
        let (answer, s') = channel m p s in execute-keeps channel k (rest answer) s' (k m p s i)

    module _ (run : Check → Program F) where
      -- A check that is cleared may send anything.
      check-keeps :
          (check : Check) (s : S)
          → (check.requires_auth ≡ true → (r : Request) → Fits r)
          → I s
          → I (execute (channel_of t check) (run check) s).1
      check-keeps check s cleared i = elim (Bool-cases check.requires_auth) [
        | inl active ↦ simp active (
            execute-keeps (direct t) (λ m p s' i'. keeps m p s' (cleared active (request m p)) i')
              (run check) s i)
        | inr quiet ↦ simp quiet (execute-keeps (unauthorised t) unauthorised-keeps (run check) s i)
      ]

      run_from-keeps :
          (runnable : List Check) (r : Report F) (s : S)
          → All (λ c. c.requires_auth ≡ true → (q : Request) → Fits q) runnable
          → I s
          → I (run_from run t runnable r s).1
      unfolding run_from
      run_from-keeps [] r s cleared i = i
      run_from-keeps (check ∷ runnable) r s cleared i =
          let (ending, s') = execute (channel_of t check) (run check) s in
          run_from-keeps runnable (book check ending r) s' cleared.1
            (check-keeps check s cleared.0 i)

      Split-cleared :
          {a : Situation} {checks runnable : List Check} {skipped : List Skipped}
          → (Authorises a.scope a.target a.today → (q : Request) → Fits q)
          → Split a checks runnable skipped
          → All (λ c. c.requires_auth ≡ true → (q : Request) → Fits q) runnable
      Split-cleared may done = tt
      Split-cleared may (runs check r rest) =
          (λ active. may (r.authorised active), Split-cleared may rest)
      Split-cleared may (skips check why not_run same holds rest) = Split-cleared may rest

      -- Where authorisation clears every request, the checks that `applicable` lets through keep
      -- the predicate.
      pub run_checks-keeps :
          (a : Situation) (checks : List Check) (s : S)
          → (Authorises a.scope a.target a.today → (q : Request) → Fits q)
          → I s
          → I (run_checks run t (applicable a checks).0 s).1
      unfolding run_checks
      run_checks-keeps a checks s may i =
          run_from-keeps (applicable a checks).0
            (record { findings = []; errored = []; events = [] }) s
            (Split-cleared may (applicable-Split a checks)) i
