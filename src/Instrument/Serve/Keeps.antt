-- ===== src/Instrument/Serve/Keeps.antt =====
-- What every session keeps of the transcript, and what holds of the proxy between two messages.
use agent_perimeter.Prelude.{◌≡◌, refl, none, some, List, map}
use agent_perimeter.Json.{Object}
use agent_perimeter.Graph.Build.{build_graph}
use agent_perimeter.Graph.Policy.{capabilities_by_tool, grouped_from}
use agent_perimeter.Graph.Paths.{find_paths, classify_from, classify_sinks}
use agent_perimeter.Instrument.Redact.{Canary}
use agent_perimeter.Instrument.Recorder.{Library}
use agent_perimeter.Instrument.Recorder.Later.{
  Later, Later-refl, Later-trans, mark_listing_incomplete-Later, add_sinks-Later, record_call-Later,
}
use agent_perimeter.Instrument.Proxy.{Upstream, Proxy, new_proxy, source_of}
use agent_perimeter.Instrument.Serve.{absorb, call_ended, handle_all}
use agent_perimeter.Instrument.Serve.Steps.{
  Step, absorbs, stops, settles, calls, Steps, here, next, handle_all-Steps,
}

module _ (py : Library) (canary : Canary) where
  Step-Later : {p q : Proxy} → Step py canary p q → Later p.recorder q.recorder
  unfolding absorb call_ended
  Step-Later (absorbs listing none) = add_sinks-Later py canary _ _
  Step-Later (absorbs listing (some cursor)) = add_sinks-Later py canary _ _
  Step-Later (stops reason) = mark_listing_incomplete-Later reason _
  Step-Later {p} settles = Later-refl p.recorder
  Step-Later (calls name params outcome) = record_call-Later py canary _ _ _ _ _ _

  Steps-Later : {p q : Proxy} → Steps py canary p q → Later p.recorder q.recorder
  Steps-Later {p} here = Later-refl p.recorder
  Steps-Later {p} (next {q} {r} a st) =
      Later-trans p.recorder q.recorder r.recorder (Steps-Later a) (Step-Later st)

  -- Whatever messages the agent sends and whatever the target answers, the transcript only grows: the
  -- calls that it has stay, in front of the new ones, a tool once seen as a sink stays one in its
  -- class or a higher one, and the first reason why a listing stop_listing early is kept.
  pub handle_all-Later :
      {S : Type 0} (t : Upstream S) (messages : List Object) (p : Proxy) (s : S)
      → Later p.recorder (handle_all py canary t messages p s).0.recorder
  handle_all-Later t messages p s = Steps-Later (handle_all-Steps py canary t messages p s)

  -- The sources and the sinks are those of the tools listed so far.
  pub record IsClassified (p : Proxy) : Type 0 where
    pub of_sources : p.sources ≡ map source_of (find_paths (build_graph py.search p.merged.records))
    pub of_sinks : p.sinks ≡ classify_sinks (build_graph py.search p.merged.records)

  Step-IsClassified : {p q : Proxy} → Step py canary p q → IsClassified p → IsClassified q
  unfolding absorb call_ended
  Step-IsClassified (absorbs listing none) h = record { of_sources = refl; of_sinks = refl }
  Step-IsClassified (absorbs listing (some cursor)) h = record {
    of_sources = refl;
    of_sinks = refl;
  }
  Step-IsClassified (stops reason) h = record { of_sources = h.of_sources; of_sinks = h.of_sinks }
  Step-IsClassified settles h = record { of_sources = h.of_sources; of_sinks = h.of_sinks }
  Step-IsClassified (calls name params outcome) h = record {
    of_sources = h.of_sources;
    of_sinks = h.of_sinks;
  }

  pub Steps-IsClassified : {p q : Proxy} → Steps py canary p q → IsClassified p → IsClassified q
  Steps-IsClassified here h = h
  Steps-IsClassified (next a st) h = Step-IsClassified st (Steps-IsClassified a h)

  pub new_proxy-IsClassified : IsClassified new_proxy
  unfolding new_proxy build_graph find_paths classify_sinks capabilities_by_tool grouped_from
      classify_from
  new_proxy-IsClassified = record { of_sources = refl; of_sinks = refl }

  pub handle_all-IsClassified :
      {S : Type 0} (t : Upstream S) (messages : List Object) (s : S)
      → IsClassified (handle_all py canary t messages new_proxy s).0
  handle_all-IsClassified t messages s =
      Steps-IsClassified (handle_all-Steps py canary t messages new_proxy s) new_proxy-IsClassified
