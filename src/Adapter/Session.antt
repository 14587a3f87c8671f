-- ===== src/Adapter/Session.antt =====
-- From the agent's session to the adapter: a transcript of the proxy is read back as it was recorded.
use agent_perimeter.Prelude.{
  ◌≡◌, refl, String, true, false, not, ◌||◌, Option, none, some, List, [], ◌∷◌, All, All-append,
  lookup, insert, contains, ◌==◌, string_eq, Bool-cases, inl, inr,
}
use agent_perimeter.Json.{Value, Object}
use agent_perimeter.Contracts.{description, capability_eq, derivation_eq}
use agent_perimeter.Graph.Build.{CapabilityEdge}
use agent_perimeter.Graph.Paths.{
  SinkClass, at_least, stronger, class_of, Classes, privileged_sinks, classify_from, classify_sinks,
}
use agent_perimeter.Graph.Paths.Sinks.{next_classes}
use agent_perimeter.Instrument.Redact.{Canary}
use agent_perimeter.Instrument.Recorder.{
  Library, CallRecord, record_call, add_sinks, mark_listing_incomplete, to_transcript,
}
use agent_perimeter.Instrument.Transcript.{transcript_object}
use agent_perimeter.Instrument.Proxy.{Upstream, Proxy, new_proxy}
use agent_perimeter.Instrument.Serve.{absorb, call_ended, handle_all}
use agent_perimeter.Instrument.Serve.Steps.{
  Step, absorbs, stops, settles, calls, Steps, here, next, handle_all-Steps,
}
use agent_perimeter.Adapter.Judge.{parse_transcript}
use agent_perimeter.Adapter.ReadBack.{
  is_proper, is_proper_if, ReadBack, parse_transcript-transcript_object,
}

abbrev IsProper : Classes → Type 0
IsProper classes = All (λ e. is_proper e.1 ≡ true) classes

class_of-proper : (e : CapabilityEdge) → is_proper (class_of e) ≡ true
class_of-proper e = elim (Bool-cases (e.derivation == description)) [
  | inl prose ↦ rw prose refl
  | inr solid ↦ rw solid refl
]

lookup-proper :
    (t : String) (classes : Classes) → IsProper classes → is_proper_if (lookup t classes) ≡ true
lookup-proper t [] h = refl
lookup-proper t ((k, c) ∷ classes) h = elim (Bool-cases (t == k)) [
  | inl own ↦ rw own h.0
  | inr other ↦ rw other (lookup-proper t classes h.1)
]

stronger-proper :
    (c : SinkClass) (o : Option SinkClass)
    → is_proper c ≡ true
    → is_proper_if o ≡ true
    → is_proper (stronger c o) ≡ true
unfolding stronger
stronger-proper c none h k = h
stronger-proper c (some d) h k = elim (Bool-cases (at_least c d)) [
  | inl above ↦ rw above h
  | inr below ↦ rw below k
]

insert-IsProper :
    (t : String) (c : SinkClass) (classes : Classes)
    → is_proper c ≡ true
    → IsProper classes
    → IsProper (insert t c classes)
insert-IsProper t c [] h k = (h, tt)
insert-IsProper t c ((j, d) ∷ classes) h k = elim (Bool-cases (t == j)) [
  | inl own ↦ rw (own, insert) (h, k.1)
  | inr other ↦ rw (other, insert) (k.0, insert-IsProper t c classes h k.1)
]

next_classes-IsProper :
    (sinks : List String) (classes : Classes) (e : CapabilityEdge)
    → IsProper classes
    → IsProper (next_classes sinks classes e)
next_classes-IsProper sinks classes e h =
    elim (Bool-cases
      (not (contains e.tool sinks) || not (contains e.capability privileged_sinks))) [
        | inl left ↦ rw left h
        | inr taken ↦ rw taken (
            insert-IsProper e.tool _ classes
              (stronger-proper (class_of e) (lookup e.tool classes) (class_of-proper e)
                (lookup-proper e.tool classes h))
              h)
      ]

classify_from-IsProper :
    (sinks : List String) (classes : Classes) (edges : List CapabilityEdge)
    → IsProper classes
    → IsProper (classify_from sinks classes edges)
unfolding classify_from
classify_from-IsProper sinks classes [] h = h
classify_from-IsProper sinks classes (e ∷ edges) h =
    classify_from-IsProper sinks (next_classes sinks classes e) edges
      (next_classes-IsProper sinks classes e h)

classify_sinks-IsProper : (edges : List CapabilityEdge) → IsProper (classify_sinks edges)
unfolding classify_sinks
classify_sinks-IsProper edges = classify_from-IsProper _ [] edges tt

-- The sinks that the proxy knows are proper, and so are those of the calls that it recorded.
record RecordsProper (p : Proxy) : Type 0 where
  known : IsProper p.sinks
  recorded : All (λ c. is_proper_if c.sink ≡ true) p.recorder.calls

module _ (py : Library) (canary : Canary) where
  Step-RecordsProper : {p q : Proxy} → Step py canary p q → RecordsProper p → RecordsProper q
  unfolding absorb call_ended add_sinks mark_listing_incomplete record_call
  Step-RecordsProper (absorbs listing none) h = record {
    known = classify_sinks-IsProper _;
    recorded = h.recorded;
  }
  Step-RecordsProper (absorbs listing (some cursor)) h = record {
    known = classify_sinks-IsProper _;
    recorded = h.recorded;
  }
  Step-RecordsProper (stops reason) h = record { known = h.known; recorded = h.recorded }
  Step-RecordsProper settles h = record { known = h.known; recorded = h.recorded }
  Step-RecordsProper {p} (calls name params outcome) h = record {
    known = h.known;
    recorded =
        All-append (λ (c : CallRecord). is_proper_if c.sink ≡ true) p.recorder.calls _ h.recorded
          (lookup-proper name p.sinks h.known, tt);
  }

  Steps-RecordsProper : {p q : Proxy} → Steps py canary p q → RecordsProper p → RecordsProper q
  Steps-RecordsProper here h = h
  Steps-RecordsProper (next a st) h = Step-RecordsProper st (Steps-RecordsProper a h)

  -- Whatever the agent sends and the target answers, the transcript of the session is read back by the
  -- adapter as it was recorded, if the nonce is not empty: every call in its order with its name, its
  -- arguments, whether it was injected and how its tool was classified as a sink; the sinks of the
  -- session with their derivations; and why the listing stopped early.
  pub handle_all-ReadBack :
      {S : Type 0} (render : Value → String) (t : Upstream S) (messages : List Object) (s : S)
      → (canary.nonce == "") ≡ false
      → let r = (handle_all py canary t messages new_proxy s).0.recorder in
        ReadBack render
          (to_transcript canary r)
          (parse_transcript render (transcript_object (to_transcript canary r)))
  unfolding to_transcript
  handle_all-ReadBack render t messages s given =
      let r = (handle_all py canary t messages new_proxy s).0.recorder in
      let start : RecordsProper new_proxy =
        unfold new_proxy in record { known = tt; recorded = tt } in
      parse_transcript-transcript_object render (to_transcript canary r) given
        (Steps-RecordsProper (handle_all-Steps py canary t messages new_proxy s) start).recorded
