-- ===== src/Adapter/ReadBack.antt =====
-- The adapter reads back what the proxy's recorder wrote.
use agent_perimeter.Prelude.{
  ◌≡◌, refl, ◌∙◌, ap, String, Bool, true, false, not, Option, none, some, List, [], ◌∷◌, map, All,
  ◌==◌, string_eq, if◌then◌else◌,
}
use agent_perimeter.Json.{Value, str, Object, entries, items}
use agent_perimeter.Contracts.{Derivation, schema, description, derivation_value, derivation_eq}
use agent_perimeter.Graph.Paths.{SinkClass, strength}
use agent_perimeter.Instrument.Redact.{Canary}
use agent_perimeter.Instrument.Recorder.{Reason, page_failed, CallRecord, Transcript, to_fields}
use agent_perimeter.Instrument.Proxy.{items_of, items-items_of}
use agent_perimeter.Instrument.Transcript.{
  call_object, reason_entry, derivations_json, canary_json, object_value, transcript_object,
}
use agent_perimeter.Adapter.{
  AgentTranscript, Incomplete, recognised, texts_in, names_under, derivation_of, derivations_under,
  sink_under, recorded_derivations, call_sink, incomplete_reason, call_arguments,
}
use agent_perimeter.Adapter.Judge.{
  objects_in, calls_in, is_injected, called_name, canary_block, parse_traced, parse_transcript,
}

entries-to_fields : (o : Object) → entries (to_fields o) ≡ o
entries-to_fields [] = refl
entries-to_fields ((k, v) ∷ o) = ap (λ l. (k, v) ∷ l) (entries-to_fields o)

texts_in-str : (names : List String) → texts_in (map str names) ≡ names
texts_in-str [] = refl
texts_in-str (n ∷ names) = ap (λ l. n ∷ l) (texts_in-str names)

objects_in-object_value : (os : List Object) → objects_in (map object_value os) ≡ os
objects_in-object_value [] = refl
objects_in-object_value (o ∷ os) =
    ap (λ p. p ∷ objects_in (map object_value os)) (entries-to_fields o)
    ∙ ap (λ l. o ∷ l) (objects_in-object_value os)

derivation_of-value : (d : Derivation) → derivation_of (some (str (derivation_value d))) ≡ some d
unfolding derivation_of
derivation_of-value schema = refl
derivation_of-value _ = refl

derivations_under-json :
    (ds : List (String × Derivation)) → derivations_under (derivations_json ds) ≡ ds
derivations_under-json [] = refl
derivations_under-json ((n, d) ∷ ds) =
    rw (derivation_of-value d, derivations_under) (ap (λ l. (n, d) ∷ l) (derivations_under-json ds))

-- A sink is backed exactly if more than a description says so.
abbrev pub is_proper : SinkClass → Bool
is_proper c = if c.derivation == description then not c.backed else c.backed

abbrev pub is_proper_if : Option SinkClass → Bool
is_proper_if none = true
is_proper_if (some c) = is_proper c

-- What the adapter reads of a call's entry is what the recorder put into it.
pub record CallBack (render : Value → String) (c : CallRecord) : Type 0 where
  pub name_back : called_name render (call_object c) ≡ c.name
  pub arguments_back : call_arguments (call_object c) ≡ c.arguments
  pub injected_back : is_injected (call_object c) ≡ c.injected
  pub sink_back : call_sink (call_object c) ≡ c.sink

class_entries : Bool → Derivation → Object
class_entries b d =
    ("strength", str (strength (record { backed = b; derivation = d })))
    ∷ ("derivation", str (derivation_value d))
    ∷ []

sink_under-class_entries :
    (b : Bool) (d : Derivation)
    → is_proper (record { backed = b; derivation = d }) ≡ true
    → sink_under (class_entries b d) ≡ some (record { backed = b; derivation = d })
unfolding derivation_of class_entries
sink_under-class_entries true description h = absurd (cc)
sink_under-class_entries true schema h = refl
sink_under-class_entries true _ h = refl
sink_under-class_entries false description h = refl
sink_under-class_entries false schema h = absurd (cc)
sink_under-class_entries false _ h = absurd (cc)

CallBack-of :
    (render : Value → String) (tool : String) (arguments : Value) (result : String)
    (injected : Bool) (sink : Option SinkClass)
    → is_proper_if sink ≡ true
    → CallBack render (record {
      name = tool;
      arguments = arguments;
      result = result;
      injected = injected;
      sink = sink;
    })
unfolding call_object call_sink class_entries
CallBack-of render tool arguments result true none h = record {
  name_back = refl;
  arguments_back = refl;
  injected_back = refl;
  sink_back = refl;
}
CallBack-of render tool arguments result false none h = record {
  name_back = refl;
  arguments_back = refl;
  injected_back = refl;
  sink_back = refl;
}
CallBack-of render tool arguments result true (some c) h = record {
  name_back = refl;
  arguments_back = refl;
  injected_back = refl;
  sink_back = sink_under-class_entries c.backed c.derivation h;
}
CallBack-of render tool arguments result false (some c) h = record {
  name_back = refl;
  arguments_back = refl;
  injected_back = refl;
  sink_back = sink_under-class_entries c.backed c.derivation h;
}

CallBack-call_object :
    (render : Value → String) (c : CallRecord) → is_proper_if c.sink ≡ true → CallBack render c
CallBack-call_object render c h = CallBack-of render c.name c.arguments c.result c.injected c.sink h

abbrev pub recognised_reason : Option Reason → Option Incomplete
recognised_reason none = none
recognised_reason (some reason) = some (recognised reason)

-- What the adapter reads of a transcript is what the recorder put into it.
pub record ReadBack (render : Value → String) (t : Transcript) (a : AgentTranscript) : Type 0 where
  pub calls_back : a.tool_calls ≡ map call_object t.tool_calls
  pub each_back : All (CallBack render) t.tool_calls
  pub sinks_back : a.sinks ≡ some t.sinks
  pub weak_sinks_back : a.weak_sinks ≡ t.weak_sinks
  pub derivations_back : a.sink_derivations ≡ t.sink_derivations
  pub reason_back : a.listing_incomplete ≡ recognised_reason t.listing_incomplete
  pub per_call : a.per_call_sinks ≡ true
  pub traced : a.legacy ≡ false

each-CallBack :
    (render : Value → String) (calls : List CallRecord)
    → All (λ c. is_proper_if c.sink ≡ true) calls
    → All (CallBack render) calls
each-CallBack render [] h = tt
each-CallBack render (c ∷ calls) h =
    (CallBack-call_object render c h.0, each-CallBack render calls h.1)

calls_in-transcript_object :
    (t : Transcript) → calls_in (transcript_object t) ≡ map call_object t.tool_calls
unfolding transcript_object
calls_in-transcript_object t =
    ap objects_in (items-items_of (map object_value (map call_object t.tool_calls)))
    ∙ objects_in-object_value (map call_object t.tool_calls)

-- `tracer` is the canary of the nonce that the block gives.
canary_block-transcript_object :
    (t : Transcript)
    → (t.nonce == "") ≡ false
    → canary_block (transcript_object t) ≡ some (record { nonce = t.nonce }, canary_json t)
unfolding transcript_object
canary_block-transcript_object t h =
    rw h (ap (λ o. some (record { nonce = t.nonce }, o)) (entries-to_fields (canary_json t)))

incomplete_reason-reason_entry :
    (o : Option Reason) → incomplete_reason (reason_entry o) ≡ recognised_reason o
unfolding incomplete_reason
incomplete_reason-reason_entry none = refl
incomplete_reason-reason_entry (some page_failed) = refl
incomplete_reason-reason_entry (some _) = refl

incomplete_reason-canary_json :
    (t : Transcript) → incomplete_reason (canary_json t) ≡ recognised_reason t.listing_incomplete
unfolding incomplete_reason
incomplete_reason-canary_json t = incomplete_reason-reason_entry t.listing_incomplete

texts-back : (names : List String) → texts_in (items (items_of (map str names))) ≡ names
texts-back names = ap texts_in (items-items_of (map str names)) ∙ texts_in-str names

derivations-back : (t : Transcript) → recorded_derivations (canary_json t) ≡ t.sink_derivations
unfolding recorded_derivations
derivations-back t =
    ap derivations_under (entries-to_fields (derivations_json t.sink_derivations))
    ∙ derivations_under-json t.sink_derivations

parse_traced-ReadBack :
    (render : Value → String) (tracer : Canary) (t : Transcript)
    → All (λ c. is_proper_if c.sink ≡ true) t.tool_calls
    → ReadBack render t
        (parse_traced render tracer (canary_json t) (calls_in (transcript_object t)))
unfolding parse_traced names_under
parse_traced-ReadBack render tracer t proper = record {
  calls_back = calls_in-transcript_object t;
  each_back = each-CallBack render t.tool_calls proper;
  sinks_back = ap some (texts-back t.sinks);
  weak_sinks_back = texts-back t.weak_sinks;
  derivations_back = derivations-back t;
  reason_back = incomplete_reason-canary_json t;
  per_call = refl;
  traced = refl;
}

-- A transcript that has a nonce, and whose calls give sinks that are backed exactly if more than a
-- description says so, is read back as it was written.
pub parse_transcript-transcript_object :
    (render : Value → String) (t : Transcript)
    → (t.nonce == "") ≡ false
    → All (λ c. is_proper_if c.sink ≡ true) t.tool_calls
    → ReadBack render t (parse_transcript render (transcript_object t))
unfolding parse_transcript
parse_transcript-transcript_object render t given proper =
    rw (canary_block-transcript_object t given, parse_transcript)
      (parse_traced-ReadBack render (record { nonce = t.nonce }) t proper)
