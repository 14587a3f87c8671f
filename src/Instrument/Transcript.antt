-- ===== src/Instrument/Transcript.antt =====
-- The JSON that the recorder of agent_perimeter/instrument/recorder.py makes of a transcript, with
-- `SinkClass.to_json` of agent_perimeter/checks/injection/path_proof.py.
use agent_perimeter.Prelude.{
  String, Bool, true, Option, none, some, List, [], ◌∷◌, ◌++◌, map, if◌then◌else◌,
}
use agent_perimeter.Json.{Value, str, bool, obj, arr, field, end, Object}
use agent_perimeter.Contracts.{Derivation, derivation_value}
use agent_perimeter.Graph.Paths.{SinkClass, strength}
use agent_perimeter.Instrument.Recorder.{Reason, reason_text, CallRecord, Transcript, to_fields}
use agent_perimeter.Instrument.Proxy.{items_of}

-- `to_json`
abbrev pub sink_json : SinkClass → Value
sink_json c = obj (
    field "strength" (str (strength c))
      (field "derivation" (str (derivation_value c.derivation)) end))

abbrev pub injected_entry : Bool → Object
injected_entry injected = if injected then ("injected", bool true) ∷ [] else []

abbrev pub sink_entry : Option SinkClass → Object
sink_entry none = []
sink_entry (some c) = ("sink", sink_json c) ∷ []

-- The entry of a call.
unfoldable pub call_object : CallRecord → Object
call_object c =
    ("name", str c.name)
    ∷ ("arguments", c.arguments)
    ∷ ("result", str c.result)
    ∷ (injected_entry c.injected ++ sink_entry c.sink)

abbrev pub names_json : List String → Value
names_json names = arr (items_of (map str names))

abbrev pub derivations_json : List (String × Derivation) → Object
derivations_json [] = []
derivations_json ((name, d) ∷ rest) = (name, str (derivation_value d)) ∷ derivations_json rest

abbrev pub reason_entry : Option Reason → Object
reason_entry none = []
reason_entry (some reason) = ("listing_incomplete", str (reason_text reason)) ∷ []

abbrev pub canary_json : Transcript → Object
canary_json t =
    ("nonce", str t.nonce)
    ∷ ("sinks", names_json t.sinks)
    ∷ ("weak_sinks", names_json t.weak_sinks)
    ∷ ("sink_derivations", obj (to_fields (derivations_json t.sink_derivations)))
    ∷ reason_entry t.listing_incomplete

abbrev pub object_value : Object → Value
object_value o = obj (to_fields o)

-- What `to_transcript` returns.
unfoldable pub transcript_object : Transcript → Object
transcript_object t =
    ("tool_calls", arr (items_of (map object_value (map call_object t.tool_calls))))
    ∷ ("canary", object_value (canary_json t))
    ∷ []
