-- ===== src/Instrument/Recorder.antt =====
-- agent_perimeter/instrument/recorder.py: the transcript of a session. A call's entry is a record; what
-- the code takes from Python's re, urllib and str is the parameter `py`.
pub mod Later
use agent_perimeter.Prelude.{
  ℕ, String, Bool, true, false, not, ◌||◌, Option, none, some, List, [], ◌∷◌, ◌++◌, lookup, insert,
  map, is_some, sorted, string_eq, if◌then◌else◌, plus, first_chars, has_text,
}
use agent_perimeter.Json.{
  Value, str, obj, arr, Fields, field, end, Items, cons, nil, Object, py_str,
}
use agent_perimeter.Json.Print.{text_leb}
use agent_perimeter.Model.Scope.{codes}
use agent_perimeter.Contracts.{Derivation}
use agent_perimeter.Graph.Paths.{SinkClass, stronger, Classes, with_backed}
use agent_perimeter.Instrument.Redact.{Canary, token, redact}

pub record Library : Type 0 where
  -- the text that `re.compile(pattern, re.IGNORECASE).search(text)` matches
  pub search : String → String → Option String
  -- `urllib.parse.unquote`
  pub unquote : String → String
  -- `str` of a number or a container
  pub render : Value → String

abbrev pub max_result_chars : ℕ
max_result_chars = 2048

-- `SECRET_KEY_NAME` and `_AUTH_KEY_NAME`
abbrev pub secret_key_name : String
secret_key_name =
    "(api[_-]?key|token|secret|password|passwd|credential|bearer|access[_-]?key|private[_-]?key)"

abbrev pub auth_key_name : String
auth_key_name = "(^|[_-])auth([_-]|$)|authori[sz]ation|cookie"

-- `LISTING_REASONS`
pub data Reason : Type 0 where
  page_failed first_page_failed repeat_cursor page_cap : Reason

abbrev pub reasons : List Reason
reasons = page_failed ∷ first_page_failed ∷ repeat_cursor ∷ page_cap ∷ []

-- `LISTING_PAGE_FAILED` and the others
abbrev pub reason_text : Reason → String
reason_text page_failed =
    "a tools/list page after the first failed; sources and sinks were computed from the pages received before it"
reason_text first_page_failed =
    "the first tools/list page failed; until a later listing succeeded no tools were known, so calls made before then got no canary"
reason_text repeat_cursor =
    "the server repeated a tools/list cursor; sources and sinks were computed from the pages received before it"
reason_text page_cap =
    "the server still offered a next tools/list page at the page cap; sources and sinks were computed from the pages received"

pub record CallRecord : Type 0 where
  pub name : String
  pub arguments : Value
  pub result : String
  pub injected : Bool
  pub sink : Option SinkClass

pub record Recorder : Type 0 where
  pub calls : List CallRecord
  pub sinks : Classes
  pub listing_incomplete : Option Reason

abbrev pub empty_recorder : Recorder
empty_recorder = record { calls = []; sinks = []; listing_incomplete = none }

abbrev pub to_fields : Object → Fields
to_fields [] = end
to_fields ((k, v) ∷ o) = field k v (to_fields o)

module _ (py : Library) (canary : Canary) where
  abbrev pub hide : String → String
  hide text = redact py.unquote (some canary) text

  -- `_is_secret_key`
  unfoldable pub is_secret_key : String → Bool
  is_secret_key key =
      is_some (py.search secret_key_name key) || is_some (py.search auth_key_name key)

  -- `_secret_value`
  unfoldable pub secret_value : Value → String
  secret_value value =
      if has_text (token canary) (py_str py.render value)
      then plus "[REDACTED:secret-key] " (token canary)
      else "[REDACTED:secret-key]"

  -- `_clean`, with `_clean_key` and `_clean_entry`: the keys of a JSON value are texts.
  unfoldable mutual
    pub clean : Value → Value
    clean (str text) = str (hide text)
    clean (obj fs) = obj (to_fields (clean_fields fs []))
    clean (arr vs) = arr (clean_items vs)
    clean v = v

    -- the dict comprehension, from the dict that it has
    pub clean_fields : Fields → Object → Object
    clean_fields end o = o
    clean_fields (field k v fs) o =
        clean_fields fs
          (insert (hide k) (if is_secret_key k then str (secret_value v) else clean v) o)

    pub clean_items : Items → Items
    clean_items nil = nil
    clean_items (cons v vs) = cons (clean v) (clean_items vs)

  abbrev pub entry : String → Value → String → Bool → Option SinkClass → CallRecord
  entry name arguments result injected sink = record {
    name = hide name;
    arguments = clean arguments;
    result = first_chars max_result_chars (hide result);
    injected = injected;
    sink = sink;
  }

  unfoldable pub record_call :
      String → Value → String → Bool → Option SinkClass → Recorder → Recorder
  record_call name arguments result injected sink r = record r {
    calls = r.calls ++ entry name arguments result injected sink ∷ [];
  }

  -- The loop of `add_sinks`.
  unfoldable pub union_sinks : Classes → Classes → Classes
  union_sinks [] sinks = sinks
  union_sinks ((name, found) ∷ classes) sinks =
      union_sinks classes (insert (hide name) (stronger found (lookup (hide name) sinks)) sinks)

  unfoldable pub add_sinks : Classes → Recorder → Recorder
  add_sinks classes r = record r { sinks = union_sinks classes r.sinks }

abbrev pub first_reason : Option Reason → Reason → Reason
first_reason none reason = reason
first_reason (some kept) reason = kept

unfoldable pub mark_listing_incomplete : Reason → Recorder → Recorder
mark_listing_incomplete reason r = record r {
  listing_incomplete = some (first_reason r.listing_incomplete reason);
}

pub record Transcript : Type 0 where
  pub tool_calls : List CallRecord
  pub nonce : String
  pub sinks : List String
  pub weak_sinks : List String
  pub sink_derivations : List (String × Derivation)
  pub listing_incomplete : Option Reason

-- `sorted` of texts
abbrev pub in_order : List String → List String
in_order names = sorted (λ a b. text_leb (codes a) (codes b)) names

-- `{name: backed[name].derivation.value for name in names}`
abbrev pub derivations_in : Classes → List String → List (String × Derivation)
derivations_in classes [] = []
derivations_in classes (name ∷ names) =
    let rest = derivations_in classes names in
    elim (lookup name classes) [ none ↦ rest | some c ↦ (name, c.derivation) ∷ rest ]

unfoldable pub to_transcript : Canary → Recorder → Transcript
to_transcript canary r = record {
  tool_calls = r.calls;
  nonce = canary.nonce;
  sinks = in_order (with_backed true r.sinks);
  weak_sinks = in_order (with_backed false r.sinks);
  sink_derivations = derivations_in r.sinks (in_order (with_backed true r.sinks));
  listing_incomplete = r.listing_incomplete;
}
