-- ===== src/Instrument/Proxy.antt =====
-- agent_perimeter/instrument/proxy.py: a server to the agent and a client to the target, which puts the
-- canary into results of source tools and records every call. The lock makes each message one step.
use agent_perimeter.Prelude.{
  ℕ, ℤ, negsuc, ◌≡◌, refl, ap, String, Bool, false, Option, none, some, List, [], ◌∷◌, lookup,
  get_or, ◌==◌, string_eq, if◌then◌else◌, join_with,
}
use agent_perimeter.Json.{
  Value, str, bool, obj, end, Items, cons, nil, items, Object, as_object, get_list, get_str, py_str,
}
use agent_perimeter.Discover.Merge.{Merged, nothing_merged}
use agent_perimeter.Graph.Paths.{Classes}
use agent_perimeter.Instrument.Recorder.{
  Reason, page_failed, first_page_failed, Recorder, empty_recorder, mark_listing_incomplete,
}

-- What a request to the target ends in: a result, a TransportError with its code and text, or another
-- exception with the name of its type and its text.
pub data Attempt : Type 0 where
  answered : Object → Attempt
  transport_error : Option ℤ → String → Attempt
  failed : String → String → Attempt

pub record Upstream (S : Type 0) : Type 0 where
  pub request : String → Option Object → S → Attempt × S

pub record Proxy : Type 0 where
  pub merged : Merged
  pub pages : ℕ
  pub sources : List String
  pub sinks : Classes
  pub listed : Bool
  pub pending : Option String
  pub recorder : Recorder

-- `__init__`
unfoldable pub new_proxy : Proxy
new_proxy = record {
  merged = nothing_merged;
  pages = 0;
  sources = [];
  sinks = [];
  listed = false;
  pending = none;
  recorder = empty_recorder;
}

-- The text under a key, if it is one and not empty.
abbrev pub cursor_under : String → Object → Option String
cursor_under key o = elim (get_str key o) [
  | none ↦ none
  | some cursor ↦ if cursor == "" then none else some cursor
]

-- `_next_cursor`
unfoldable pub listing_cursor : Object → Option String
listing_cursor listing = cursor_under "nextCursor" listing

-- `_cursor_of`
unfoldable pub cursor_of : Option Object → Option String
cursor_of none = none
cursor_of (some params) = cursor_under "cursor" params

abbrev pub block_texts : (Value → String) → List Value → List String
block_texts render [] = []
block_texts render (v ∷ vs) =
    let rest = block_texts render vs in
    elim (as_object v) [
      | none ↦ rest
      | some block ↦ py_str render (get_or (lookup "text" block) (str "")) ∷ rest
    ]

-- `_text_of`
unfoldable pub text_of : (Value → String) → Object → String
text_of render result = elim (get_list "content" result) [
  | none ↦ ""
  | some content ↦ join_with "\n" (block_texts render content)
]

abbrev pub source_of : String × String → String
source_of path = path.0

abbrev pub starts_listing : Option String → Proxy → Proxy
starts_listing none p = record p { merged = nothing_merged; pages = 0 }
starts_listing (some cursor) p = p

abbrev pub items_of : List Value → Items
items_of [] = nil
items_of (v ∷ vs) = cons v (items_of vs)

pub items-items_of : (vs : List Value) → items (items_of vs) ≡ vs
items-items_of [] = refl
items-items_of (v ∷ vs) = ap (λ l. v ∷ l) (items-items_of vs)

-- `result.get("isError") is True`
abbrev pub is_true : Option Value → Bool
is_true (some (bool b)) = b
is_true v = false

abbrev pub is_error : Object → Bool
is_error result = is_true (lookup "isError" result)

-- `exc.code if exc.code is not None else -32603`
abbrev pub code_or_internal : Option ℤ → ℤ
code_or_internal none = negsuc 32602
code_or_internal (some code) = code

-- What ends `_dispatch`: the end of a request to the target, which is raised again where it failed, or
-- the refusal of a call without a name.
pub data Dispatched : Type 0 where
  ended : Attempt → Dispatched
  no_tool_name : Dispatched

pub data ErrorText : Type 0 where
  no_method needs_name : ErrorText
  upstream_text : String → ErrorText
  -- "Upstream request failed with", and the type and the text
  request_failed : String → String → ErrorText

pub data Response : Type 0 where
  result_reply : Value → Object → Response
  error_reply : Value → ℤ → ErrorText → Response

-- What one round of `_page_through` leaves.
pub data Round : Type 0 where
  stop : Proxy → Round
  follow : String → Proxy → Round

abbrev pub stop_listing : Reason → Proxy → Proxy
stop_listing reason p = record p {
  pending = none;
  recorder = mark_listing_incomplete reason p.recorder;
}

-- `_listing_stopped`
unfoldable pub listing_stopped : Option String → Proxy → Proxy
listing_stopped none p = stop_listing first_page_failed p
listing_stopped (some cursor) p = stop_listing page_failed p

-- `params.get("arguments", {})`
abbrev pub arguments_of : Object → Value
arguments_of params = get_or (lookup "arguments" params) (obj end)
