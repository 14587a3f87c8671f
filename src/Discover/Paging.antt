-- ===== src/Discover/Paging.antt =====
-- `list_tools`: every page of tools/list, with the reason where the listing stopped early.
pub mod Steps
pub mod Requests
pub mod Complete
use agent_perimeter.Prelude.{
  ℕ, zero, suc, ◌+◌, ℤ, negsuc, String, Bool, true, false, ◌&&◌, Option, none, some, List, [], ◌∷◌,
  ◌++◌, ◌==◌, contains, if◌then◌else◌, string_eq, int_eq, nat_eq,
}
use agent_perimeter.Json.{Value, Object, str, get_list, get_str}
use agent_perimeter.Transport.{Reply, ok, error, raises, Result, value, thrown, Transport}
use agent_perimeter.Discover.Parse.{ToolRecord, parse_tools}
use agent_perimeter.Discover.Merge.{Merged, nothing_merged, merge_page}

abbrev pub max_tool_pages : ℕ
max_tool_pages = 100

-- -32601
abbrev pub method_not_found : ℤ
method_not_found = negsuc 32600

-- One constructor for each sentence, with the numbers that it quotes.
pub data Note : Type 0 where
  -- NO_TOOLS_NOTE, which does not make the listing incomplete
  no_tools : Note
  -- "failed with a transport error" on this page
  page_failed : ℕ → Note
  -- "answered with no tools list" on this page
  no_tools_list : ℕ → Note
  -- the cursor repeated after this many pages
  repeat_cursor : ℕ → Note
  page_cap : Note

pub record ToolListing : Type 0 where
  pub tools : List ToolRecord
  pub notes : List Note
  pub complete : Bool

-- The loop's variables.
pub record Progress : Type 0 where
  pub merged : Merged
  pub cursor : Option String
  pub seen : List String

abbrev pub start : Progress
start = record { merged = nothing_merged; cursor = none; seen = [] }

pub data Step : Type 0 where
  -- `break`, or the `else` of the loop, or an exception that leaves it
  stop : Result ToolListing → Step
  next : Progress → Step

abbrev pub completed : Progress → List Note → ToolListing
completed p notes = record { tools = p.merged.records; notes = notes; complete = true }

-- the inner `stop(text)`
abbrev pub stopped : Progress → Note → ToolListing
stopped p note = record { tools = p.merged.records; notes = note ∷ []; complete = false }

-- `isinstance(following, str) and following`
unfoldable pub next_cursor : Object → Option String
next_cursor listing = elim (get_str "nextCursor" listing) [
  | none ↦ none
  | some following ↦ if following == "" then none else some following
]

-- From `following` on: the page has been merged.
unfoldable pub follow : ℕ → Option String → Progress → Step
follow page none p = stop (value (completed p []))
follow page (some following) p =
    if contains following p.seen
    then stop (value (stopped p (repeat_cursor page)))
    else next (record p { cursor = some following; seen = following ∷ p.seen })

abbrev pub failed : ℕ → Option ℤ → Progress → Step
failed page code p =
    if (page == 1) && (elim code [ none ↦ false | some c ↦ c == method_not_found ])
    then stop (value (completed p (no_tools ∷ [])))
    else stop (value (stopped p (page_failed page)))

-- `{"cursor": cursor} if cursor is not None else None`
abbrev pub page_params : Option String → Option Object
page_params none = none
page_params (some cursor) = some (("cursor", str cursor) ∷ [])

module _ (render : Value → String) where
  -- One round of the loop, from the reply on.
  unfoldable pub page_step : ℕ → Progress → Reply → Step
  page_step page p (error code) = failed page code p
  page_step page p (raises e) = stop (thrown e)
  page_step page p (ok listing) = elim (get_list "tools" listing) [
    | none ↦ stop (value (stopped p (no_tools_list page)))
    | some _ ↦
        follow page (next_cursor listing)
          (record p { merged = merge_page (parse_tools render listing) p.merged })
  ]

  module _ {S : Type 0} (t : Transport S) where
    -- The loop, with the pages that the cap leaves.
    unfoldable pub page_loop : ℕ → ℕ → Progress → S → Result ToolListing × S
    page_loop zero page p s = (value (stopped p page_cap), s)
    page_loop (suc left) page p s =
        let (reply, s') = t.request "tools/list" (page_params p.cursor) s in
        elim (page_step page p reply) [
          | stop listing ↦ (listing, s')
          | next p' ↦ page_loop left (page + 1) p' s'
        ]

    unfoldable pub list_tools : S → Result ToolListing × S
    list_tools s = page_loop max_tool_pages 1 start s
