-- ===== src/Discover/Tests.antt =====
-- Runs of the listing on small servers, and the theorems at those inputs.
use agent_perimeter.Prelude.{
  ◌<◌, ◌≡◌, refl, negsuc, String, true, false, none, some, List, [], ◌∷◌, arith, length, IsDistinct,
  string_eq,
}
use agent_perimeter.Json.{Value, Object, str, arr, obj, nil, cons, end, field}
use agent_perimeter.Transport.{ok, error, value, Transport, recording}
use agent_perimeter.Discover.Parse.{ToolRecord, parse_tools, parse}
use agent_perimeter.Discover.Merge.{Merged, nothing_merged, merge_page, merge_records, merge_record}
use agent_perimeter.Discover.Merge.Slots.{IsIndex}
use agent_perimeter.Discover.Merge.Names.{copies, latest, copies-merge_page}
use agent_perimeter.Discover.Paging.{
  ToolListing, no_tools, repeat_cursor, page_loop, list_tools, page_step, follow, next_cursor,
  max_tool_pages, start,
}
use agent_perimeter.Discover.Paging.Requests.{list_requests, list_tools_requests, sent_by}
use agent_perimeter.Discover.Paging.Complete.{
  Serves, last, more, merge_pages, Reads, list_tools-Reads, list_tools-Serves,
}

abbrev render : Value → String
render v = "?"

abbrev named : String → Value
named n = obj (field "name" (str n) end)

abbrev page_1 : Object
page_1 =
    ("tools", arr (cons (named "fetch") (cons (named "read") nil))) ∷ ("nextCursor", str "p2") ∷ []

abbrev page_2 : Object
page_2 = ("tools", arr (cons (named "read") (cons (named "exec") nil))) ∷ []

abbrev server : Transport (Unit {0})
server = record { request = λ m p s. (elim p [ none ↦ ok page_1 | some _ ↦ ok page_2 ], s) }

-- Every page leads to the same cursor.
abbrev looping : Transport (Unit {0})
looping = record { request = λ m p s. (ok page_1, s) }

abbrev toolless : Transport (Unit {0})
toolless = record { request = λ m p s. (error (some (negsuc 32600)), s) }

abbrev tool : String → ToolRecord
tool n = record { name = n; description = ""; input_schema = []; annotations = [] }

server_listing :
    (list_tools render server tt).0
    ≡ value (record {
      tools = tool "fetch" ∷ tool "read" ∷ tool "exec" ∷ [];
      notes = [];
      complete = true;
    })
unfolding list_tools page_loop page_step follow next_cursor merge_page merge_records merge_record
    parse_tools parse
server_listing = refl

looping_listing :
    (list_tools render looping tt).0
    ≡ value (record {
      tools = tool "fetch" ∷ tool "read" ∷ [];
      notes = repeat_cursor 2 ∷ [];
      complete = false;
    })
unfolding list_tools page_loop page_step follow next_cursor merge_page merge_records merge_record
    parse_tools parse
looping_listing = refl

toolless_listing :
    (list_tools render toolless tt).0
    ≡ value (record { tools = []; notes = no_tools ∷ []; complete = true })
unfolding list_tools page_loop page_step
toolless_listing = refl

server-Serves :
    Serves render server none tt
      ("p2" ∷ [])
      (parse_tools render page_1 ∷ parse_tools render page_2 ∷ [])
      tt
unfolding next_cursor
server-Serves =
    more page_1 "p2" refl (record { answered = refl; raw_tools = _; has_tools = refl }) refl
      (last page_2 refl (record { answered = refl; raw_tools = _; has_tools = refl }) refl)

list_tools-Serves_example : list_tools render server tt ≡ (
  value (record {
    tools =
        (merge_pages
          (parse_tools render page_1 ∷ parse_tools render page_2 ∷ [])
          nothing_merged).records;
    notes = [];
    complete = true;
  }),
  tt,
)
list_tools-Serves_example = list_tools-Serves render server server-Serves (refl, tt) (omega arith)

abbrev listed_by_server : ToolListing
listed_by_server = record {
  tools = tool "fetch" ∷ tool "read" ∷ tool "exec" ∷ [];
  notes = [];
  complete = true;
}

list_tools-Reads_example : Reads render server 1 start tt (listed_by_server, tt)
unfolding list_tools page_loop page_step follow next_cursor merge_page merge_records merge_record
    parse_tools parse
list_tools-Reads_example = list_tools-Reads render server tt tt listed_by_server refl refl

list_tools_requests_example :
    (cursors : List String) × (sent_by (list_tools render (recording server) (tt, []))
      ≡ list_requests none cursors)
    × IsDistinct cursors
    × (length cursors < max_tool_pages)
list_tools_requests_example = list_tools_requests render server tt

abbrev listed : Merged
listed = record {
  records = tool "fetch" ∷ tool "read" ∷ [];
  index = ("fetch", 0) ∷ ("read", 1) ∷ [];
}

listed-IsIndex : IsIndex listed
listed-IsIndex n = ground arith

abbrev second_page : List ToolRecord
second_page = tool "exec" ∷ record (tool "read") { description = "new" } ∷ tool "exec" ∷ []

copies-merge_page_example :
    copies "read" (merge_page second_page listed).records
    ≡ latest (copies "read" listed.records) (copies "read" second_page)
copies-merge_page_example = copies-merge_page "read" second_page listed listed-IsIndex
