-- ===== src/Discover/Paging/Complete.antt =====
-- A complete listing is the merge of every page that the server offers.
use agent_perimeter.Prelude.{
  ℕ, zero, suc, ◌+◌, ◌≤◌, ◌<◌, ◌≡◌, refl, sym, ◌∙◌, ap, subst, ◌⊎◌, inl, inr, true, false, String,
  Option, none, some, List, [], ◌∷◌, arith, contains, length, string_eq,
}
use agent_perimeter.Json.{Value, Object}
use agent_perimeter.Transport.{Reply, error, Result, value, Transport}
use agent_perimeter.Discover.Parse.{ToolRecord, parse_tools}
use agent_perimeter.Discover.Merge.{Merged, nothing_merged, merge_page}
use agent_perimeter.Discover.Paging.{
  ToolListing, stopped, page_cap, no_tools, Progress, stop, next, completed, page_params, page_loop,
  list_tools, max_tool_pages, method_not_found, start, page_step, next_cursor, follow,
}
use agent_perimeter.Discover.Paging.Steps.{
  IsPage, page_loop_cases, page_step-next, page_step-complete, absorb,
}
use agent_perimeter.Discover.Paging.Requests.{IsFresh}

-- The pages merged in turn.
abbrev pub merge_pages : List (List ToolRecord) → Merged → Merged
merge_pages [] m = m
merge_pages (page ∷ pages) m = merge_pages pages (merge_page page m)

module _ (render : Value → String) {S : Type 0} (t : Transport S) where
  -- From this cursor and state on, the server answers with these pages, led by these cursors, and
  -- the last page has no cursor.
  pub data Serves : Option String → S → List String → List (List ToolRecord) → S → Type 0 where
    last :
        {c : Option String} {s : S} (listing : Object) {reply : Reply} {s' : S}
        → t.request "tools/list" (page_params c) s ≡ (reply, s')
        → IsPage reply listing
        → next_cursor listing ≡ none
        → Serves c s [] (parse_tools render listing ∷ []) s'
    more :
        {c : Option String} {s : S} (listing : Object) (following : String) {reply : Reply}
        {s' s'' : S} {cursors : List String} {pages : List (List ToolRecord)}
        → t.request "tools/list" (page_params c) s ≡ (reply, s')
        → IsPage reply listing
        → next_cursor listing ≡ some following
        → Serves (some following) s' cursors pages s''
        → Serves c s (following ∷ cursors) (parse_tools render listing ∷ pages) s''

  -- What a complete listing was read from: the server's pages to the last one, or, on page 1, the
  -- answer that there are no tools.
  abbrev pub Reads : ℕ → Progress → S → ToolListing × S → Type 0
  Reads page p s (l, s') =
      ((cursors : List String) × (pages : List (List ToolRecord)) × Serves p.cursor s cursors pages
          s'
        × (l ≡ completed (record p { merged = merge_pages pages p.merged }) []))
      ⊎ ((page ≡ 1)
          × (t.request "tools/list" (page_params p.cursor) s ≡ (error (some method_not_found), s'))
          × (l ≡ completed p (no_tools ∷ [])))

  page_loop_capped :
      (page : ℕ) (p : Progress) (s s' : S) (l : ToolListing)
      → page_loop render t zero page p s ≡ (value l, s')
      → ¬ (l.complete ≡ true)
  unfolding page_loop
  page_loop_capped page p s s' l e c =
      let same : value (stopped p page_cap) ≡ value l = ap (λ r. r.0) e in ground (arith, same, c)

  Reads-stop :
      (page : ℕ) (p : Progress) (s s' : S) (reply : Reply) (l : ToolListing)
      → t.request "tools/list" (page_params p.cursor) s ≡ (reply, s')
      → page_step render page p reply ≡ stop (value l)
      → l.complete ≡ true
      → Reads page p s (l, s')
  Reads-stop page p s s' reply l asked stepped c =
      elim (page_step-complete render page p reply l stepped c) [
        | inl (listing, is_page, ended, e) ↦
            inl ([], parse_tools render listing ∷ [], last listing asked is_page ended, e)
        | inr (first, e, e') ↦ inr (first, asked ∙ ap (λ r. (r, s')) e, e')
      ]

  Reads-next :
      (page : ℕ) (p q : Progress) (s s' : S) (reply : Reply) (listing : Object) (following : String)
      (r : ToolListing × S)
      → 0 < page
      → t.request "tools/list" (page_params p.cursor) s ≡ (reply, s')
      → IsPage reply listing
      → next_cursor listing ≡ some following
      → q ≡ record (absorb render listing p) { cursor = some following; seen = following ∷ p.seen }
      → Reads (page + 1) q s' r
      → Reads page p s r
  Reads-next page p q s s' reply listing following r pos asked is_page led e h =
      elim (subst (λ q. Reads (page + 1) q s' r) e h) [
        | inl (cursors, pages, served, e') ↦ inl (
          following ∷ cursors,
          parse_tools render listing ∷ pages,
          more listing following asked is_page led served,
          e',
        )
        | inr (second, _, _) ↦ absurd (omega arith)
      ]

  page_loop-Reads :
      (left page : ℕ) (p : Progress) (s s' : S) (l : ToolListing)
      → 0 < page
      → page_loop render t left page p s ≡ (value l, s')
      → l.complete ≡ true
      → Reads page p s (l, s')
  page_loop-Reads zero page p s s' l pos e c = absurd (page_loop_capped page p s s' l e c)
  page_loop-Reads (suc left) page p s s'' l pos ended c =
      let (reply, s') = t.request "tools/list" (page_params p.cursor) s in
      elim (page_loop_cases render t left page p s) [
        | inl (o, stepped, e) ↦
            let same = sym e ∙ ended in
            subst (λ (r : S). Reads page p s (l, r)) (ap (λ r. r.1) same)
              (Reads-stop page p s s' reply l refl (stepped ∙ ap (λ r. stop r.0) same) c)
        | inr (q, stepped, e) ↦
            let (listing, following, is_page, led, _, e') =
              page_step-next render page p reply q stepped in
            Reads-next page p q s s' reply listing following (l, s'') pos refl is_page led e'
              (page_loop-Reads left (page + 1) q s' s'' l (omega arith) (sym e ∙ ended) c)
      ]

  -- A complete listing without notes is the merge of pages that the server offered, each at the
  -- cursor that the page before it gave and the last without one; the only other complete listing
  -- is empty with the note that the server has no tools, and then page 1 was answered by -32601.
  pub list_tools-Reads :
      (s s' : S) (l : ToolListing)
      → list_tools render t s ≡ (value l, s')
      → l.complete ≡ true
      → Reads 1 start s (l, s')
  unfolding list_tools
  list_tools-Reads s s' l e c = page_loop-Reads 100 1 start s s' l (omega arith) e c

  page_step_last :
      (page : ℕ) (p : Progress) {reply : Reply} {listing : Object}
      → IsPage reply listing
      → next_cursor listing ≡ none
      → page_step render page p reply ≡ stop (value (completed (absorb render listing p) []))
  unfolding page_step follow
  page_step_last page p is_page ended = rw (is_page.answered, page_step, is_page.has_tools, ended)

  page_step_more :
      (page : ℕ) (p : Progress) {reply : Reply} {listing : Object} {following : String}
      → IsPage reply listing
      → next_cursor listing ≡ some following
      → contains following p.seen ≡ false
      → page_step render page p reply
        ≡ next (record (absorb render listing p) {
          cursor = some following;
          seen = following ∷ p.seen;
        })
  unfolding page_step follow
  page_step_more page p is_page led new =
      rw (is_page.answered, page_step, is_page.has_tools, led, follow, new)

  module _ (left page : ℕ) (p : Progress) {s s' : S} {reply : Reply} where
    page_loop_stop :
        {l : Result ToolListing}
        → t.request "tools/list" (page_params p.cursor) s ≡ (reply, s')
        → page_step render page p reply ≡ stop l
        → page_loop render t (suc left) page p s ≡ (l, s')
    unfolding page_loop
    page_loop_stop {l} asked stepped = rw (page_loop, asked, stepped) (ap (λ r. (l, r.1)) asked)

    page_loop_next :
        {q : Progress}
        → t.request "tools/list" (page_params p.cursor) s ≡ (reply, s')
        → page_step render page p reply ≡ next q
        → page_loop render t (suc left) page p s ≡ page_loop render t left (page + 1) q s'
    unfolding page_loop
    page_loop_next {q} asked stepped =
        rw (page_loop, asked, stepped) (ap (λ r. page_loop render t left (page + 1) q r.1) asked)

  page_loop-Serves :
      (left page : ℕ) (p : Progress) {c : Option String} {s s' : S} {cursors : List String}
      {pages : List (List ToolRecord)}
      → p.cursor ≡ c
      → Serves c s cursors pages s'
      → IsFresh p.seen cursors
      → length pages ≤ left
      → page_loop render t left page p s
        ≡ (value (completed (record p { merged = merge_pages pages p.merged }) []), s')
  page_loop-Serves zero page p same (last listing asked is_page ended) fresh fits =
      absurd (omega arith)
  page_loop-Serves zero page p same (more listing following asked is_page led rest) fresh fits =
      absurd (omega arith)
  page_loop-Serves (suc left) page p same (last listing asked is_page ended) fresh fits =
      page_loop_stop left page p (rw same asked) (page_step_last page p is_page ended)
  page_loop-Serves (suc left) page p same (more listing following asked is_page led rest) fresh
        fits =
      page_loop_next left page p (rw same asked) (page_step_more page p is_page led fresh.0)
      ∙ page_loop-Serves left (page + 1)
          (record (absorb render listing p) { cursor = some following; seen = following ∷ p.seen })
          refl rest fresh.1 (omega arith)

  -- A server whose pages end within the cap, with no cursor given twice, is listed completely:
  -- the result is the merge of all its pages, without a note.
  pub list_tools-Serves :
      {s s' : S} {cursors : List String} {pages : List (List ToolRecord)}
      → Serves none s cursors pages s'
      → IsFresh [] cursors
      → length pages ≤ max_tool_pages
      → list_tools render t s ≡ (
        value (record {
          tools = (merge_pages pages nothing_merged).records;
          notes = [];
          complete = true;
        }),
        s',
      )
  unfolding list_tools
  list_tools-Serves served fresh fits = page_loop-Serves 100 1 start refl served fresh fits
