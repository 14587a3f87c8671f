-- ===== src/Discover/Paging/Steps.antt =====
-- One round of `list_tools`, taken apart: what each outcome of `page_step` says of the reply.
use agent_perimeter.Prelude.{
  ℕ, suc, ◌+◌, ◌≡◌, refl, ◌⊎◌, inl, inr, Option-cases, true, false, String, Option, none, some,
  List, [], ◌∷◌, arith, contains, string_eq, int_eq,
}
use agent_perimeter.Json.{Value, Object, get_list}
use agent_perimeter.Transport.{Reply, ok, error, raises, Result, value, Transport}
use agent_perimeter.Discover.Parse.{parse_tools}
use agent_perimeter.Discover.Merge.{merge_page}
use agent_perimeter.Discover.Paging.{
  method_not_found, no_tools, ToolListing, Progress, Step, stop, next, completed, next_cursor,
  follow, page_step, page_params, page_loop,
}

-- The progress with a further page.
abbrev pub absorb : (Value → String) → Object → Progress → Progress
absorb render listing p = record p { merged = merge_page (parse_tools render listing) p.merged }

-- The reply is a page with a tools list.
pub record IsPage (reply : Reply) (listing : Object) : Type 0 where
  pub answered : reply ≡ ok listing
  pub raw_tools : List Value
  pub has_tools : get_list "tools" listing ≡ some raw_tools

follow-next :
    (page : ℕ) (c : Option String) (p p' : Progress)
    → follow page c p ≡ next p'
    → (following : String) × (c ≡ some following)
      × (contains following p.seen ≡ false)
      × (p' ≡ record p { cursor = some following; seen = following ∷ p.seen })
unfolding follow
follow-next page none p p' h = cc
follow-next page (some following) p p' h = (following, refl, ground arith, ground arith)

follow-complete :
    (page : ℕ) (c : Option String) (p : Progress) (l : ToolListing)
    → follow page c p ≡ stop (value l)
    → l.complete ≡ true
    → (c ≡ none) × (l ≡ completed p [])
unfolding follow
follow-complete page none p l h c = ground arith
follow-complete page (some following) p l h c = ground arith

module _ (render : Value → String) (page : ℕ) (p : Progress) where
  -- The loop goes on only from a page with a cursor that was not followed before.
  pub page_step-next :
      (reply : Reply) (p' : Progress)
      → page_step render page p reply ≡ next p'
      → (listing : Object) × (following : String) × IsPage reply listing
        × (next_cursor listing ≡ some following)
        × (contains following p.seen ≡ false)
        × (p' ≡ record (absorb render listing p) {
          cursor = some following;
          seen = following ∷ p.seen;
        })
  unfolding page_step
  page_step-next (error code) p' h = ground arith
  page_step-next (raises e) p' h = absurd (cc (h))
  page_step-next (ok listing) p' h = elim (Option-cases (get_list "tools" listing)) [
    | inl missing ↦ cc (rw (missing, page_step) at h)
    | inr (raw_tools, e) ↦
        let (following, h₁, h₂, h₃) =
          follow-next page (next_cursor listing) (absorb render listing p) p'
            (rw (e, page_step) at h) in
        (
          listing,
          following,
          record { answered = refl; raw_tools = raw_tools; has_tools = e },
          h₁,
          h₂,
          h₃,
        )
  ]

  pub page_step-complete :
      (reply : Reply) (l : ToolListing)
      → page_step render page p reply ≡ stop (value l)
      → l.complete ≡ true
      → ((listing : Object) × IsPage reply listing
          × (next_cursor listing ≡ none)
          × (l ≡ completed (absorb render listing p) []))
        ⊎ ((page ≡ 1) × (reply ≡ error (some method_not_found)) × (l ≡ completed p (no_tools ∷ [])))
  unfolding page_step
  page_step-complete (error code) l h c = ground (arith)
  page_step-complete (raises e) l h c = absurd (cc (h))
  page_step-complete (ok listing) l h c = elim (Option-cases (get_list "tools" listing)) [
    | inl missing ↦ ground (arith, rw (missing, page_step) at h)
    | inr (raw_tools, e) ↦
        let (h₁, h₂) =
          follow-complete page (next_cursor listing) (absorb render listing p) l
            (rw (e, page_step) at h) c in
        inl (listing, record { answered = refl; raw_tools = raw_tools; has_tools = e }, h₁, h₂)
  ]

module _ (render : Value → String) {S : Type 0} (t : Transport S) where
  -- The loop stops with this listing, or goes round once more.
  pub page_loop_cases :
      (left page : ℕ) (p : Progress) (s : S)
      → let (reply, s') = t.request "tools/list" (page_params p.cursor) s in
        ((l : Result ToolListing) × (page_step render page p reply ≡ stop l)
          × (page_loop render t (suc left) page p s ≡ (l, s')))
        ⊎ ((p' : Progress) × (page_step render page p reply ≡ next p')
            × (page_loop render t (suc left) page p s ≡ page_loop render t left (page + 1) p' s'))
  unfolding page_loop
  page_loop_cases left page p s =
      let (reply, s') = t.request "tools/list" (page_params p.cursor) s in
      split (page_step render page p reply) refl
    where
      split :
          (o : Step)
          → page_step render page p (t.request "tools/list" (page_params p.cursor) s).0 ≡ o
          → let (reply, s') = t.request "tools/list" (page_params p.cursor) s in
            ((l : Result ToolListing) × (page_step render page p reply ≡ stop l)
              × (page_loop render t (suc left) page p s ≡ (l, s')))
            ⊎ ((p' : Progress) × (page_step render page p reply ≡ next p')
                × (page_loop render t (suc left) page p s
                    ≡ page_loop render t left (page + 1) p' s'))
      split (stop l) e = inl (l, e, rw (e, page_loop))
      split (next p') e = inr (p', e, rw (e, page_loop))
