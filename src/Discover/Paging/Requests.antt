-- ===== src/Discover/Paging/Requests.antt =====
-- What `list_tools` asks of a server.
use mathlib.Core.List.{append_assoc}
use agent_perimeter.Prelude.{
  ℕ, zero, suc, ◌+◌, ◌≤◌, ◌<◌, ◌≡◌, refl, ◌∙◌, subst, inl, inr, true, false, String, Option, none,
  some, List, [], ◌∷◌, ◌++◌, map, arith, contains, length, IsDistinct, eq_iff, string_eq,
}
use agent_perimeter.Json.{Value}
use agent_perimeter.Transport.{Transport, Request, Result, recording}
use agent_perimeter.Discover.Paging.{
  ToolListing, Progress, page_params, page_loop, list_tools, max_tool_pages, start,
}
use agent_perimeter.Discover.Paging.Steps.{page_loop_cases, page_step-next, absorb}

-- tools/list with this cursor
abbrev pub list_request : Option String → Request
list_request cursor = record { method = "tools/list"; params = page_params cursor }

-- tools/list with no cursor, and then with each of these
abbrev pub list_requests : Option String → List String → List Request
list_requests first cursors = list_request first ∷ map (λ c. list_request (some c)) cursors

-- No cursor repeats another one, or one that was seen before.
abbrev pub IsFresh : List String → List String → Type 0
IsFresh seen [] = Unit
IsFresh seen (c ∷ cs) = (contains c seen ≡ false) × IsFresh (c ∷ seen) cs

IsFresh-contains :
    (c : String) (seen cs : List String)
    → IsFresh seen cs
    → contains c seen ≡ true
    → contains c cs ≡ false
IsFresh-contains c seen [] h m = refl
IsFresh-contains c seen (d ∷ cs) h m =
    ground (arith, eq_iff c d, IsFresh-contains c (d ∷ seen) cs h.1)

pub IsFresh-IsDistinct : (seen cs : List String) → IsFresh seen cs → IsDistinct cs
IsFresh-IsDistinct seen [] h = tt
IsFresh-IsDistinct seen (c ∷ cs) h = (
  IsFresh-contains c (c ∷ seen) cs h.1 (ground (arith, eq_iff c c)),
  IsFresh-IsDistinct (c ∷ seen) cs h.1,
)

abbrev pub sent_by : {S : Type 0} → Result ToolListing × (S × List Request) → List Request
sent_by (_, (_, sent)) = sent

module _ (render : Value → String) {S : Type 0} (t : Transport S) where
  -- What a loop with a page left sends: its own cursor, and then fresh ones.
  abbrev Sends : ℕ → Progress → List Request → List Request → Type 0
  Sends left p sent sent' =
      (cursors : List String) × (sent' ≡ sent ++ list_requests p.cursor cursors)
      × IsFresh p.seen cursors
      × (length cursors ≤ left)

  page_loop-zero :
      (page : ℕ) (p : Progress) (s : S × List Request)
      → sent_by (page_loop render (recording t) zero page p s) ≡ s.1
  unfolding page_loop
  page_loop-zero page p s = refl

  Sends-next :
      (left : ℕ) (p p' q : Progress) (following : String) (sent sent' : List Request)
      → contains following p.seen ≡ false
      → q ≡ record p' { cursor = some following; seen = following ∷ p.seen }
      → Sends left q (sent ++ list_request p.cursor ∷ []) sent'
      → Sends (suc left) p sent sent'
  Sends-next left p p' q following sent sent' new e h =
      let (cursors, h₁, h₂, h₃) =
        subst (λ q. Sends left q (sent ++ list_request p.cursor ∷ []) sent') e h in
      (
        following ∷ cursors,
        h₁
            ∙ append_assoc sent (list_request p.cursor ∷ [])
                (list_requests (some following) cursors),
        (new, h₂),
        omega arith,
      )

  page_loop-Sends :
      (left page : ℕ) (p : Progress) (s : S) (sent : List Request)
      → Sends left p sent (sent_by (page_loop render (recording t) (suc left) page p (s, sent)))
  page_loop-Sends zero page p s sent =
      elim (page_loop_cases render (recording t) zero page p (s, sent)) [
        | inl (l, stepped, e) ↦ ([], rw e, tt, omega arith)
        | inr (p', stepped, e) ↦ ([], rw e (page_loop-zero (page + 1) p' _), tt, omega arith)
      ]
  page_loop-Sends (suc left) page p s sent =
      let (reply, s') = t.request "tools/list" (page_params p.cursor) s in
      elim (page_loop_cases render (recording t) (suc left) page p (s, sent)) [
        | inl (l, stepped, e) ↦ ([], rw e, tt, omega arith)
        | inr (p', stepped, e) ↦
            let (listing, following, _, _, new, e') =
              page_step-next render page p reply p' stepped in
            Sends-next left p (absorb render listing p) p' following sent _ new e'
              (rw e (page_loop-Sends left (page + 1) p' s' (sent ++ list_request p.cursor ∷ [])))
      ]

  pub list_tools_requests :
      (s : S)
      → (cursors : List String) × (sent_by (list_tools render (recording t) (s, []))
          ≡ list_requests none cursors)
        × IsDistinct cursors
        × (length cursors < max_tool_pages)
  unfolding list_tools
  list_tools_requests s =
      let (cursors, h₁, h₂, h₃) = page_loop-Sends 99 1 start s [] in
      (cursors, h₁, IsFresh-IsDistinct [] cursors h₂, omega arith)
