-- ===== src/Model/Tests.antt =====
-- The scope gate at concrete files and days.
use agent_perimeter.Prelude.{
  ℕ, ◌≡◌, ◌≤◌, refl, ◌↔◌, Bool, true, ◌&&◌, ◌||◌, none, some, all, length, leb, ◌==◌, nat_eq, arith,
}
use agent_perimeter.Model.Scope.{
  ScopeFile, Authorises, lapsed, not_begun, is_blank, make_scope, require_scope, require_scope_iff,
}
use agent_perimeter.Model.Scope.{codes}
use agent_perimeter.Model.Excerpt.{
  label, cleaned, renderable, bounded_and_printable, take, excerpt_max_chars,
}
use agent_perimeter.Model.Excerpt.Bounds.{bounded_and_printable-renderable}

abbrev acme : ScopeFile
acme = record {
  target = "https://mcp.example.test/rpc";
  authorising_party = "Acme Ltd";
  authorised_on = 739860;
  attestation = "I am authorized to test this system.";
  expires_on = some 739951;
}

acme-lapsed :
    require_scope (some acme) "scan" "https://mcp.example.test/rpc" 739952
    ≡ some (lapsed "scan" 739951)
unfolding require_scope
acme-lapsed = refl

acme-not_begun :
    require_scope (some acme) "scan" "https://mcp.example.test/rpc" 739859
    ≡ some (not_begun "scan" 739860)
unfolding require_scope
acme-not_begun = refl

blank_refused : make_scope (record acme { attestation = " \t\u{a0}" }) ≡ none
unfolding make_scope is_blank
blank_refused = refl

acme-made : make_scope acme ≡ some acme
unfolding make_scope is_blank
acme-made = refl

require_scope_iff_example :
    (require_scope (some acme) "scan" "https://mcp.example.test/rpc" 739951 ≡ none)
    ↔ Authorises (some acme) "https://mcp.example.test/rpc" 739951
require_scope_iff_example =
    require_scope_iff (some acme) "scan" "https://mcp.example.test/rpc" 739951

abbrev shows : ℕ → Bool
shows c = (leb 32 c && leb c 126) || (c == 8230)

override_labelled :
    bounded_and_printable shows (codes "a\u{202e}b\n\u{e0041}") ≡ codes "aU+202Eb\nU+E0041"
unfolding bounded_and_printable cleaned label
override_labelled = refl

shows_ascii : (c : ℕ) → 32 ≤ c → c ≤ 126 → shows c ≡ true
shows_ascii c low high = ground (arith, low, high)

bounded_and_printable-renderable_example :
    (length (bounded_and_printable shows (codes "a\u{202e}b")) ≤ 2013)
    × (all (renderable shows) (bounded_and_printable shows (codes "a\u{202e}b")) ≡ true)
    × (take excerpt_max_chars (bounded_and_printable shows (codes "a\u{202e}b"))
        ≡ take excerpt_max_chars (cleaned shows (codes "a\u{202e}b")))
bounded_and_printable-renderable_example =
    bounded_and_printable-renderable shows shows_ascii refl (codes "a\u{202e}b")
