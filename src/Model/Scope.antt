-- ===== src/Model/Scope.antt =====
-- agent_perimeter/model/scope.py: the scope file, and the gate before an active probe. A date is
-- its ordinal; `codes` reads a text as code points.
use Prim.Native.Char.{code}
use agent_perimeter.Prelude.{
  ℕ, ◌≤◌, ◌≡◌, ◌↔◌, String, Bool, true, false, not, ◌&&◌, ◌||◌, Option, none, some, List, [], ◌∷◌,
  all, ltb, leb, ◌==◌, nat_eq, string_eq, eq_iff, if◌then◌else◌, arith, Option-cases, inl, inr,
}

abbrev pub codes : String → List ℕ
codes String.[] = []
codes (String.◌∷◌ c s) = code c ∷ codes s

-- The characters that `str.strip()` takes off.
abbrev pub whitespace : ℕ → Bool
whitespace c =
    (leb 9 c && leb c 13)
    || (leb 28 c && leb c 32)
    || (c == 0x85)
    || (c == 0xA0)
    || (c == 0x1680)
    || (leb 0x2000 c && leb c 0x200A)
    || (c == 0x2028)
    || (c == 0x2029)
    || (c == 0x202F)
    || (c == 0x205F)
    || (c == 0x3000)

-- `not value.strip()`
unfoldable pub is_blank : String → Bool
is_blank s = all whitespace (codes s)

pub record ScopeFile : Type 0 where
  pub target : String
  pub authorising_party : String
  pub authorised_on : ℕ
  pub attestation : String
  pub expires_on : Option ℕ

-- `_must_not_be_blank` on its three fields
unfoldable pub has_no_blank : ScopeFile → Bool
has_no_blank s =
    not (is_blank s.target) && not (is_blank s.authorising_party) && not (is_blank s.attestation)

-- `_expiry_not_before_authorisation`
unfoldable pub expiry_in_order : ScopeFile → Bool
expiry_in_order s = elim s.expires_on [ none ↦ true | some e ↦ not (ltb e s.authorised_on) ]

-- Construction: `none` where a validator raises.
unfoldable pub make_scope : ScopeFile → Option ScopeFile
unfolding has_no_blank expiry_in_order
make_scope s = if has_no_blank s && expiry_in_order s then some s else none

-- `AuthorizationRequired`, by the place that raises it, with what its message quotes.
pub data Refusal : Type 0 where
  no_scope_file : String → Refusal
  wrong_target : String → String → String → Refusal
  not_begun : String → ℕ → Refusal
  lapsed : String → ℕ → Refusal
  not_passive : String → Refusal

-- its `missing_field`
abbrev pub missing_field : Refusal → String
missing_field (no_scope_file _) = "scope_file"
missing_field (wrong_target _ _ _) = "target"
missing_field (not_begun _ _) = "authorised_on"
missing_field (lapsed _ _) = "expires_on"
missing_field (not_passive _) = "requires_auth"

abbrev pub check_expiry : Option ℕ → String → ℕ → Option Refusal
check_expiry none check_id today = none
check_expiry (some e) check_id today = if ltb e today then some (lapsed check_id e) else none

abbrev pub check_scope : ScopeFile → String → String → ℕ → Option Refusal
check_scope scope check_id target today =
    if not (scope.target == target)
    then some (wrong_target check_id scope.target target)
    else if ltb today scope.authorised_on
    then some (not_begun check_id scope.authorised_on)
    else check_expiry scope.expires_on check_id today

-- `none` where it returns, the refusal where it raises
unfoldable pub require_scope : Option ScopeFile → String → String → ℕ → Option Refusal
require_scope none check_id target today = some (no_scope_file check_id)
require_scope (some scope) check_id target today = check_scope scope check_id target today

-- The scope file names the target, has begun and has not lapsed.
pub record Covers (file : ScopeFile) (target : String) (today : ℕ) : Type 0 where
  pub names_target : file.target ≡ target
  pub begun : file.authorised_on ≤ today
  pub not_lapsed : (e : ℕ) → file.expires_on ≡ some e → today ≤ e

abbrev pub Authorises : Option ScopeFile → String → ℕ → Type 0
Authorises none target today = ⊥
Authorises (some file) target today = Covers file target today

check_scope→Covers :
    (file : ScopeFile) (check_id target : String) (today : ℕ)
    → check_scope file check_id target today ≡ none
    → Covers file target today
check_scope→Covers file check_id target today h = record {
  names_target = ground (arith, eq_iff file.target target);
  begun = ground arith;
  not_lapsed = λ e at. ground arith;
}

Covers→check_scope :
    (file : ScopeFile) (check_id target : String) (today : ℕ)
    → Covers file target today
    → check_scope file check_id target today ≡ none
Covers→check_scope file check_id target today c = elim (Option-cases file.expires_on) [
  | inl never ↦ ground (arith, eq_iff file.target target)
  | inr (e, at) ↦ ground (arith, eq_iff file.target target, c.not_lapsed e at)
]

-- The gate lets a probe through exactly where a scope file was supplied that names the scan's
-- target, whose authorisation has begun, and that has not lapsed; both boundary days included.
pub require_scope_iff :
    (scope : Option ScopeFile) (check_id target : String) (today : ℕ)
    → (require_scope scope check_id target today ≡ none) ↔ Authorises scope target today
unfolding require_scope
require_scope_iff none check_id target today = (λ h. absurd (ground arith), λ a. absurd a)
require_scope_iff (some file) check_id target today =
    (check_scope→Covers file check_id target today, Covers→check_scope file check_id target today)

-- A scope file that passed its validators authorises its target on its first day, so the window of
-- a constructed file is never empty; and none of the three texts that identify it is blank.
pub make_scope_window :
    (raw file : ScopeFile) (check_id : String)
    → make_scope raw ≡ some file
    → (require_scope (some file) check_id file.target file.authorised_on ≡ none)
      × (is_blank file.target ≡ false)
      × (is_blank file.authorising_party ≡ false)
      × (is_blank file.attestation ≡ false)
unfolding make_scope require_scope
make_scope_window raw file check_id made = ground (arith, eq_iff file.target file.target)
