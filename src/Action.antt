-- ===== src/Action.antt =====
-- agent_perimeter/action.py: the command that the GitHub action runs, and the line of it that is printed.
pub mod Masking
pub mod Verdict
pub mod Sarif
pub mod Gate
pub mod Tests
use Prim.Native.Char.{code}
use agent_perimeter.Prelude.{
  ℕ, String, Bool, true, false, List, [], ◌∷◌, ◌++◌, any, ◌==◌, nat_eq, string_eq, if◌then◌else◌,
  plus,
}
use agent_perimeter.Model.Scope.{codes}

pub record Inputs : Type 0 where
  pub target : String
  pub mode : String
  pub scope_file : String
  pub image : String
  pub env : List String
  pub only : String
  pub baseline : String
  pub snapshot : String
  pub fail_on_drift : Bool
  pub sarif : String
  pub html : String
  pub upload_sarif : Bool

-- `argv += [flag, value]` under the test that the value is not empty
abbrev pub given : String → String → List String
given flag value = if value == "" then [] else flag ∷ value ∷ []

abbrev pub env_args : List String → List String
env_args [] = []
env_args (pair ∷ pairs) = "--env" ∷ pair ∷ env_args pairs

abbrev pub before_env : Inputs → List String
before_env inputs =
    ("agent-perimeter" ∷ "scan" ∷ "--target" ∷ inputs.target ∷ [])
    ++ given "--mode" inputs.mode
    ++ given "--scope-file" inputs.scope_file
    ++ given "--image" inputs.image

abbrev pub baseline_args : Inputs → Bool → List String
baseline_args inputs first_run =
    if first_run
    then "--snapshot" ∷ inputs.baseline ∷ []
    else ("--baseline" ∷ inputs.baseline ∷ "--snapshot" ∷ inputs.snapshot ∷ [])
      ++ (if inputs.fail_on_drift then "--fail-on-drift" ∷ [] else [])

abbrev pub after_env : Inputs → Bool → List String
after_env inputs first_run =
    given "--only" inputs.only
    ++ given "--html" inputs.html
    ++ ("--sarif" ∷ inputs.sarif ∷ [])
    ++ baseline_args inputs first_run

unfoldable pub build_argv : Inputs → Bool → List String
build_argv inputs first_run = before_env inputs ++ env_args inputs.env ++ after_env inputs first_run

-- `"=" in part`
unfoldable pub has_equals : String → Bool
has_equals part = any (λ c. c == 61) (codes part)

-- `part.partition("=")`, of which the first is the key
abbrev pub key_of : String → String
key_of String.[] = String.[]
key_of (String.◌∷◌ c s) = if code c == 61 then "" else String.◌∷◌ c (key_of s)

unfoldable pub masked_part : String → String
masked_part part = if has_equals part then plus (key_of part) "=***" else "***"

abbrev pub shown_part : String → String → String
shown_part previous part = if previous == "--env" then masked_part part else part

-- The loop, whose `previous` is an argument
unfoldable pub masked_from : String → List String → List String
masked_from previous [] = []
masked_from previous (part ∷ parts) = shown_part previous part ∷ masked_from part parts

-- `shlex.join` is the parameter
unfoldable pub reproduction_line : (List String → String) → List String → String
reproduction_line join argv = join (masked_from "" argv)
