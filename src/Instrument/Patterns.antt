-- ===== src/Instrument/Patterns.antt =====
-- The credential formats of agent_perimeter/checks/secrets/patterns.py, as agent_perimeter/instrument/
-- recorder.py matches them: without word boundaries. Each is a lead of single characters and then a
-- run of one class, so that a match needs no backtracking.
use Prim.Native.Char.{code}
use agent_perimeter.Prelude.{
  ℕ, zero, suc, ◌+◌, ◌-◌, String, Bool, ◌&&◌, ◌||◌, Option, none, some, List, [], ◌∷◌, map, leb,
  ◌==◌, nat_eq, if◌then◌else◌, plus, size, first_chars, last_chars,
}
use agent_perimeter.Model.Scope.{codes}

abbrev pub CharClass : Type 0
CharClass = ℕ → Bool

-- `[0-9]`, `[A-Z]` and `[a-z]`
abbrev pub digit : CharClass
digit c = leb 48 c && leb c 57

abbrev pub uppercase : CharClass
uppercase c = leb 65 c && leb c 90

abbrev pub lowercase : CharClass
lowercase c = leb 97 c && leb c 122

abbrev pub alphanumeric : CharClass
alphanumeric c = digit c || (uppercase c || lowercase c)

abbrev pub dashed : CharClass
dashed c = alphanumeric c || (c == 45)

abbrev pub word_or_dash : CharClass
word_or_dash c = dashed c || (c == 95)

abbrev pub upper_or_digit : CharClass
upper_or_digit c = digit c || uppercase c

-- A format; `most` is the bound of `{n}`, none for `{n,}`.
pub record Pattern : Type 0 where
  pub name : String
  pub lead : List CharClass
  pub run : CharClass
  pub least : ℕ
  pub most : Option ℕ

abbrev pub literal : String → List CharClass
literal text = map (λ (c : ℕ). λ (d : ℕ). d == c) (codes text)

abbrev pub either : ℕ → ℕ → CharClass
either b p c = (c == b) || (c == p)

-- `SECRET_PATTERNS`, and `_UNANCHORED`
abbrev pub secret_patterns : List Pattern
secret_patterns =
    record { name = "openai"; lead = literal "sk-"; run = word_or_dash; least = 16; most = none }
    ∷ record {
      name = "github_pat";
      lead = literal "ghp_";
      run = alphanumeric;
      least = 20;
      most = none;
    }
    ∷ record {
      name = "github_oauth";
      lead = literal "gho_";
      run = alphanumeric;
      least = 20;
      most = none;
    }
    ∷ record {
      name = "aws_access_key";
      lead = literal "AKIA";
      run = upper_or_digit;
      least = 16;
      most = some 16;
    }
    ∷ record {
      name = "slack_bot_token";
      lead =
          (λ c. c == 120) ∷ (λ c. c == 111) ∷ (λ c. c == 120) ∷ either 98 112 ∷ (λ c. c == 45) ∷ [];
      run = dashed;
      least = 10;
      most = none;
    }
    ∷ record {
      name = "gitlab_pat";
      lead = literal "glpat-";
      run = word_or_dash;
      least = 20;
      most = none;
    }
    ∷ []

-- The text behind the lead, if it stands there.
unfoldable pub after_lead : List CharClass → String → Option String
after_lead [] s = some s
after_lead (p ∷ lead) String.[] = none
after_lead (p ∷ lead) (String.◌∷◌ c s) = if p (code c) then after_lead lead s else none

-- The characters of the class at the start, and at most so many.
unfoldable pub run_length : CharClass → Option ℕ → String → ℕ
run_length p most String.[] = 0
run_length p (some zero) (String.◌∷◌ c s) = 0
run_length p (some (suc most)) (String.◌∷◌ c s) =
    if p (code c) then suc (run_length p (some most) s) else 0
run_length p none (String.◌∷◌ c s) = if p (code c) then suc (run_length p none s) else 0

-- The length of the match at the start of a text.
unfoldable pub match_length : Pattern → String → Option ℕ
match_length p s = elim (after_lead p.lead s) [
  | none ↦ none
  | some rest ↦
      let n = run_length p.run p.most rest in
      if leb p.least n then some ((size s - size rest) + n) else none
]

-- `_replacer`: of the fingerprint, the prefix and the last four characters are shown.
abbrev pub replacement : Pattern → String → String
replacement p secret = plus "[REDACTED:" (
    plus p.name
      (plus ":" (plus (first_chars 4 secret) (plus "..." (plus (last_chars 4 secret) "]")))))

-- `pattern.sub(_replacer(name), text)`, with the characters of the match that are still to skip
unfoldable pub sub_from : Pattern → ℕ → String → String
sub_from p skip String.[] = String.[]
sub_from p (suc skip) (String.◌∷◌ c s) = sub_from p skip s
sub_from p zero (String.◌∷◌ c s) = elim (match_length p (String.◌∷◌ c s)) [
  | none ↦ String.◌∷◌ c (sub_from p zero s)
  | some n ↦ plus (replacement p (first_chars n (String.◌∷◌ c s))) (sub_from p (n - 1) s)
]

abbrev pub apply_each : List Pattern → String → String
apply_each [] text = text
apply_each (p ∷ patterns) text = apply_each patterns (sub_from p 0 text)

-- `_apply_patterns`
unfoldable pub apply_patterns : String → String
apply_patterns text = apply_each secret_patterns text
