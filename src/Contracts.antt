-- ===== src/Contracts.antt =====
-- agent_perimeter/_contracts.py and agent_perimeter/model/edge.py: the enumerations that findings,
-- edges and claims carry.
pub mod Claim
use agent_perimeter.Prelude.{ℕ, String, ◌≡◌, refl, List, [], ◌∷◌, HasEq, nth, by_place}

pub data Severity : Type 0 where
  critical high medium low info : Severity

pub data Derivation : Type 0 where
  schema name description probe artifact : Derivation

pub data Capability : Type 0 where
  fs_read fs_write net_out exec secret_read db_read db_write : Capability

abbrev pub severities : List Severity
severities = critical ∷ high ∷ medium ∷ low ∷ info ∷ []

abbrev pub severity_place : Severity → ℕ
severity_place critical = 0
severity_place high = 1
severity_place medium = 2
severity_place low = 3
severity_place info = 4

pub severity_found : (s : Severity) → nth info severities (severity_place s) ≡ s
severity_found critical = refl
severity_found _ = refl

instance abbrev pub severity_eq : HasEq Severity
severity_eq = by_place severity_place info severities severity_found

abbrev pub derivations : List Derivation
derivations = schema ∷ name ∷ description ∷ probe ∷ artifact ∷ []

abbrev pub derivation_place : Derivation → ℕ
derivation_place schema = 0
derivation_place name = 1
derivation_place description = 2
derivation_place probe = 3
derivation_place artifact = 4

pub derivation_found : (d : Derivation) → nth artifact derivations (derivation_place d) ≡ d
derivation_found schema = refl
derivation_found _ = refl

instance abbrev pub derivation_eq : HasEq Derivation
derivation_eq = by_place derivation_place artifact derivations derivation_found

abbrev pub capabilities : List Capability
capabilities = fs_read ∷ fs_write ∷ net_out ∷ exec ∷ secret_read ∷ db_read ∷ db_write ∷ []

abbrev pub capability_place : Capability → ℕ
capability_place fs_read = 0
capability_place fs_write = 1
capability_place net_out = 2
capability_place exec = 3
capability_place secret_read = 4
capability_place db_read = 5
capability_place db_write = 6

pub capability_found : (c : Capability) → nth db_write capabilities (capability_place c) ≡ c
capability_found fs_read = refl
capability_found _ = refl

instance abbrev pub capability_eq : HasEq Capability
capability_eq = by_place capability_place db_write capabilities capability_found

-- The members' values, which sort and print.
abbrev pub derivation_value : Derivation → String
derivation_value schema = "schema"
derivation_value name = "name"
derivation_value description = "description"
derivation_value probe = "probe"
derivation_value artifact = "artifact"
