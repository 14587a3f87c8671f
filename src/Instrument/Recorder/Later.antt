-- ===== src/Instrument/Recorder/Later.antt =====
-- How a recorder grows: calls are appended, a sink keeps at least its class, the first reason stays.
use mathlib.Core.List.{append_assoc}
use agent_perimeter.Prelude.{
  ℕ, ◌+◌, ◌≤◌, ◌≡◌, refl, ◌∙◌, ap, sym, String, Bool, true, false, Option, some, List, [], ◌∷◌,
  ◌++◌, append_nil, lookup, insert, lookup-insert, leb, leb→le, ◌==◌, string_eq, eq_iff, arith,
  Bool-cases, inl, inr,
}
use agent_perimeter.Json.{Value}
use agent_perimeter.Contracts.{Derivation, schema, name, description, probe, artifact}
use agent_perimeter.Graph.Paths.{SinkClass, derivation_ge, at_least, stronger, Classes}
use agent_perimeter.Instrument.Redact.{Canary}
use agent_perimeter.Instrument.Recorder.{
  Library, Reason, CallRecord, Recorder, hide, record_call, union_sinks, add_sinks,
  mark_listing_incomplete,
}

-- The place of a class in the order that `stronger` compares by.
abbrev pub derivation_place : Derivation → ℕ
derivation_place description = 0
derivation_place name = 1
derivation_place artifact = 2
derivation_place schema = 3
derivation_place probe = 4

abbrev pub class_place : Bool → Derivation → ℕ
class_place true d = 5 + derivation_place d
class_place false d = derivation_place d

abbrev pub place : SinkClass → ℕ
place c = class_place c.backed c.derivation

derivation_ge-place :
    (d d' : Derivation) → derivation_ge d d' ≡ leb (derivation_place d') (derivation_place d)
derivation_ge-place description schema = refl
derivation_ge-place description _ = refl
derivation_ge-place name schema = refl
derivation_ge-place name _ = refl
derivation_ge-place artifact schema = refl
derivation_ge-place artifact _ = refl
derivation_ge-place schema schema = refl
derivation_ge-place schema _ = refl
derivation_ge-place probe schema = refl
derivation_ge-place probe _ = refl

derivation_place_bound : (d : Derivation) → derivation_place d ≤ 4
derivation_place_bound schema = omega arith
derivation_place_bound _ = omega arith

at_least-place : (c c' : SinkClass) → at_least c c' ≡ leb (place c') (place c)
at_least-place c c' = ground (
  arith,
  derivation_ge-place c.derivation c'.derivation,
  derivation_place_bound c.derivation,
  derivation_place_bound c'.derivation,
)

stronger_old : (c k : SinkClass) → place k ≤ place (stronger c (some k))
unfolding stronger
stronger_old c k = elim (Bool-cases (at_least c k)) [
  | inl above ↦ rw above (leb→le (place k) (place c) (sym (at_least-place c k) ∙ above))
  | inr below ↦ rw below (omega arith)
]

-- Every sink of the first table is in the second one, in its class or a higher one.
abbrev pub KeepsSinks : Classes → Classes → Type 0
KeepsSinks sinks sinks' =
    (t : String) (c : SinkClass)
    → lookup t sinks ≡ some c
    → (c' : SinkClass) × (lookup t sinks' ≡ some c') × (place c ≤ place c')

pub record Later (r r' : Recorder) : Type 0 where
  pub added : List CallRecord
  pub calls_kept : r'.calls ≡ r.calls ++ added
  pub sinks_kept : KeepsSinks r.sinks r'.sinks
  pub reason_kept :
      (reason : Reason) → r.listing_incomplete ≡ some reason → r'.listing_incomplete ≡ some reason

KeepsSinks-refl : (sinks : Classes) → KeepsSinks sinks sinks
KeepsSinks-refl sinks t c h = (c, h, omega arith)

KeepsSinks-trans : (a b c : Classes) → KeepsSinks a b → KeepsSinks b c → KeepsSinks a c
KeepsSinks-trans a b c h k t x found =
    let (y, found', up) = h t x found in
    let (z, found'', up') = k t y found' in (z, found'', omega arith)

KeepsSinks-insert :
    (key : String) (found : SinkClass) (sinks : Classes)
    → KeepsSinks sinks (insert key (stronger found (lookup key sinks)) sinks)
KeepsSinks-insert key found sinks t c h =
    let put = lookup-insert key t (stronger found (lookup key sinks)) sinks in
    elim (Bool-cases (t == key)) [
      | inl same ↦
          let own = ap (λ k. lookup k sinks) (sym ((eq_iff t key).0 same)) ∙ h in
          (stronger found (some c), put ∙ rw (same, own) refl, stronger_old found c)
      | inr other ↦ (c, put ∙ rw other h, omega arith)
    ]

pub Later-refl : (r : Recorder) → Later r r
Later-refl r = record {
  added = [];
  calls_kept = sym (append_nil r.calls);
  sinks_kept = KeepsSinks-refl r.sinks;
  reason_kept = λ reason h. h;
}

pub Later-trans : (a b c : Recorder) → Later a b → Later b c → Later a c
Later-trans a b c h k = record {
  added = h.added ++ k.added;
  calls_kept =
      k.calls_kept ∙ ap (λ l. l ++ k.added) h.calls_kept ∙ append_assoc a.calls h.added k.added;
  sinks_kept = KeepsSinks-trans a.sinks b.sinks c.sinks h.sinks_kept k.sinks_kept;
  reason_kept = λ reason e. k.reason_kept reason (h.reason_kept reason e);
}

pub mark_listing_incomplete-Later :
    (reason : Reason) (r : Recorder) → Later r (mark_listing_incomplete reason r)
unfolding mark_listing_incomplete
mark_listing_incomplete-Later reason r = record {
  added = [];
  calls_kept = sym (append_nil r.calls);
  sinks_kept = KeepsSinks-refl r.sinks;
  reason_kept = λ old e. rw e refl;
}

module _ (py : Library) (canary : Canary) where
  union_sinks-KeepsSinks :
      (classes sinks : Classes) → KeepsSinks sinks (union_sinks py canary classes sinks)
  unfolding union_sinks
  union_sinks-KeepsSinks [] sinks = KeepsSinks-refl sinks
  union_sinks-KeepsSinks ((t, found) ∷ classes) sinks =
      let key = hide py canary t in
      let next = insert key (stronger found (lookup key sinks)) sinks in
      KeepsSinks-trans sinks next (union_sinks py canary classes next)
        (KeepsSinks-insert key found sinks) (union_sinks-KeepsSinks classes next)

  pub add_sinks-Later : (classes : Classes) (r : Recorder) → Later r (add_sinks py canary classes r)
  unfolding add_sinks
  add_sinks-Later classes r = record {
    added = [];
    calls_kept = sym (append_nil r.calls);
    sinks_kept = union_sinks-KeepsSinks classes r.sinks;
    reason_kept = λ reason h. h;
  }

  pub record_call-Later :
      (tool : String) (arguments : Value) (result : String) (injected : Bool)
      (sink : Option SinkClass) (r : Recorder)
      → Later r (record_call py canary tool arguments result injected sink r)
  unfolding record_call
  record_call-Later tool arguments result injected sink r = record {
    added = _;
    calls_kept = refl;
    sinks_kept = KeepsSinks-refl r.sinks;
    reason_kept = λ reason h. h;
  }
