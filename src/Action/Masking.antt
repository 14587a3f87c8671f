-- ===== src/Action/Masking.antt =====
-- What reproduction_line shows of the values of --env.
use agent_perimeter.Prelude.{
  plus, ◌≡◌, refl, ap, sym, ◌∙◌, String, Bool, true, false, List, [], ◌∷◌, ◌++◌, map, all, ◌==◌,
  string_eq, if◌then◌else◌, arith, Bool-cases, inl, inr,
}
use agent_perimeter.Action.{
  Inputs, env_args, before_env, after_env, build_argv, has_equals, key_of, masked_part, shown_part,
  masked_from, reproduction_line,
}

-- The inputs with other pairs for --env.
abbrev pub with_env : Inputs → List String → Inputs
with_env i pairs = record i { env = pairs }

abbrev after_flag : String → Bool
after_flag previous = previous == "--env"

masked_from-after_flag :
    (p q : String) (parts : List String)
    → after_flag p ≡ after_flag q
    → masked_from p parts ≡ masked_from q parts
unfolding masked_from
masked_from-after_flag p q [] h = refl
masked_from-after_flag p q (part ∷ parts) h =
    ap (λ b. (if b then masked_part part else part) ∷ masked_from part parts) h

pair_is_no_flag : (pair : String) → has_equals pair ≡ true → after_flag pair ≡ false
unfolding has_equals
pair_is_no_flag pair h = elim (Bool-cases (after_flag pair)) [
  | inl same ↦ absurd (let e = ap has_equals ((string_eq.equal_iff pair "--env").0 same) in cc)
  | inr other ↦ other
]

masked_part-key_of :
    (a b : String)
    → has_equals a ≡ true
    → has_equals b ≡ true
    → key_of a ≡ key_of b
    → masked_part a ≡ masked_part b
unfolding masked_part
masked_part-key_of a b ha hb e = rw (ha, hb) (ap (λ k. plus k "=***") e)

masked_from-env_args :
    (p q : String) (us vs rest : List String)
    → all has_equals us ≡ true
    → all has_equals vs ≡ true
    → map key_of us ≡ map key_of vs
    → after_flag p ≡ after_flag q
    → masked_from p (env_args us ++ rest) ≡ masked_from q (env_args vs ++ rest)
unfolding masked_from
masked_from-env_args p q [] [] rest ha hb e h = masked_from-after_flag p q rest h
masked_from-env_args p q [] (b ∷ vs) rest ha hb e h = absurd (cc)
masked_from-env_args p q (a ∷ us) [] rest ha hb e h = absurd (cc)
masked_from-env_args p q (a ∷ us) (b ∷ vs) rest ha hb e h =
    let rest_same =
      masked_from-env_args a b us vs rest (ground (arith, ha)) (ground (arith, hb)) (cc)
        (pair_is_no_flag a (ground (arith, ha)) ∙ sym (pair_is_no_flag b (ground (arith, hb)))) in
    ap
      (λ f.
        (if f then masked_part "--env" else "--env")
        ∷ masked_part a
        ∷ masked_from a (env_args us ++ rest))
      h
    ∙ ap (λ m. shown_part q "--env" ∷ m ∷ masked_from a (env_args us ++ rest))
        (masked_part-key_of a b (ground (arith, ha)) (ground (arith, hb)) (cc))
    ∙ ap (λ m. shown_part q "--env" ∷ masked_part b ∷ m) rest_same

masked_from-append :
    (p : String) (front us vs rest : List String)
    → all has_equals us ≡ true
    → all has_equals vs ≡ true
    → map key_of us ≡ map key_of vs
    → masked_from p (front ++ env_args us ++ rest) ≡ masked_from p (front ++ env_args vs ++ rest)
unfolding masked_from
masked_from-append p [] us vs rest ha hb e = masked_from-env_args p p us vs rest ha hb e refl
masked_from-append p (part ∷ front) us vs rest ha hb e =
    ap (λ m. shown_part p part ∷ m) (masked_from-append part front us vs rest ha hb e)

-- The line that is printed tells nothing of the values that are passed by --env: two pieces of input
-- that differ only in them, with the same keys in the same order, give the same line, however the
-- parts are joined. Each pair is of the form KEY=VALUE, as read_inputs demands.
pub reproduction_line-with_env :
    (join : List String → String) (i : Inputs) (pairs : List String) (first_run : Bool)
    → all has_equals i.env ≡ true
    → all has_equals pairs ≡ true
    → map key_of i.env ≡ map key_of pairs
    → reproduction_line join (build_argv i first_run)
      ≡ reproduction_line join (build_argv (with_env i pairs) first_run)
unfolding reproduction_line build_argv
reproduction_line-with_env join i pairs first_run ha hb e =
    ap join (masked_from-append "" (before_env i) i.env pairs (after_env i first_run) ha hb e)
