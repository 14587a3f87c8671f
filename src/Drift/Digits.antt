-- ===== src/Drift/Digits.antt =====
-- Python's decimal digits, which the positional keys of drift/compare.py print and read back: an
-- f-string's number, `str.isdigit` and `int`, over the code points of a text (Unicode 15.0).
use agent_perimeter.Prelude.{
  sym, ℕ, zero, suc, ◌+◌, ◌-◌, ◌*◌, ◌/◌, ◌%◌, ◌≤◌, ◌<◌, ◌≡◌, refl, ◌∙◌, ap, Bool, true, false, ◌&&◌,
  ◌||◌, Option, none, some, List, [], ◌∷◌, ◌++◌, length, all, ltb, leb, if◌then◌else◌, arith,
  Bool-cases, inl, inr, Option-cases, contains, contains-append, nat_eq, all-append, ◌≢◌,
}

-- The first code point of each run of ten decimal digits.
abbrev pub later_zeros : List ℕ
later_zeros =
    0x660 ∷ 0x6f0 ∷ 0x7c0 ∷ 0x966 ∷ 0x9e6 ∷ 0xa66 ∷ 0xae6 ∷ 0xb66 ∷ 0xbe6 ∷ 0xc66 ∷ 0xce6 ∷ 0xd66
    ∷ 0xde6 ∷ 0xe50 ∷ 0xed0 ∷ 0xf20 ∷ 0x1040 ∷ 0x1090 ∷ 0x17e0 ∷ 0x1810 ∷ 0x1946 ∷ 0x19d0 ∷ 0x1a80
    ∷ 0x1a90 ∷ 0x1b50 ∷ 0x1bb0 ∷ 0x1c40 ∷ 0x1c50 ∷ 0xa620 ∷ 0xa8d0 ∷ 0xa900 ∷ 0xa9d0 ∷ 0xa9f0
    ∷ 0xaa50 ∷ 0xabf0 ∷ 0xff10 ∷ 0x104a0 ∷ 0x10d30 ∷ 0x11066 ∷ 0x110f0 ∷ 0x11136 ∷ 0x111d0 ∷ 0x112f0
    ∷ 0x11450 ∷ 0x114d0 ∷ 0x11650 ∷ 0x116c0 ∷ 0x11730 ∷ 0x118e0 ∷ 0x11950 ∷ 0x11c50 ∷ 0x11d50
    ∷ 0x11da0 ∷ 0x11f50 ∷ 0x16a60 ∷ 0x16ac0 ∷ 0x16b50 ∷ 0x1d7ce ∷ 0x1d7d8 ∷ 0x1d7e2 ∷ 0x1d7ec
    ∷ 0x1d7f6 ∷ 0x1e140 ∷ 0x1e2f0 ∷ 0x1e4f0 ∷ 0x1e950 ∷ 0x1fbf0 ∷ []

abbrev pub decimal_zeros : List ℕ
decimal_zeros = 0x30 ∷ later_zeros

-- The runs of digits that are no decimal digits, such as superscripts.
abbrev pub other_digits : List (ℕ × ℕ)
other_digits =
    (0xb2, 0xb3)
    ∷ (0xb9, 0xb9)
    ∷ (0x1369, 0x1371)
    ∷ (0x19da, 0x19da)
    ∷ (0x2070, 0x2070)
    ∷ (0x2074, 0x2079)
    ∷ (0x2080, 0x2089)
    ∷ (0x2460, 0x2468)
    ∷ (0x2474, 0x247c)
    ∷ (0x2488, 0x2490)
    ∷ (0x24ea, 0x24ea)
    ∷ (0x24f5, 0x24fd)
    ∷ (0x24ff, 0x24ff)
    ∷ (0x2776, 0x277e)
    ∷ (0x2780, 0x2788)
    ∷ (0x278a, 0x2792)
    ∷ (0x10a40, 0x10a43)
    ∷ (0x10e60, 0x10e68)
    ∷ (0x11052, 0x1105a)
    ∷ (0x1f100, 0x1f10a)
    ∷ []

abbrev pub value_in : List ℕ → ℕ → Option ℕ
value_in [] c = none
value_in (z ∷ zs) c = if leb z c && ltb c (z + 10) then some (c - z) else value_in zs c

-- The value of a decimal digit.
unfoldable pub decimal_value : ℕ → Option ℕ
decimal_value c = value_in decimal_zeros c

abbrev pub in_runs : List (ℕ × ℕ) → ℕ → Bool
in_runs [] c = false
in_runs ((a, b) ∷ runs) c = (leb a c && leb c b) || in_runs runs c

-- `str.isdigit` of one character
unfoldable pub is_digit : ℕ → Bool
is_digit c = elim (decimal_value c) [ none ↦ in_runs other_digits c | some _ ↦ true ]

-- `str.isdigit`, which is false of the empty text
unfoldable pub is_digits : List ℕ → Bool
is_digits [] = false
is_digits (c ∷ cs) = all is_digit (c ∷ cs)

-- The most digits that `int` reads.
abbrev pub max_int_digits : ℕ
max_int_digits = 4300

unfoldable pub read_digits : ℕ → List ℕ → Option ℕ
read_digits acc [] = some acc
read_digits acc (c ∷ cs) = elim (decimal_value c) [
  | none ↦ none
  | some d ↦ read_digits (acc * 10 + d) cs
]

-- `int` of a text for which `isdigit` holds; `none` where it raises `ValueError`
unfoldable pub int_of : List ℕ → Option ℕ
int_of cs = if ltb max_int_digits (length cs) then none else read_digits 0 cs

-- The fuel is one more than the number, which has fewer digits.
unfoldable pub print_digits : ℕ → ℕ → List ℕ
print_digits zero n = []
print_digits (suc fuel) n =
    let front = print_digits fuel (n / 10) in
    if ltb n 10 then (48 + n) ∷ [] else front ++ (48 + n % 10) ∷ []

-- `f"{n}"`
unfoldable pub decimal : ℕ → List ℕ
decimal n = print_digits (suc n) n

value_in-head :
    (z : ℕ) (zs : List ℕ) (c : ℕ) → z ≤ c → c < z + 10 → value_in (z ∷ zs) c ≡ some (c - z)
value_in-head z zs c low high = ground arith

pub decimal_value_ascii : (d : ℕ) → d < 10 → decimal_value (48 + d) ≡ some d
unfolding decimal_value
decimal_value_ascii d h =
    value_in-head 0x30 later_zeros (48 + d) (omega arith) (omega arith) ∙ ap some (omega arith)

is_digit_ascii : (d : ℕ) → d < 10 → is_digit (48 + d) ≡ true
unfolding is_digit
is_digit_ascii d h = rw (decimal_value_ascii d h, is_digit)

-- One more digit at the end.
abbrev shift : Option ℕ → ℕ → Option ℕ
shift none d = none
shift (some v) d = some (v * 10 + d)

read_digits-snoc :
    (acc d : ℕ) (cs : List ℕ)
    → d < 10
    → read_digits acc (cs ++ (48 + d) ∷ []) ≡ shift (read_digits acc cs) d
unfolding read_digits
read_digits-snoc acc d [] h = rw (decimal_value_ascii d h, read_digits)
read_digits-snoc acc d (c ∷ cs) h = elim (Option-cases (decimal_value c)) [
  | inl no_digit ↦ rw (no_digit, read_digits)
  | inr (v, e) ↦ rw (e, read_digits) (read_digits-snoc (acc * 10 + v) d cs h)
]

read_digits-one : (d : ℕ) → d < 10 → read_digits 0 ((48 + d) ∷ []) ≡ some d
unfolding read_digits
read_digits-one d h = rw (decimal_value_ascii d h, read_digits) (ap some (omega arith))

read_digits-print_digits : (fuel n : ℕ) → n < fuel → read_digits 0 (print_digits fuel n) ≡ some n
unfolding print_digits
read_digits-print_digits zero n h = elim h [ ]
read_digits-print_digits (suc fuel) n h = elim (Bool-cases (ltb n 10)) [
  | inl small ↦ rw (small, print_digits) (read_digits-one n (ground arith))
  | inr large ↦
      rw (large, print_digits)
        (read_digits-snoc 0 (n % 10) (print_digits fuel (n / 10)) (omega arith)
          ∙ ap (λ o. shift o (n % 10)) (read_digits-print_digits fuel (n / 10) (ground arith))
          ∙ ap some (omega arith))
]

-- A number that `int` may read at all is read back as it was printed.
pub int_of-decimal : (n : ℕ) → length (decimal n) ≤ max_int_digits → int_of (decimal n) ≡ some n
unfolding int_of decimal
int_of-decimal n h = ground (arith, read_digits-print_digits (suc n) n (omega arith), h)

print_digits-digits : (fuel n : ℕ) → all is_digit (print_digits fuel n) ≡ true
unfolding print_digits
print_digits-digits zero n = refl
print_digits-digits (suc fuel) n = ground (
  arith,
  is_digit_ascii n,
  is_digit_ascii (n % 10),
  print_digits-digits fuel (n / 10),
  all-append is_digit (print_digits fuel (n / 10)) ((48 + n % 10) ∷ []),
)

snoc_nonempty : (c : ℕ) (cs : List ℕ) → cs ++ c ∷ [] ≢ []
snoc_nonempty c [] = λ e. cc
snoc_nonempty c (d ∷ cs) = λ e. cc

print_digits_nonempty : (fuel n : ℕ) → print_digits (suc fuel) n ≢ []
unfolding print_digits
print_digits_nonempty fuel n = elim (Bool-cases (ltb n 10)) [
  | inl small ↦ rw (small, print_digits) (λ e. cc)
  | inr large ↦ rw (large, print_digits) (snoc_nonempty (48 + n % 10) (print_digits fuel (n / 10)))
]

is_digits_of : (cs : List ℕ) → cs ≢ [] → all is_digit cs ≡ true → is_digits cs ≡ true
unfolding is_digits
is_digits_of [] full h = absurd (full refl)
is_digits_of (c ∷ cs) full h = h

pub is_digits-decimal : (n : ℕ) → is_digits (decimal n) ≡ true
unfolding is_digits decimal
is_digits-decimal n =
    is_digits_of (print_digits (suc n) n) (print_digits_nonempty n n)
      (print_digits-digits (suc n) n)

print_digits_no_hash : (fuel n : ℕ) → contains 0x23 (print_digits fuel n) ≡ false
unfolding print_digits
print_digits_no_hash zero n = refl
print_digits_no_hash (suc fuel) n = ground (
  arith,
  print_digits_no_hash fuel (n / 10),
  contains-append 0x23 (print_digits fuel (n / 10)) ((48 + n % 10) ∷ []),
)

-- The printed number has none of the character that comes before it in a key.
pub decimal_no_hash : (n : ℕ) → contains 0x23 (decimal n) ≡ false
unfolding decimal
decimal_no_hash n = print_digits_no_hash (suc n) n

pub decimal-injective : (n m : ℕ) → decimal n ≡ decimal m → n ≡ m
unfolding decimal
decimal-injective n m e =
    let same =
      sym (read_digits-print_digits (suc n) n (omega arith))
      ∙ ap (read_digits 0) e
      ∙ read_digits-print_digits (suc m) m (omega arith) in
    cc
