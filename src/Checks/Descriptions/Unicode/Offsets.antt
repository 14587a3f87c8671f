-- ===== src/Checks/Descriptions/Unicode/Offsets.antt =====
-- Which anomalies `scan_text` reports.
use mathlib.Core.List.{Memᴰ}
use mathlib.Core.List.Memᴰ
use agent_perimeter.Prelude.{
  ◌≤◌, true, Bool-cases, ◌⊎◌, ℕ, zero, suc, ◌+◌, String, ◌≡◌, sym, ap, ◌∙◌, subst, ◌↔◌, inl, inr,
  some, List, [], ◌∷◌, get_elem?, arith, Option-cases,
}
use agent_perimeter.Model.Scope.{codes}
use agent_perimeter.Checks.Descriptions.Unicode.{
  bidi_overrides, zero_width, tag_characters, Anomaly, anomaly_category, scan_from, scan_text,
}

-- The classes of hidden characters, by their ranges in Unicode.
abbrev pub IsBidi : ℕ → Type 0
IsBidi c = ((0x202A ≤ c) × (c ≤ 0x202E)) ⊎ ((0x2066 ≤ c) × (c ≤ 0x2069))

abbrev pub IsZeroWidth : ℕ → Type 0
IsZeroWidth c = (c ≡ 0x200B) ⊎ ((c ≡ 0x200C) ⊎ ((c ≡ 0x200D) ⊎ (c ≡ 0xFEFF)))

abbrev pub IsTag : ℕ → Type 0
IsTag c = (0xE0000 ≤ c) × (c ≤ 0xE007F)

abbrev pub IsHidden : String → ℕ → Type 0
IsHidden category c =
    ((category ≡ "bidi_override") × IsBidi c)
    ⊎ (((category ≡ "zero_width") × IsZeroWidth c) ⊎ ((category ≡ "tag_character") × IsTag c))

bidi-anomaly : (c : ℕ) → IsBidi c → anomaly_category c ≡ some "bidi_override"
unfolding anomaly_category
bidi-anomaly c h = ground arith

zero_width-anomaly : (c : ℕ) → IsZeroWidth c → anomaly_category c ≡ some "zero_width"
unfolding anomaly_category
zero_width-anomaly c (inl e) = rw e (λ i. some "zero_width")
zero_width-anomaly c (inr (inl e)) = rw e (λ i. some "zero_width")
zero_width-anomaly c (inr (inr (inl e))) = rw e (λ i. some "zero_width")
zero_width-anomaly c (inr (inr (inr e))) = rw e (λ i. some "zero_width")

tag-anomaly : (c : ℕ) → IsTag c → anomaly_category c ≡ some "tag_character"
unfolding anomaly_category
tag-anomaly c h = ground arith

bidi_overrides-IsBidi : (c : ℕ) → bidi_overrides c ≡ true → IsBidi c
bidi_overrides-IsBidi c h = ground arith

zero_width-IsZeroWidth : (c : ℕ) → zero_width c ≡ true → IsZeroWidth c
zero_width-IsZeroWidth c h = ground arith

tag_characters-IsTag : (c : ℕ) → tag_characters c ≡ true → IsTag c
tag_characters-IsTag c h = ground arith

anomaly_category_iff :
    (category : String) (c : ℕ) → (anomaly_category c ≡ some category) ↔ IsHidden category c
unfolding anomaly_category
anomaly_category_iff category c = (there, back)
  where
    there : anomaly_category c ≡ some category → IsHidden category c
    there h = elim (Bool-cases (bidi_overrides c)) [
      | inl bidi ↦ inl (cc (rw (bidi, anomaly_category) at h), bidi_overrides-IsBidi c bidi)
      | inr a ↦ elim (Bool-cases (zero_width c)) [
        | inl wide ↦
            inr (inl (cc (rw (a, wide, anomaly_category) at h), zero_width-IsZeroWidth c wide))
        | inr b ↦ elim (Bool-cases (tag_characters c)) [
          | inl tag ↦
              inr (inr (cc (rw (a, b, tag, anomaly_category) at h), tag_characters-IsTag c tag))
          | inr d ↦ absurd (cc (rw (a, b, d, anomaly_category) at h))
        ]
      ]
    ]

    back : IsHidden category c → anomaly_category c ≡ some category
    back (inl (e, h)) = rw e (bidi-anomaly c h)
    back (inr (inl (e, h))) = rw e (zero_width-anomaly c h)
    back (inr (inr (e, h))) = rw e (tag-anomaly c h)

-- The anomaly of the character at this offset.
abbrev pub IsAt : List ℕ → String → ℕ → ℕ → Type 0
IsAt cs category i c = (get_elem? cs i ≡ some c) × (anomaly_category c ≡ some category)

Mem-scan :
    (k : ℕ) (cs : List ℕ) (category : String) (i c : ℕ)
    → IsAt cs category i c
    → Memᴰ (category, k + i, c) (scan_from k cs)
unfolding scan_from
Mem-scan k [] category i c (at, named) = cc
Mem-scan k (d ∷ cs) category zero c (at, named) =
    let same : d ≡ c = ground arith in
    let here : k + 0 ≡ k = omega arith in
    rw (ap anomaly_category same ∙ named, scan_from)
      (Memᴰ.head (λ i. (category, here i, sym same i)))
Mem-scan k (d ∷ cs) category (suc i) c (at, named) =
    let later = Mem-scan (k + 1) cs category i c (at, named) in
    let moved : Memᴰ (category, k + suc i, c) (scan_from (k + 1) cs) =
      subst (λ (n : ℕ). Memᴰ (category, n, c) (scan_from (k + 1) cs)) (omega arith) later in
    elim (Option-cases (anomaly_category d)) [
      | inl fine ↦ rw (fine, scan_from) moved
      | inr (other, bad) ↦ rw (bad, scan_from) (Memᴰ.tail moved)
    ]

scan-Mem :
    (k : ℕ) (cs : List ℕ) (category : String) (j c : ℕ)
    → Memᴰ (category, j, c) (scan_from k cs)
    → (i : ℕ) × (j ≡ k + i) × IsAt cs category i c
unfolding scan_from
scan-Mem k [] category j c m = absurd (Memᴰ.not-nil m)
scan-Mem k (d ∷ cs) category j c m = elim (Option-cases (anomaly_category d)) [
  | inl fine ↦ shift (scan-Mem (k + 1) cs category j c (rw (fine, scan_from) at m))
  | inr (other, bad) ↦ elim (Memᴰ.cases_cons (rw (bad, scan_from) at m)) [
    | inl e ↦ let (place, at) = first e bad in (zero, place, at)
    | inr later ↦ shift (scan-Mem (k + 1) cs category j c later)
  ]
]
  where
    shift :
        (i : ℕ) × (j ≡ k + 1 + i) × IsAt cs category i c
        → (i : ℕ) × (j ≡ k + i) × IsAt (d ∷ cs) category i c
    shift (i, e, at) = (suc i, omega arith, at)

    first :
        {other : String}
        → ◌≡◌ {A = Anomaly} (category, j, c) (other, k, d)
        → anomaly_category d ≡ some other
        → (j ≡ k + 0) × IsAt (d ∷ cs) category 0 c
    first e bad =
        let place : j ≡ k = ap (λ (x : Anomaly). x.1) e in
        let which : c ≡ d = ap (λ (x : Anomaly). x.2) e in
        (
          omega arith,
          (
            ap some (sym which),
            ap anomaly_category which ∙ bad ∙ ap some (sym (ap (λ (x : Anomaly). x.0) e)),
          ),
        )

-- `scan_text` reports a category with an offset and a code point exactly when the character at this
-- offset is this code point, and it is a bidi override, a zero-width character or a tag character
-- by its range in Unicode, with the category of that range.
pub scan_text_iff :
    (text category : String) (i c : ℕ)
    → Memᴰ (category, i, c) (scan_text text)
      ↔ ((get_elem? (codes text) i ≡ some c) × IsHidden category c)
unfolding scan_text
scan_text_iff text category i c = (
  λ m.
      let (j, e, found) = scan-Mem 0 (codes text) category i c m in
      let same : j ≡ i = omega arith in
      (
        subst (λ (n : ℕ). get_elem? (codes text) n ≡ some c) same found.0,
        (anomaly_category_iff category c).0 found.1,
      ),
  λ (at, hidden).
      subst (λ (n : ℕ). Memᴰ (category, n, c) (scan_from 0 (codes text))) (omega arith)
        (Mem-scan 0 (codes text) category i c (at, (anomaly_category_iff category c).1 hidden)),
)
