-- ===== src/Text/Parts.antt =====
-- `strings.HasPrefix`, `HasSuffix`, `TrimSuffix`, `Contains` and `Split` at one byte, and the parts of
-- a text that is put together.
use Prim.Native.String.{[], ◌∷◌, ◌++◌, count}
use text.Mathlib.TextLemmas.{
  length-append, length-cons, nil-append, cons-append, append_inj, append_assoc,
}
use enclout.Prelude.{
  ℕ, String, Char, code, Bool, true, false, Option, none, some, List, ◌≡◌, refl, arith, ap, eqb,
  ◌||◌, ◌==◌, eq_iff, eq_refl, Bool-cases, Option-cases, sym, ◌∙◌, inl, inr, if◌then◌else◌,
}
use enclout.Text.Trim.{is_empty}
use enclout.Text.Prefix.{cut_prefix}

-- strings.HasPrefix(s, p)
unfoldable pub has_prefix : String → String → Bool
unfolding cut_prefix
has_prefix s p = elim (cut_prefix p s) [ none ↦ false | some rest ↦ true ]

abbrev cons_to : Char → Option String → Option String
cons_to c none = none
cons_to c (some s) = some (c ∷ s)

-- What stands before the suffix `p` of `s`, if it has this suffix.
unfoldable pub cut_suffix : String → String → Option String
cut_suffix p [] = if is_empty p then some [] else none
cut_suffix p (c ∷ s) =
    let shorter = cons_to c (cut_suffix p s) in if (c ∷ s) == p then some [] else shorter

-- strings.HasSuffix(s, p)
unfoldable pub has_suffix : String → String → Bool
unfolding cut_suffix
has_suffix s p = elim (cut_suffix p s) [ none ↦ false | some rest ↦ true ]

-- strings.TrimSuffix(s, p)
unfoldable pub trim_suffix : String → String → String
unfolding cut_suffix
trim_suffix s p = elim (cut_suffix p s) [ none ↦ s | some rest ↦ rest ]

-- strings.Contains(s, c), where `c` is the text of one character, by its code
unfoldable pub contains : String → ℕ → Bool
contains [] c = false
contains (d ∷ s) c = eqb (code d) c || contains s c

-- strings.SplitN(s, c, 2), or `none` if `s` does not contain the character
unfoldable pub split_once : String → ℕ → Option (String × String)
split_once [] c = none
split_once (d ∷ s) c =
    let later = split_once s c in
    if eqb (code d) c
    then some ([], s)
    else elim later [ none ↦ none | some (before, after) ↦ some (d ∷ before, after) ]

abbrev prepend : Char → List String → List String
prepend d List.[] = List.[]
prepend d (List.◌∷◌ part parts) = List.◌∷◌ (d ∷ part) parts

-- strings.Split(s, c)
unfoldable pub split : String → ℕ → List String
split [] c = List.◌∷◌ [] List.[]
split (d ∷ s) c =
    let rest = split s c in if eqb (code d) c then List.◌∷◌ [] rest else prepend d rest

pub cut_prefix-append : (p s : String) → cut_prefix p (p ++ s) ≡ some s
unfolding cut_prefix
cut_prefix-append [] s = rw (nil-append s)
cut_prefix-append (c ∷ p) s = rw (cons-append c p s) (ground (arith, cut_prefix-append p s))

longer-ne : (c : Char) (s p : String) → (c ∷ (s ++ p) == p) ≡ false
longer-ne c s p = elim (Bool-cases (c ∷ (s ++ p) == p)) [
  | inr other ↦ other
  | inl same ↦ absurd (
      omega (
        arith,
        ap count ((eq_iff (c ∷ (s ++ p)) p).0 same),
        length-cons c (s ++ p),
        length-append s p,
      ))
]

cut_suffix_self : (p : String) → cut_suffix p p ≡ some []
unfolding cut_suffix
cut_suffix_self [] = refl
cut_suffix_self (c ∷ p) = rw (eq_refl (c ∷ p))

pub cut_suffix-append : (p s : String) → cut_suffix p (s ++ p) ≡ some s
unfolding cut_suffix
cut_suffix-append p [] = rw (nil-append p) (cut_suffix_self p)
cut_suffix-append p (c ∷ s) =
    rw (cons-append c s p) (rw (longer-ne c s p) (rw (cut_suffix-append p s)))

-- A text is split at the first occurrence.
pub split_once-append :
    (p s : String) (d : Char) (c : ℕ)
    → contains p c ≡ false
    → code d ≡ c
    → split_once (p ++ (d ∷ s)) c ≡ some (p, s)
unfolding split_once contains
split_once-append [] s d c absent same = rw (nil-append (d ∷ s)) (ground arith)
split_once-append (e ∷ p) s d c absent same =
    rw (cons-append e p (d ∷ s)) (ground (arith, split_once-append p s d c))

cut_suffix_sound : (p s t : String) → cut_suffix p s ≡ some t → s ≡ t ++ p
unfolding cut_suffix
cut_suffix_sound [] [] t h = let e : t ≡ [] = ground arith in rw (e, nil-append [])
cut_suffix_sound (d ∷ p) [] t h = absurd (ground arith)
cut_suffix_sound p (c ∷ s) t h = elim (Bool-cases ((c ∷ s) == p)) [
  | inl whole ↦ let e : t ≡ [] = ground arith in rw (e, nil-append p) ((eq_iff (c ∷ s) p).0 whole)
  | inr part ↦ elim (Option-cases (cut_suffix p s)) [
    | inl absent ↦ absurd (ground arith)
    | inr (u, found) ↦
        let e : t ≡ c ∷ u = ground arith in
        rw (e, cons-append c u p) (ap (λ x. c ∷ x) (cut_suffix_sound p s u found))
  ]
]

same_last : (x y : String) (a b : Char) → x ++ (a ∷ []) ≡ y ++ (b ∷ []) → (a ∷ []) ≡ (b ∷ [])
same_last x y a b h =
    (append_inj {s₁ = x} {s₂ = y} h (
      omega (
        arith,
        ap count h,
        length-append x (a ∷ []),
        length-append y (b ∷ []),
        length-cons a [],
        length-cons b [],
      ))).1

-- A text that ends in one character does not have a suffix that ends in another.
pub has_suffix-other :
    (x p : String) (a b : Char)
    → ((a ∷ []) == (b ∷ [])) ≡ false
    → has_suffix (x ++ (a ∷ [])) (p ++ (b ∷ [])) ≡ false
unfolding has_suffix
has_suffix-other x p a b other = elim (Option-cases (cut_suffix (p ++ (b ∷ [])) (x ++ (a ∷ [])))) [
  | inl absent ↦ rw (absent, has_suffix)
  | inr (t, found) ↦
      let whole = cut_suffix_sound (p ++ (b ∷ [])) (x ++ (a ∷ [])) t found in
      let last = same_last x (t ++ p) a b (whole ∙ sym (append_assoc t p (b ∷ []))) in
      absurd (ground (arith, eq_iff (a ∷ []) (b ∷ [])))
]

-- A text is split before a separator that it does not contain, and not at all without one.
pub split-append :
    (p s : String) (d : Char) (c : ℕ)
    → contains p c ≡ false
    → code d ≡ c
    → split (p ++ (d ∷ s)) c ≡ List.◌∷◌ p (split s c)
unfolding split contains
split-append [] s d c absent same = rw (nil-append (d ∷ s)) (ground arith)
split-append (e ∷ p) s d c absent same =
    rw (cons-append e p (d ∷ s)) (ground (arith, split-append p s d c))

pub split_whole : (p : String) (c : ℕ) → contains p c ≡ false → split p c ≡ List.◌∷◌ p List.[]
unfolding split contains
split_whole [] c absent = refl
split_whole (e ∷ p) c absent = ground (arith, split_whole p c)

-- What is split lies before and behind the first occurrence.
pub split_once_sound :
    (s p rest : String) (c : ℕ)
    → split_once s c ≡ some (p, rest)
    → (d : Char) × (code d ≡ c) × (s ≡ p ++ (d ∷ rest)) × (contains p c ≡ false)
unfolding split_once contains
split_once_sound [] p rest c h = absurd (ground arith)
split_once_sound (e ∷ s) p rest c h = elim (Bool-cases (eqb (code e) c)) [
  | inl here ↦
      let e1 : p ≡ [] = ground arith in
      let e2 : rest ≡ s = ground arith in
      (e, ground arith, rw (e1, e2, nil-append (e ∷ s)) refl, rw e1 refl)
  | inr further ↦ elim (Option-cases (split_once s c)) [
    | inl absent ↦ absurd (ground arith)
    | inr ((before, after), found) ↦
        let (d, same, parts, absent) = split_once_sound s before after c found in
        let e1 : p ≡ e ∷ before = ground arith in
        let e2 : rest ≡ after = ground arith in
        (
          d,
          same,
          rw (e1, e2, cons-append e before (d ∷ after)) (ap (λ t. e ∷ t) parts),
          rw e1 (ground arith),
        )
  ]
]
