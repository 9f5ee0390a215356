-- ===== src/Text/Trim.antt =====
-- `strings.TrimSpace`, over code points: Unicode's white space.
use Prim.Native.String.{[], ◌∷◌, ◌++◌}
use text.Mathlib.TextLemmas.{nil-append, cons-append}
use enclout.Prelude.{
  String, Char, code, Bool, true, false, ◌&&◌, ◌||◌, ◌≡◌, ◌≢◌, refl, arith, leb, eqb, Bool-cases,
  inl, inr, subst, if◌then◌else◌,
}

-- unicode.IsSpace
unfoldable pub is_space : Char → Bool
is_space ch =
    let c = code ch in
    (leb 9 c && leb c 13)
    || eqb c 32
    || eqb c 0x85
    || eqb c 0xa0
    || eqb c 0x1680
    || (leb 0x2000 c && leb c 0x200a)
    || eqb c 0x2028
    || eqb c 0x2029
    || eqb c 0x202f
    || eqb c 0x205f
    || eqb c 0x3000

abbrev pub is_empty : String → Bool
is_empty [] = true
is_empty (c ∷ s) = false

unfoldable pub trim_left : String → String
trim_left [] = []
trim_left (c ∷ s) = if is_space c then trim_left s else c ∷ s

unfoldable pub trim_right : String → String
trim_right [] = []
trim_right (c ∷ s) = let rest = trim_right s in if is_empty rest && is_space c then [] else c ∷ rest

unfoldable pub trim_space : String → String
unfolding is_space trim_left trim_right
trim_space s = trim_right (trim_left s)

-- The text does not begin with a space.
abbrev IsFlush : String → Type 0
IsFlush [] = Unit
IsFlush (c ∷ s) = is_space c ≡ false

trim_left-IsFlush : (s : String) → IsFlush (trim_left s)
unfolding trim_left
trim_left-IsFlush [] = tt
trim_left-IsFlush (c ∷ s) = elim (Bool-cases (is_space c)) [
  | inl space ↦ rw space (trim_left-IsFlush s)
  | inr solid ↦ rw solid solid
]

trim_right-IsFlush : (s : String) → IsFlush s → IsFlush (trim_right s)
unfolding trim_right
trim_right-IsFlush [] h = tt
trim_right-IsFlush (c ∷ s) h = elim (Bool-cases (is_empty (trim_right s))) [
  | inl last ↦ rw (last, h) h
  | inr more ↦ rw more h
]

trim_left_of_IsFlush : (s : String) → IsFlush s → trim_left s ≡ s
unfolding trim_left
trim_left_of_IsFlush [] h = refl
trim_left_of_IsFlush (c ∷ s) h = rw h

trim_right_idempotent : (s : String) → trim_right (trim_right s) ≡ trim_right s
unfolding trim_right
trim_right_idempotent [] = refl
trim_right_idempotent (c ∷ s) = ground (arith, trim_right_idempotent s)

pub trim_space_idempotent : (s : String) → trim_space (trim_space s) ≡ trim_space s
unfolding trim_space
trim_space_idempotent s =
    rw (trim_left_of_IsFlush _ (trim_right-IsFlush _ (trim_left-IsFlush s)))
      (trim_right_idempotent (trim_left s))

trim_space-IsFlush : (s : String) → IsFlush (trim_space s)
unfolding trim_space
trim_space-IsFlush s = trim_right-IsFlush (trim_left s) (trim_left-IsFlush s)

trim_right_of_trimmed : (s : String) → trim_space s ≡ s → trim_right s ≡ s
unfolding trim_space
trim_right_of_trimmed s h =
    let flush : IsFlush s = subst IsFlush h (trim_space-IsFlush s) in
    let left = trim_left_of_IsFlush s flush in cc

is_empty-append : (p s : String) → is_empty s ≡ false → is_empty (p ++ s) ≡ false
is_empty-append [] s h = rw (nil-append s) h
is_empty-append (c ∷ p) s h = rw (cons-append c p s)

trim_right-append :
    (p s : String) → trim_right s ≡ s → is_empty s ≡ false → trim_right (p ++ s) ≡ p ++ s
unfolding trim_right
trim_right-append [] s h filled = rw (nil-append s) h
trim_right-append (c ∷ p) s h filled =
    let rest = trim_right-append p s h filled in
    rw (cons-append c p s) (ground (arith, is_empty-append p s filled))

-- A text that begins with no space stays as it is before a trimmed text.
pub trim_space-append :
    (c : Char) (p s : String)
    → is_space c ≡ false
    → trim_space s ≡ s
    → is_empty s ≡ false
    → trim_space (c ∷ (p ++ s)) ≡ c ∷ (p ++ s)
unfolding trim_space trim_left
trim_space-append c p s solid trimmed filled =
    let right = trim_right-append (c ∷ p) s (trim_right_of_trimmed s trimmed) filled in
    rw solid (rw (cons-append c p s) at right)

pub is_empty_of_ne : (s : String) → s ≢ "" → is_empty s ≡ false
is_empty_of_ne [] h = absurd (h refl)
is_empty_of_ne (c ∷ s) h = refl

is_empty-trim_right :
    (c : Char) (s : String) → is_space c ≡ false → is_empty (trim_right (c ∷ s)) ≡ false
unfolding trim_right
is_empty-trim_right c s solid = elim (Bool-cases (is_empty (trim_right s))) [
  | inl last ↦ rw (last, solid)
  | inr more ↦ rw more
]

trim_left-cons : (c : Char) (s : String) → is_space c ≡ false → trim_left (c ∷ s) ≡ c ∷ s
unfolding trim_left
trim_left-cons c s solid = rw solid

trim_space-eq : (s : String) → trim_space s ≡ trim_right (trim_left s)
unfolding trim_space
trim_space-eq s = refl

-- A text that begins with no space is not trimmed to nothing.
pub trim_space-cons : (c : Char) (s : String) → is_space c ≡ false → trim_space (c ∷ s) ≢ ""
trim_space-cons c s solid h =
    let filled = is_empty-trim_right c s solid in
    let left = trim_left-cons c s solid in let split = trim_space-eq (c ∷ s) in cc

-- A trimmed text begins with no space.
pub is_space_of_trimmed : (c : Char) (s : String) → trim_space (c ∷ s) ≡ c ∷ s → is_space c ≡ false
is_space_of_trimmed c s h = subst IsFlush h (trim_space-IsFlush (c ∷ s))
