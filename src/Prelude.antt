-- ===== src/Prelude.antt =====
-- Names that every module of the library shares: the libraries', passed on, the Boolean tests on
-- the native numbers, and the integers that `time.Duration` stands for.
use Prim.Native.Nat.{compare, Ordering}
use mathlib.Core.List.{Memᴰ}
pub use Prim.Native.Nat.{ℕ, zero, suc, ◌+◌, ◌-◌, ◌*◌, ◌/◌, ◌%◌, ◌^◌, ◌≤◌, ◌<◌}
pub use Prim.Native.Char.{Char, code}
pub use Prim.Native.String.{String}
pub use mathlib.Core.Path.{◌≡◌, refl, sym, ap, ◌∙◌, ◌≡⟨◌⟩◌, ◌∎, subst}
pub use mathlib.Core.Logic.{◌≢◌, ◌↔◌, ◌⊎◌, inl, inr}
pub use mathlib.Core.Bool.{Bool, true, false, not, ◌&&◌, ◌||◌}
pub use mathlib.Core.Option.{Option, none, some}
pub use mathlib.Core.List.{List, [], ◌∷◌, ◌++◌, map}
pub use native.Mathlib.Omega.{arith}
pub use text.Mathlib.Text.{◌==◌}
pub use text.Mathlib.TextEquality.{eq_iff}
pub use text.Mathlib.TextPositions.{eq_refl}

abbrev pub ltb : ℕ → ℕ → Bool
ltb a b = elim (compare a b) [ Ordering.lt ↦ true | _ ↦ false ]

abbrev pub leb : ℕ → ℕ → Bool
leb a b = elim (compare a b) [ Ordering.gt ↦ false | _ ↦ true ]

abbrev pub eqb : ℕ → ℕ → Bool
eqb a b = elim (compare a b) [ Ordering.eq ↦ true | _ ↦ false ]

infix 1 if◌then◌else◌
abbrev pub if◌then◌else◌ {ℓ} : {A : Type ℓ} → Bool → A → A → A
if true then x else y = x
if false then x else y = y

pub Bool-cases : (b : Bool) → (b ≡ true) ⊎ (b ≡ false)
Bool-cases true = inl refl
Bool-cases false = inr refl

-- `time.Duration`, a signed count of nanoseconds: `negsuc n` is -(n + 1).
pub data ℤ : Type 0 where
  pos : ℕ → ℤ
  negsuc : ℕ → ℤ

-- The test `d <= 0` of the sources, negated.
abbrev pub is_positive : ℤ → Bool
is_positive (pos zero) = false
is_positive (pos (suc n)) = true
is_positive (negsuc n) = false

module _ {ℓ} {A : Type ℓ} where
  pub Option-cases : (o : Option A) → (o ≡ none) ⊎ ((a : A) × (o ≡ some a))
  Option-cases none = inl refl
  Option-cases (some a) = inr (a, refl)

  abbrev pub length : List A → ℕ
  length [] = 0
  length (x ∷ xs) = suc (length xs)

  pub length-append : (a b : List A) → length (a ++ b) ≡ length a + length b
  length-append [] b = omega arith
  length-append (x ∷ a) b = omega (arith, length-append a b)

  abbrev pub All {κ} : (A → Type κ) → List A → Type κ
  All P [] = Unit
  All P (x ∷ xs) = P x × All P xs

pub Memᴰ-cases {ℓ} : {A : Type ℓ} {a b : A} {l : List A} → Memᴰ a (b ∷ l) → (a ≡ b) ⊎ Memᴰ a l
Memᴰ-cases (Memᴰ.head e) = inl e
Memᴰ-cases (Memᴰ.tail h) = inr h

pub Memᴰ-append_cases {ℓ} :
    {A : Type ℓ} {a : A} (l m : List A) → Memᴰ a (l ++ m) → Memᴰ a l ⊎ Memᴰ a m
Memᴰ-append_cases [] m h = inr h
Memᴰ-append_cases (b ∷ l) m h = elim (Memᴰ-cases h) [
  | inl same ↦ inl (Memᴰ.head same)
  | inr later ↦ elim (Memᴰ-append_cases l m later) [
    | inl left ↦ inl (Memᴰ.tail left)
    | inr right ↦ inr right
  ]
]

module _ {ℓ} {A : Type ℓ} {a : A} where
  pub Memᴰ-append_left : (l m : List A) → Memᴰ a l → Memᴰ a (l ++ m)
  Memᴰ-append_left [] m h = elim h [ ]
  Memᴰ-append_left (b ∷ l) m (Memᴰ.head e) = Memᴰ.head e
  Memᴰ-append_left (b ∷ l) m (Memᴰ.tail h) = Memᴰ.tail (Memᴰ-append_left l m h)

  pub Memᴰ-append_right : (l m : List A) → Memᴰ a m → Memᴰ a (l ++ m)
  Memᴰ-append_right [] m h = h
  Memᴰ-append_right (b ∷ l) m h = Memᴰ.tail (Memᴰ-append_right l m h)

pub append_assoc {ℓ} : {A : Type ℓ} (a b c : List A) → (a ++ b) ++ c ≡ a ++ (b ++ c)
append_assoc [] b c = refl
append_assoc (x ∷ a) b c = ap (λ l. x ∷ l) (append_assoc a b c)

pub map_append {ℓ κ} :
    {A : Type ℓ} {B : Type κ} (f : A → B) (a b : List A) → map f (a ++ b) ≡ map f a ++ map f b
map_append f [] b = refl
map_append f (x ∷ a) b = ap (λ l. f x ∷ l) (map_append f a b)
