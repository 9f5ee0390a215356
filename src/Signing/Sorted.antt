-- ===== src/Signing/Sorted.antt =====
-- The keys of a keyset, whatever the order that sorting gives them.
use Prim.Native.String.{compare}
use text.Mathlib.Text.{is_lt}
use enclout.Prelude.{
  String, true, false, Option, some, List, [], ◌∷◌, ◌≡◌, ◌⊎◌, inl, inr, arith, ◌==◌, All,
  Bool-cases,
}
use enclout.Text.Trim.{trim_space}
use enclout.Trust.{SigningKeyInfo}
use enclout.Trust.Keys.{last_key}
use enclout.Signing.{insert_by_kid, sort_by_kid}

-- One entry of a keyset agrees with the key `v` under `kid`, or is for another identifier.
abbrev pub Agrees : String → String → SigningKeyInfo → Type 0
Agrees kid v e = ((trim_space e.kid == kid) ≡ false) ⊎ (trim_space e.public_key_b64 ≡ v)

abbrev pub HasKid : String → List SigningKeyInfo → Type 0
HasKid kid [] = ⊥
HasKid kid (e ∷ l) = ((trim_space e.kid == kid) ≡ true) ⊎ HasKid kid l

pub last_key_agreed :
    (kid v : String) (l : List SigningKeyInfo) (before : Option String)
    → All (Agrees kid v) l
    → (before ≡ some v) ⊎ HasKid kid l
    → last_key kid l before ≡ some v
unfolding last_key
last_key_agreed kid v [] before a h = elim h [ inl e ↦ e | inr absent ↦ absurd absent ]
last_key_agreed kid v (e ∷ l) before (a, rest) h = elim (Bool-cases (trim_space e.kid == kid)) [
  | inl here ↦ rw here (
      last_key_agreed kid v l (some (trim_space e.public_key_b64)) rest
        (inl (elim a [ inl other ↦ cc | inr same ↦ rw same ])))
  | inr other ↦ rw other (
      last_key_agreed kid v l before rest (elim h [
        | inl e' ↦ inl e'
        | inr (inl here) ↦ absurd (ground arith)
        | inr (inr later) ↦ inr later
      ]))
]

insert_by_kid-All :
    (P : SigningKeyInfo → Type 0) (key : SigningKeyInfo) (l : List SigningKeyInfo)
    → P key
    → All P l
    → All P (insert_by_kid key l)
unfolding insert_by_kid
insert_by_kid-All P key [] p a = (p, tt)
insert_by_kid-All P key (k ∷ l) p (pk, a) = elim (Bool-cases (is_lt (compare k.kid key.kid))) [
  | inl later ↦ rw later (pk, insert_by_kid-All P key l p a)
  | inr first ↦ rw first (p, (pk, a))
]

pub sort_by_kid-All :
    (P : SigningKeyInfo → Type 0) (l : List SigningKeyInfo) → All P l → All P (sort_by_kid l)
unfolding sort_by_kid
sort_by_kid-All P [] a = tt
sort_by_kid-All P (key ∷ l) (p, a) =
    insert_by_kid-All P key (sort_by_kid l) p (sort_by_kid-All P l a)

HasKid-insert_by_kid :
    (kid : String) (key : SigningKeyInfo) (l : List SigningKeyInfo)
    → HasKid kid (key ∷ l)
    → HasKid kid (insert_by_kid key l)
unfolding insert_by_kid
HasKid-insert_by_kid kid key [] h = h
HasKid-insert_by_kid kid key (k ∷ l) h = elim (Bool-cases (is_lt (compare k.kid key.kid))) [
  | inr first ↦ rw first h
  | inl later ↦ rw later (elim h [
    | inl here ↦ inr (HasKid-insert_by_kid kid key l (inl here))
    | inr (inl front) ↦ inl front
    | inr (inr rest) ↦ inr (HasKid-insert_by_kid kid key l (inr rest))
  ])
]

pub HasKid-sort_by_kid :
    (kid : String) (l : List SigningKeyInfo) → HasKid kid l → HasKid kid (sort_by_kid l)
unfolding sort_by_kid
HasKid-sort_by_kid kid [] h = h
HasKid-sort_by_kid kid (key ∷ l) h =
    HasKid-insert_by_kid kid key (sort_by_kid l)
      (elim h [ inl here ↦ inl here | inr rest ↦ inr (HasKid-sort_by_kid kid l rest) ])
