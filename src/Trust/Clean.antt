-- ===== src/Trust/Clean.antt =====
-- The maps that a keyset source holds: identifiers and keys are trimmed and not empty, and no
-- identifier comes twice. A copy of such a map has the same keys.
use enclout.Prelude.{
  String, false, Option, none, some, List, [], ◌∷◌, ◌≡◌, ◌≢◌, subst, arith, ◌==◌, eq_iff, refl,
  Bool-cases, inl, inr,
}
use enclout.GoMap.{GoMap, lookup, insert}
use enclout.GoMap.Laws.{lookup-insert}
use enclout.Text.Trim.{trim_space, trim_space_idempotent}
use enclout.Verify.Types.{Answer-cases, ok}
use enclout.Trust.{
  SigningKeyInfo, SigningKeyset, copy_into, copy_trusted_key_map, add_keys, trusted_map_from_keyset,
  with_active,
}

abbrev pub IsSolid : String → Type 0
IsSolid s = (trim_space s ≡ s) × (s ≢ "")

abbrev pub IsClean : GoMap String → Type 0
IsClean [] = Unit
IsClean ((kid, key) ∷ m) = IsSolid kid × IsSolid key × (lookup kid m ≡ none) × IsClean m

insert-IsClean :
    (kid key : String) (m : GoMap String)
    → IsSolid kid
    → IsSolid key
    → IsClean m
    → IsClean (insert kid key m)
unfolding insert
insert-IsClean kid key [] i k c = (i, k, unfold lookup in refl, tt)
insert-IsClean kid key ((j, held) ∷ m) i k (cj, ch, fresh, cm) = elim (Bool-cases (j == kid)) [
  | inl same ↦ rw same (cj, k, fresh, cm)
  | inr other ↦ rw other (
    cj,
    ch,
    ground (arith, lookup-insert kid j key m, eq_iff kid j, eq_iff j kid),
    insert-IsClean kid key m i k cm,
  )
]

pub trim_space-IsSolid : (s : String) → (trim_space s == "") ≡ false → IsSolid (trim_space s)
trim_space-IsSolid s h = (trim_space_idempotent s, ground (arith, eq_iff (trim_space s) ""))

pub copy_into-IsClean : (in_ out : GoMap String) → IsClean out → IsClean (copy_into in_ out)
unfolding copy_into
copy_into-IsClean [] out c = c
copy_into-IsClean ((kid, key) ∷ in_) out c = elim (Bool-cases (trim_space kid == "")) [
  | inl empty ↦ rw empty (copy_into-IsClean in_ out c)
  | inr solid ↦ elim (Bool-cases (trim_space key == "")) [
    | inl empty ↦ rw (solid, empty) (copy_into-IsClean in_ out c)
    | inr full ↦
        rw (solid, full)
          (copy_into-IsClean in_ (insert (trim_space kid) (trim_space key) out) (
            insert-IsClean (trim_space kid) (trim_space key) out (trim_space-IsSolid kid solid)
              (trim_space-IsSolid key full) c))
  ]
]

abbrev or_else : Option String → Option String → Option String
or_else none b = b
or_else (some a) b = some a

lookup-copy_into :
    (j : String) (m out : GoMap String)
    → IsClean m
    → lookup j (copy_into m out) ≡ or_else (lookup j m) (lookup j out)
unfolding copy_into lookup
lookup-copy_into j [] out c = refl
lookup-copy_into j ((kid, key) ∷ m) out (ck, cv, fresh, cm) = ground (
  arith,
  eq_iff kid "",
  eq_iff key "",
  eq_iff kid j,
  lookup-insert kid j key out,
  lookup-copy_into j m (insert kid key out) cm,
)

pub lookup-copy_trusted_key_map :
    (j : String) (m : GoMap String) → IsClean m → lookup j (copy_trusted_key_map m) ≡ lookup j m
lookup-copy_trusted_key_map j m c =
    let copied = lookup-copy_into j m [] c in unfold lookup in ground arith

add_keys-IsClean :
    (keys : List SigningKeyInfo) (out m : GoMap String)
    → IsClean out
    → add_keys keys out ≡ ok m
    → IsClean m
unfolding add_keys
add_keys-IsClean [] out m c h = subst IsClean (ground arith) c
add_keys-IsClean (key ∷ keys) out m c h = elim (Bool-cases (trim_space key.kid == "")) [
  | inl empty ↦ absurd (ground arith)
  | inr solid ↦ elim (Bool-cases (trim_space key.public_key_b64 == "")) [
    | inl empty ↦ absurd (ground arith)
    | inr full ↦
        add_keys-IsClean keys (insert (trim_space key.kid) (trim_space key.public_key_b64) out) m
          (insert-IsClean (trim_space key.kid) (trim_space key.public_key_b64) out
            (trim_space-IsSolid key.kid solid) (trim_space-IsSolid key.public_key_b64 full) c)
          (ground arith)
  ]
]

added_of_accepted :
    (active : String) (keys : List SigningKeyInfo) (m : GoMap String)
    → trusted_map_from_keyset (record { active_kid = active; keys = keys }) ≡ ok m
    → add_keys keys [] ≡ ok m
unfolding trusted_map_from_keyset with_active
added_of_accepted active [] m h = absurd (ground arith)
added_of_accepted active (key ∷ keys) m h = elim (Answer-cases (add_keys (key ∷ keys) [])) [
  | inr (e, failed) ↦ absurd (ground arith)
  | inl (out, added) ↦ ground arith
]

pub trusted_map-IsClean :
    (keyset : SigningKeyset) (m : GoMap String) → trusted_map_from_keyset keyset ≡ ok m → IsClean m
trusted_map-IsClean keyset m h =
    add_keys-IsClean keyset.keys [] m tt (added_of_accepted keyset.active_kid keyset.keys m h)

insert-ne-nil : (kid key : String) (m : GoMap String) → insert kid key m ≢ []
unfolding insert
insert-ne-nil kid key [] h = ground arith
insert-ne-nil kid key ((j, held) ∷ m) h = ground arith

add_keys-ne-nil :
    (keys : List SigningKeyInfo) (out m : GoMap String)
    → out ≢ []
    → add_keys keys out ≡ ok m
    → m ≢ []
unfolding add_keys
add_keys-ne-nil [] out m filled h = ground arith
add_keys-ne-nil (key ∷ keys) out m filled h =
    add_keys-ne-nil keys (insert (trim_space key.kid) (trim_space key.public_key_b64) out) m
      (insert-ne-nil (trim_space key.kid) (trim_space key.public_key_b64) out) (ground arith)

accepted-ne-nil :
    (active : String) (keys : List SigningKeyInfo) (m : GoMap String)
    → trusted_map_from_keyset (record { active_kid = active; keys = keys }) ≡ ok m
    → m ≢ []
unfolding trusted_map_from_keyset
accepted-ne-nil active [] m h = absurd (ground arith)
accepted-ne-nil active (key ∷ keys) m h =
    let added = added_of_accepted active (key ∷ keys) m h in
    add_keys-ne-nil keys (insert (trim_space key.kid) (trim_space key.public_key_b64) []) m
      (insert-ne-nil (trim_space key.kid) (trim_space key.public_key_b64) [])
      (unfold add_keys in ground arith)

pub trusted_map-ne-nil :
    (keyset : SigningKeyset) (m : GoMap String) → trusted_map_from_keyset keyset ≡ ok m → m ≢ []
trusted_map-ne-nil keyset m h = accepted-ne-nil keyset.active_kid keyset.keys m h
