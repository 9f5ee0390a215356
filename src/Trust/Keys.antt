-- ===== src/Trust/Keys.antt =====
-- Which keysets are accepted, and which keys an accepted keyset trusts.
use enclout.Prelude.{
  String, Option, none, some, List, [], ◌∷◌, ◌≡◌, ◌≢◌, ◌⊎◌, ◌↔◌, inl, inr, refl, arith, ◌==◌,
  eq_iff, All, Option-cases, if◌then◌else◌,
}
use enclout.GoMap.{GoMap, lookup, insert}
use enclout.GoMap.Laws.{lookup-insert}
use enclout.Text.Trim.{trim_space}
use enclout.Verify.Types.{Answer-cases, ok}
use enclout.Trust.{SigningKeyInfo, SigningKeyset, add_keys, with_active, trusted_map_from_keyset}

-- An entry of a keyset that is accepted.
abbrev pub IsUsable : SigningKeyInfo → Type 0
IsUsable key =
    (trim_space key.kid ≢ "")
    × (trim_space key.public_key_b64 ≢ "")
    × (trim_space key.alg ≡ "ed25519")

-- The last key with this identifier, both trimmed, or `before`.
unfoldable pub last_key : String → List SigningKeyInfo → Option String → Option String
last_key kid [] before = before
last_key kid (key ∷ keys) before =
    last_key kid keys
      (if trim_space key.kid == kid then some (trim_space key.public_key_b64) else before)

IsUsable-cases :
    (key : SigningKeyInfo) (keys : List SigningKeyInfo) (out m : GoMap String)
    → add_keys (key ∷ keys) out ≡ ok m
    → IsUsable key
      × (add_keys keys (insert (trim_space key.kid) (trim_space key.public_key_b64) out) ≡ ok m)
unfolding add_keys
IsUsable-cases key keys out m h = (
  (
    ground (arith, eq_iff (trim_space key.kid) ""),
    ground (arith, eq_iff (trim_space key.public_key_b64) ""),
    ground (arith, eq_iff (trim_space key.alg) "ed25519"),
  ),
  ground arith,
)

add_keys_sound :
    (keys : List SigningKeyInfo) (out m : GoMap String)
    → add_keys keys out ≡ ok m
    → All IsUsable keys × ((kid : String) → lookup kid m ≡ last_key kid keys (lookup kid out))
unfolding last_key
add_keys_sound [] out m h = (tt, λ kid. unfold add_keys in ground arith)
add_keys_sound (key ∷ keys) out m h =
    let (usable, rest) = IsUsable-cases key keys out m h in
    let (others, found) =
      add_keys_sound keys (insert (trim_space key.kid) (trim_space key.public_key_b64) out) m
        rest in
    (
      (usable, others),
      λ kid. ground (
        arith,
        found kid,
        lookup-insert (trim_space key.kid) kid (trim_space key.public_key_b64) out,
      ),
    )

add_keys_complete :
    (keys : List SigningKeyInfo) (out : GoMap String)
    → All IsUsable keys
    → (m : GoMap String) × (add_keys keys out ≡ ok m)
unfolding add_keys
add_keys_complete [] out u = (out, refl)
add_keys_complete (key ∷ keys) out u =
    let (m, rest) =
      add_keys_complete keys (insert (trim_space key.kid) (trim_space key.public_key_b64) out)
        u.1 in
    (
      m,
      ground (
        arith,
        eq_iff (trim_space key.kid) "",
        eq_iff (trim_space key.public_key_b64) "",
        eq_iff (trim_space key.alg) "ed25519",
      ),
    )

-- A keyset that is accepted: it has keys, each of them usable, and the active one, if it is named,
-- among them.
pub record IsAcceptable (keyset : SigningKeyset) : Type 0 where
  pub filled : keyset.keys ≢ []
  pub usable : All IsUsable keyset.keys
  pub active :
      (trim_space keyset.active_kid ≡ "")
      ⊎ ((key : String) × (last_key (trim_space keyset.active_kid) keyset.keys none ≡ some key))

accepted_parts :
    (active : String) (keys : List SigningKeyInfo) (m : GoMap String)
    → trusted_map_from_keyset (record { active_kid = active; keys = keys }) ≡ ok m
    → (keys ≢ []) × (add_keys keys [] ≡ ok m) × (with_active (trim_space active) m ≡ ok m)
unfolding trusted_map_from_keyset with_active
accepted_parts active [] m h = absurd (ground arith)
accepted_parts active (key ∷ keys) m h = elim (Answer-cases (add_keys (key ∷ keys) [])) [
  | inr (e, failed) ↦ absurd (ground arith)
  | inl (out, added) ↦ elim (Option-cases (lookup (trim_space active) out)) [
    | inl missing ↦ (ground arith, ground arith, ground arith)
    | inr (k, found) ↦ (ground arith, ground arith, ground arith)
  ]
]

active_cases :
    (active : String) (m : GoMap String)
    → with_active active m ≡ ok m
    → (active ≡ "") ⊎ ((key : String) × (lookup active m ≡ some key))
unfolding with_active
active_cases active m h = elim (Option-cases (lookup active m)) [
  | inl missing ↦ inl (ground (arith, eq_iff active ""))
  | inr found ↦ inr found
]

-- What an accepted keyset is, and what it trusts: under each identifier the last key that has it.
pub trusted_map_sound :
    (keyset : SigningKeyset) (m : GoMap String)
    → trusted_map_from_keyset keyset ≡ ok m
    → IsAcceptable keyset × ((kid : String) → lookup kid m ≡ last_key kid keyset.keys none)
unfolding lookup
trusted_map_sound keyset m h =
    let (filled, added, active) = accepted_parts keyset.active_kid keyset.keys m h in
    let (usable, found) = add_keys_sound keyset.keys [] m added in
    (
      record {
        filled = filled;
        usable = usable;
        active = elim (active_cases (trim_space keyset.active_kid) m active) [
          | inl unnamed ↦ inl unnamed
          | inr (key, there) ↦ inr (key, ground (arith, found (trim_space keyset.active_kid)))
        ];
      },
      found,
    )

trusted_map_complete :
    (active : String) (keys : List SigningKeyInfo)
    → IsAcceptable (record { active_kid = active; keys = keys })
    → (m : GoMap String) × (trusted_map_from_keyset (record { active_kid = active; keys = keys })
        ≡ ok m)
unfolding trusted_map_from_keyset with_active lookup
trusted_map_complete active [] a = absurd (a.filled refl)
trusted_map_complete active (key ∷ keys) a =
    let (m, added) = add_keys_complete (key ∷ keys) [] a.usable in
    let found = (add_keys_sound (key ∷ keys) [] m added).1 (trim_space active) in
    (
      m,
      elim a.active [
        | inl unnamed ↦ ground (arith, eq_iff (trim_space active) "")
        | inr (k, there) ↦ ground arith
      ],
    )

-- A keyset is accepted exactly when it has keys, all of them with an identifier, a key and the
-- algorithm Ed25519, and has a key under the active identifier if that is named. Whenever it is
-- accepted, it trusts under each identifier the last key that has it, and nothing else.
pub trusted_map_iff :
    (keyset : SigningKeyset)
    → (((m : GoMap String) × (trusted_map_from_keyset keyset ≡ ok m)) ↔ IsAcceptable keyset)
      × ((m : GoMap String)
          → trusted_map_from_keyset keyset ≡ ok m
          → (kid : String) → lookup kid m ≡ last_key kid keyset.keys none)
trusted_map_iff keyset = (
  (
    λ (m, accepted). (trusted_map_sound keyset m accepted).0,
    λ a. trusted_map_complete keyset.active_kid keyset.keys a,
  ),
  λ m accepted. (trusted_map_sound keyset m accepted).1,
)
