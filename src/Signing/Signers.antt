-- ===== src/Signing/Signers.antt =====
-- What the signers of a set are, and the keyset that they make.
use enclout.Prelude.{
  String, true, false, none, some, [], ◌∷◌, ◌≡◌, ◌≢◌, inl, inr, refl, sym, subst, arith, ◌==◌,
  eq_iff, length, All, Bool-cases, Option-cases,
}
use enclout.GoMap.{GoMap, lookup, insert}
use enclout.GoMap.Laws.{lookup-insert}
use enclout.Text.Trim.{trim_space}
use enclout.Verify.Types.{Answer-cases, ok, Bytes, Crypto}
use enclout.Trust.Clean.{IsSolid, trim_space-IsSolid}
use enclout.Trust.Keys.{IsUsable}
use enclout.Signing.{
  BundlePayload, Ed25519Signer, Signatures, new_ed25519_signer, add_signers, key_infos,
}
use enclout.Signing.Sorted.{Agrees, HasKid}

-- The documented behaviour of base64, Ed25519 and `json.Marshal` that the two programs rely on.
pub record SignatureLaws (crypto : Crypto) (sig : Signatures) : Type 0 where
  pub decodes : (b : Bytes) → crypto.decode_base64 (sig.encode_base64 b) ≡ some b
  pub trimmed : (b : Bytes) → trim_space (sig.encode_base64 b) ≡ sig.encode_base64 b
  pub encodes_empty : (b : Bytes) → sig.encode_base64 b ≡ "" → b ≡ []
  pub public_size : (seed : Bytes) → length seed ≡ 32 → length (sig.public_of_seed seed) ≡ 32
  pub signature_size : (seed raw : Bytes) → length seed ≡ 32 → length (sig.sign seed raw) ≡ 64
  pub verifies :
      (seed raw : Bytes)
      → length seed ≡ 32
      → crypto.ed25519_verify (sig.public_of_seed seed) raw (sig.sign seed raw) ≡ true
  pub marshals : (payload : BundlePayload) (raw : Bytes) → sig.marshal payload ≡ some raw → raw ≢ []

pub ed25519_trimmed : trim_space "ed25519" ≡ "ed25519"
unfolding trim_space
ed25519_trimmed = refl

module _ (crypto : Crypto) (sig : Signatures) (laws : SignatureLaws crypto sig) where
  -- What a signer of a set is.
  pub record IsSigner (kid : String) (s : Ed25519Signer) : Type 0 where
    pub solid : IsSolid kid
    pub named : s.kid ≡ kid
    pub seeded : length s.private_key ≡ 32
    pub derived : s.public_key ≡ sig.public_of_seed s.private_key

  abbrev pub HasSigners : GoMap Ed25519Signer → Type 0
  HasSigners [] = Unit
  HasSigners ((kid, s) ∷ m) = IsSigner kid s × (lookup kid m ≡ none) × HasSigners m

  insert-HasSigners :
      (kid : String) (s : Ed25519Signer) (m : GoMap Ed25519Signer)
      → IsSigner kid s
      → HasSigners m
      → HasSigners (insert kid s m)
  unfolding insert
  insert-HasSigners kid s [] g h = (g, unfold lookup in refl, tt)
  insert-HasSigners kid s ((j, held) ∷ m) g (gj, fresh, h) = elim (Bool-cases (j == kid)) [
    | inl same ↦ rw same (subst (λ k. IsSigner k s) (sym ((eq_iff j kid).0 same)) g, fresh, h)
    | inr other ↦ rw other (
      gj,
      ground (arith, lookup-insert kid j s m, eq_iff kid j, eq_iff j kid),
      insert-HasSigners kid s m g h,
    )
  ]

  new_ed25519_signer-IsSigner :
      (seed_b64 kid : String) (s : Ed25519Signer)
      → IsSolid kid
      → new_ed25519_signer sig seed_b64 kid ≡ ok s
      → IsSigner kid s
  unfolding new_ed25519_signer
  new_ed25519_signer-IsSigner seed_b64 kid s solid h =
      elim (Option-cases (sig.decode_base64 seed_b64)) [
        | inl garbled ↦ absurd (ground arith)
        | inr (seed, decoded) ↦ record {
          solid = solid;
          named = ground (arith, solid.0, solid.1, eq_iff kid "");
          seeded = ground arith;
          derived = ground arith;
        }
      ]

  pub add_signers-HasSigners :
      (seeds : GoMap String) (m m' : GoMap Ed25519Signer)
      → HasSigners m
      → add_signers sig seeds m ≡ ok m'
      → HasSigners m'
  unfolding add_signers
  add_signers-HasSigners [] m m' g h = subst HasSigners (ground arith) g
  add_signers-HasSigners ((kid, seed_b64) ∷ seeds) m m' g h =
      elim (Bool-cases (trim_space kid == "")) [
        | inl empty ↦ absurd (ground arith)
        | inr solid ↦ elim (Answer-cases (new_ed25519_signer sig seed_b64 (trim_space kid))) [
          | inr (e, failed) ↦ absurd (ground arith)
          | inl (s, made) ↦
              add_signers-HasSigners seeds (insert (trim_space kid) s m) m'
                (insert-HasSigners (trim_space kid) s m
                  (new_ed25519_signer-IsSigner seed_b64 (trim_space kid) s
                    (trim_space-IsSolid kid solid) made)
                  g)
                (ground arith)
        ]
      ]

  pub key_infos-IsUsable : (m : GoMap Ed25519Signer) → HasSigners m → All IsUsable (key_infos sig m)
  unfolding key_infos
  key_infos-IsUsable [] g = tt
  key_infos-IsUsable ((kid, s) ∷ m) (g, fresh, rest) =
      let size = laws.public_size s.private_key g.seeded in
      (
        (
          ground (arith, g.solid.0, g.solid.1, g.named),
          ground (arith, laws.trimmed s.public_key, laws.encodes_empty s.public_key, g.derived),
          ed25519_trimmed,
        ),
        key_infos-IsUsable m rest,
      )

  key_infos-absent :
      (kid v : String) (m : GoMap Ed25519Signer)
      → HasSigners m
      → lookup kid m ≡ none
      → All (Agrees kid v) (key_infos sig m)
  unfolding key_infos lookup
  key_infos-absent kid v [] g h = tt
  key_infos-absent kid v ((j, s) ∷ m) (g, fresh, rest) h =
      let other : (j == kid) ≡ false = ground arith in
      (inl (ground (arith, g.solid.0, g.named)), key_infos-absent kid v m rest (ground arith))

  pub key_infos-found :
      (kid : String) (s : Ed25519Signer) (m : GoMap Ed25519Signer)
      → HasSigners m
      → lookup kid m ≡ some s
      → IsSigner kid s
        × All (Agrees kid (sig.encode_base64 s.public_key)) (key_infos sig m)
        × HasKid kid (key_infos sig m)
  unfolding key_infos lookup
  key_infos-found kid s [] g h = absurd (ground arith)
  key_infos-found kid s ((j, held) ∷ m) (g, fresh, rest) h = elim (Bool-cases (j == kid)) [
    | inr other ↦
        let (signer, agree, has) = key_infos-found kid s m rest (ground arith) in
        (signer, (inl (ground (arith, g.solid.0, g.named)), agree), inr has)
    | inl same ↦
        let e = (eq_iff j kid).0 same in
        let held_s : held ≡ s = ground arith in
        (
          subst (λ k. IsSigner k s) e (subst (IsSigner j) held_s g),
          (
            inr (ground (arith, laws.trimmed held.public_key)),
            key_infos-absent kid (sig.encode_base64 s.public_key) m rest
                (subst (λ k. lookup k m ≡ none) e fresh),
          ),
          inl (ground (arith, g.solid.0, g.named)),
        )
  ]
