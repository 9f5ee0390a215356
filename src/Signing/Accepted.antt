-- ===== src/Signing/Accepted.antt =====
-- What the control plane signs, the agent accepts.
use enclout.Prelude.{
  String, none, some, [], ◌∷◌, ◌≡◌, ◌≢◌, ◌∙◌, inl, inr, subst, arith, Option-cases,
}
use enclout.GoMap.{GoMap, lookup}
use enclout.Text.Trim.{trim_space}
use enclout.Verify.Types.{Answer-cases, ok, Bytes, Crypto}
use enclout.Verify.Signature.{verify_signed_bundle_with_keyset, IsSigned, keyset_iff}
use enclout.Trust.{trusted_map_from_keyset}
use enclout.Trust.Keys.{IsUsable, IsAcceptable, last_key, trusted_map_iff}
use enclout.Signing.{
  BundlePayload, SignedBundle, Ed25519Signer, SignerSet, Signatures, or_default_kid, add_signers,
  set_of, new_signer_set_from_seed_map, sign_bundle, key_infos, sort_by_kid, keyset,
}
use enclout.Signing.Sorted.{Agrees, HasKid, last_key_agreed, sort_by_kid-All, HasKid-sort_by_kid}
use enclout.Signing.Signers.{
  SignatureLaws, ed25519_trimmed, IsSigner, HasSigners, add_signers-HasSigners, key_infos-IsUsable,
  key_infos-found,
}

module _ (crypto : Crypto) (sig : Signatures) (laws : SignatureLaws crypto sig) where
  -- A set of signers that has its active one.
  record IsSignerSet (set : SignerSet) : Type 0 where
    active : Ed25519Signer
    held : lookup set.active_kid set.signers ≡ some active
    signers : HasSigners crypto sig laws set.signers

  set_of-found :
      (active_kid : String) (m : GoMap Ed25519Signer) (set : SignerSet)
      → HasSigners crypto sig laws m
      → set_of sig active_kid m ≡ ok set
      → IsSignerSet set
  set_of-found active_kid m set g h = elim (Option-cases (lookup active_kid m)) [
    | inl missing ↦ absurd (ground arith)
    | inr (s, found) ↦
        let same : record { active_kid = active_kid; signers = m } ≡ set = ground arith in
        subst IsSignerSet same (record { active = s; held = found; signers = g })
  ]

  new_signer_set-IsSignerSet :
      (seeds : GoMap String) (active_kid : String) (set : SignerSet)
      → new_signer_set_from_seed_map sig seeds active_kid ≡ ok set
      → IsSignerSet set
  unfolding new_signer_set_from_seed_map
  new_signer_set-IsSignerSet [] active_kid set h = absurd (ground arith)
  new_signer_set-IsSignerSet (seed ∷ seeds) active_kid set h =
      elim (Answer-cases (add_signers sig (seed ∷ seeds) [])) [
        | inr (e, failed) ↦ absurd (ground arith)
        | inl (m, added) ↦
            set_of-found (or_default_kid (trim_space active_kid)) m set
              (add_signers-HasSigners crypto sig laws (seed ∷ seeds) [] m tt added) (rw added at h)
      ]

  -- The keys of the keyset of a set, and the one that is trusted under the active identifier.
  keyset-IsAcceptable :
      (set : SignerSet) (g : IsSignerSet set)
      → IsAcceptable (keyset sig set)
        × (last_key set.active_kid (keyset sig set).keys none
            ≡ some (sig.encode_base64 g.active.public_key))
  unfolding keyset
  keyset-IsAcceptable set g =
      let (signer, agree, has) =
        key_infos-found crypto sig laws set.active_kid g.active set.signers g.signers g.held in
      let usable = key_infos-IsUsable crypto sig laws set.signers g.signers in
      let last =
        last_key_agreed set.active_kid (sig.encode_base64 g.active.public_key)
          (sort_by_kid (key_infos sig set.signers)) none
          (sort_by_kid-All (Agrees set.active_kid (sig.encode_base64 g.active.public_key))
            (key_infos sig set.signers) agree)
          (inr (HasKid-sort_by_kid set.active_kid (key_infos sig set.signers) has)) in
      (
        record {
          filled = λ (e : sort_by_kid (key_infos sig set.signers) ≡ []).
              subst (HasKid set.active_kid) e
                (HasKid-sort_by_kid set.active_kid (key_infos sig set.signers) has);
          usable = sort_by_kid-All IsUsable (key_infos sig set.signers) usable;
          active = inr (sig.encode_base64 g.active.public_key, rw signer.solid.0 last);
        },
        last,
      )

  abbrev made_by : Ed25519Signer → BundlePayload → Bytes → SignedBundle
  made_by s payload raw = record {
    payload = payload;
    signature = sig.encode_base64 (sig.sign s.private_key raw);
    alg = "ed25519";
    kid = s.kid;
  }

  made_by-IsSigned :
      (kid : String) (s : Ed25519Signer) (raw : Bytes) (keys : GoMap String)
      → IsSigner crypto sig laws kid s
      → raw ≢ []
      → lookup kid keys ≡ some (sig.encode_base64 s.public_key)
      → IsSigned crypto raw (sig.encode_base64 (sig.sign s.private_key raw)) "ed25519" s.kid keys
  made_by-IsSigned kid s raw keys g filled trusted =
      let size = laws.public_size s.private_key g.seeded in
      let valid = laws.verifies s.private_key raw g.seeded in
      record {
        key_b64 = sig.encode_base64 s.public_key;
        key = s.public_key;
        raw_signature = sig.sign s.private_key raw;
        named = ground (arith, g.named, g.solid.0, g.solid.1);
        trusted = ground (arith, g.named, g.solid.0);
        algorithm = ed25519_trimmed;
        filled = filled;
        key_bytes = ground (arith, laws.trimmed s.public_key, laws.decodes s.public_key);
        key_size = ground (arith, g.derived);
        signature_bytes = ground (
          arith,
          laws.trimmed (sig.sign s.private_key raw),
          laws.decodes (sig.sign s.private_key raw),
        );
        signature_length = laws.signature_size s.private_key raw g.seeded;
        valid = ground (arith, g.derived);
      }

  -- A set of signers that is made of any seeds signs every payload that can be encoded; the agent
  -- accepts its keyset, and under these keys the signature of the encoded payload.
  pub sign_bundle-accepted :
      (seeds : GoMap String) (active_kid : String) (set : SignerSet) (payload : BundlePayload)
      (raw : Bytes)
      → new_signer_set_from_seed_map sig seeds active_kid ≡ ok set
      → sig.marshal payload ≡ some raw
      → (signed : SignedBundle) × (keys : GoMap String) × (sign_bundle sig set payload ≡ ok signed)
        × (trusted_map_from_keyset (keyset sig set) ≡ ok keys)
        × (verify_signed_bundle_with_keyset crypto raw signed.signature signed.alg signed.kid keys
            ≡ none)
  unfolding sign_bundle
  sign_bundle-accepted seeds active_kid set payload raw made encoded =
      let g = new_signer_set-IsSignerSet seeds active_kid set made in
      let (acceptable, last) = keyset-IsAcceptable set g in
      let (iff, trusts) = trusted_map_iff (keyset sig set) in
      let (keys, accepted) = iff.1 acceptable in
      let found = trusts keys accepted in
      let signer =
        (key_infos-found crypto sig laws set.active_kid g.active set.signers g.signers g.held).0 in
      let signed : SignedBundle = made_by g.active payload raw in
      (
        made_by g.active payload raw,
        keys,
        (let held = g.held in ground arith),
        accepted,
        (keyset_iff crypto raw signed.signature signed.alg signed.kid keys).1 (
            made_by-IsSigned set.active_kid g.active raw keys signer
              (laws.marshals payload raw encoded) (found set.active_kid ∙ last)),
      )
