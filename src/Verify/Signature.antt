-- ===== src/Verify/Signature.antt =====
-- services/local-agent/internal/verify/control_plane_signature.go
use enclout.Prelude.{
  ℕ, String, Bool, true, false, not, Option, none, some, [], ◌∷◌, ◌≡◌, ◌≢◌, ◌↔◌, arith, eqb, length,
  ◌==◌, eq_iff, Option-cases, inl, inr, if◌then◌else◌,
}
use enclout.GoMap.{GoMap, lookup}
use enclout.Text.Trim.{trim_space}
use enclout.Verify.Types.{
  GoError, verification_error, plain, code_of, Answer, ok, err, Bytes, reason_bundle_invalid,
  Crypto,
}

-- VerificationError{Code: ReasonBundleInvalid, Err: fmt.Errorf(text)}
abbrev pub bundle_invalid : String → GoError
bundle_invalid text = verification_error reason_bundle_invalid (plain text)

-- ed25519.PublicKeySize, ed25519.SignatureSize
abbrev pub public_key_size : ℕ
public_key_size = 32

abbrev pub signature_size : ℕ
signature_size = 64

abbrev pub is_nil : Bytes → Bool
is_nil [] = true
is_nil (b ∷ bs) = false

module _ (crypto : Crypto) where
  unfoldable pub decode_public_key : String → Answer Bytes
  decode_public_key public_key_b64 = elim (crypto.decode_base64 (trim_space public_key_b64)) [
    | none ↦ err (plain "decode control-plane public key")
    | some raw ↦
        if eqb (length raw) public_key_size
        then ok raw
        else err (plain "control-plane public key must be 32 bytes")
  ]

  unfoldable pub decode_signature : String → Answer Bytes
  decode_signature signature_b64 = elim (crypto.decode_base64 (trim_space signature_b64)) [
    | none ↦ err (plain "decode bundle signature")
    | some raw ↦
        if eqb (length raw) signature_size
        then ok raw
        else err (plain "bundle signature must be 64 bytes")
  ]

  abbrev verify_decoded : Bytes → Answer Bytes → Answer Bytes → Option GoError
  verify_decoded payload_raw (err e) signature = some (verification_error reason_bundle_invalid e)
  verify_decoded payload_raw (ok key) (err e) = some (verification_error reason_bundle_invalid e)
  verify_decoded payload_raw (ok key) (ok signature) =
      if crypto.ed25519_verify key payload_raw signature
      then none
      else some (bundle_invalid "invalid bundle signature")

  -- The error, if any.
  unfoldable pub verify_signed_bundle : Bytes → String → String → String → Option GoError
  unfolding decode_public_key decode_signature
  verify_signed_bundle payload_raw signature_b64 alg public_key_b64 =
      if not (trim_space alg == "ed25519")
      then some (bundle_invalid "unsupported bundle signature algorithm")
      else if is_nil payload_raw
      then some (bundle_invalid "missing bundle payload")
      else verify_decoded payload_raw (decode_public_key public_key_b64)
          (decode_signature signature_b64)

  unfoldable pub verify_signed_bundle_with_keyset :
      Bytes → String → String → String → GoMap String → Option GoError
  unfolding verify_signed_bundle
  verify_signed_bundle_with_keyset payload_raw signature_b64 alg kid trusted_keys =
      if trim_space kid == ""
      then some (bundle_invalid "missing bundle kid")
      else elim (lookup (trim_space kid) trusted_keys) [
        | none ↦ some (bundle_invalid "unknown bundle kid")
        | some key ↦ verify_signed_bundle payload_raw signature_b64 alg key
      ]

  -- The payload is signed by the key that is trusted under the bundle's `kid`.
  pub record IsSigned (payload : Bytes) (signature alg kid : String) (keys : GoMap String)
      : Type 0 where
    pub key_b64 : String
    pub key : Bytes
    pub raw_signature : Bytes
    pub named : trim_space kid ≢ ""
    pub trusted : lookup (trim_space kid) keys ≡ some key_b64
    pub algorithm : trim_space alg ≡ "ed25519"
    pub filled : payload ≢ []
    pub key_bytes : crypto.decode_base64 (trim_space key_b64) ≡ some key
    pub key_size : length key ≡ public_key_size
    pub signature_bytes : crypto.decode_base64 (trim_space signature) ≡ some raw_signature
    pub signature_length : length raw_signature ≡ signature_size
    pub valid : crypto.ed25519_verify key payload raw_signature ≡ true

  keyset_complete :
      (payload : Bytes) (signature alg kid : String) (keys : GoMap String)
      → IsSigned payload signature alg kid keys
      → verify_signed_bundle_with_keyset payload signature alg kid keys ≡ none
  unfolding verify_signed_bundle_with_keyset
  keyset_complete [] signature alg kid keys s = absurd (ground (arith, s.filled))
  keyset_complete (b ∷ bs) signature alg kid keys s =
      ground (arith, eq_iff (trim_space kid) "", eq_iff (trim_space alg) "ed25519")

  signed_facts :
      (payload : Bytes) (signature alg kid : String) (keys : GoMap String) (key_b64 : String)
      (key raw_signature : Bytes)
      → lookup (trim_space kid) keys ≡ some key_b64
      → crypto.decode_base64 (trim_space key_b64) ≡ some key
      → crypto.decode_base64 (trim_space signature) ≡ some raw_signature
      → verify_signed_bundle_with_keyset payload signature alg kid keys ≡ none
      → (trim_space kid ≢ "")
        × (trim_space alg ≡ "ed25519")
        × (payload ≢ [])
        × (length key ≡ public_key_size)
        × (length raw_signature ≡ signature_size)
        × (crypto.ed25519_verify key payload raw_signature ≡ true)
  unfolding verify_signed_bundle_with_keyset
  signed_facts payload signature alg kid keys key_b64 key raw_signature t d d' h = (
    ground (arith, eq_iff (trim_space kid) ""),
    ground (arith, eq_iff (trim_space alg) "ed25519"),
    ground arith,
    ground arith,
    ground arith,
    ground arith,
  )

  keyset_sound :
      (payload : Bytes) (signature alg kid : String) (keys : GoMap String)
      → verify_signed_bundle_with_keyset payload signature alg kid keys ≡ none
      → IsSigned payload signature alg kid keys
  unfolding verify_signed_bundle_with_keyset
  keyset_sound payload signature alg kid keys h =
      elim (Option-cases (lookup (trim_space kid) keys)) [
        | inl unknown ↦ absurd (ground arith)
        | inr (key_b64, trusted) ↦ elim (Option-cases (crypto.decode_base64 (trim_space key_b64))) [
          | inl garbled ↦ absurd (ground arith)
          | inr (key, decoded) ↦ elim (Option-cases (crypto.decode_base64 (trim_space signature))) [
            | inl garbled ↦ absurd (ground arith)
            | inr (raw_signature, decoded_too) ↦
                let facts =
                  signed_facts payload signature alg kid keys key_b64 key raw_signature trusted
                    decoded decoded_too h in
                record {
                  key_b64 = key_b64;
                  key = key;
                  raw_signature = raw_signature;
                  named = facts.0;
                  trusted = trusted;
                  algorithm = facts.1;
                  filled = facts.2;
                  key_bytes = decoded;
                  key_size = facts.3;
                  signature_bytes = decoded_too;
                  signature_length = facts.4;
                  valid = facts.5;
                }
          ]
        ]
      ]

  -- The bundle passes the check of its signature exactly when its `kid`, trimmed, names a trusted
  -- key, its algorithm is Ed25519, its payload is not empty, both texts decode to the lengths that
  -- Ed25519 wants, and the signature of the payload is valid under that key.
  pub keyset_iff :
      (payload : Bytes) (signature alg kid : String) (keys : GoMap String)
      → (verify_signed_bundle_with_keyset payload signature alg kid keys ≡ none)
        ↔ IsSigned payload signature alg kid keys
  keyset_iff payload signature alg kid keys =
      (keyset_sound payload signature alg kid keys, keyset_complete payload signature alg kid keys)

  -- Every refusal of a signature is `BundleInvalid`.
  pub keyset-code :
      (payload : Bytes) (signature alg kid : String) (keys : GoMap String) (e : GoError)
      → verify_signed_bundle_with_keyset payload signature alg kid keys ≡ some e
      → code_of e ≡ some reason_bundle_invalid
  unfolding verify_signed_bundle_with_keyset
  keyset-code payload signature alg kid keys e h = ground arith
