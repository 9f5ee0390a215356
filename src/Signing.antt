-- ===== src/Signing.antt =====
-- services/control-plane/internal/signing/attestation_bundle.go: the control plane's signing keys.
--
-- The private key that Go makes of a seed is the seed here. `PublicKeyInfo` and `SigningKeyset` have
-- the JSON form of the agent's `SigningKeyInfo` and `SigningKeyset`, which stand for both.
mod Tests
pub mod Sorted
pub mod Signers
pub mod Accepted
use Prim.Native.String.{compare}
use text.Mathlib.Text.{is_lt}
use enclout.Prelude.{
  ℕ, String, Bool, true, false, not, Option, none, some, List, [], ◌∷◌, ◌==◌, eqb, length,
  if◌then◌else◌,
}
use enclout.GoMap.{GoMap, lookup, insert}
use enclout.Text.Trim.{trim_space}
use enclout.Requests.Model.{Time}
use enclout.Verify.Types.{GoError, plain, wrapped, Answer, ok, err, ◌>>=◌, Bytes}
use enclout.Trust.{SigningKeyInfo, SigningKeyset}

pub record BundlePayload : Type 0 where
  pub request_id : String
  pub connector_id : String
  pub ssh_public_key : String
  pub quote_hex : String
  pub event_log : String
  pub mrtd : String
  pub rtmr0 : String
  pub rtmr1 : String
  pub rtmr2 : String
  pub rtmr3 : String
  pub report_data_expected_sha256 : String
  pub policy_version : String
  pub issued_at : Time
  pub expires_at : Time
  pub nonce : String

pub record SignedBundle : Type 0 where
  pub payload : BundlePayload
  pub signature : String
  pub alg : String
  pub kid : String

pub record Ed25519Signer : Type 0 where
  pub private_key : Bytes
  pub public_key : Bytes
  pub kid : String

pub record SignerSet : Type 0 where
  pub active_kid : String
  pub signers : GoMap Ed25519Signer

-- What the signer calls: base64, Ed25519 on the seed of a key, and `json.Marshal` of a payload.
pub record Signatures : Type 0 where
  pub encode_base64 : Bytes → String
  pub decode_base64 : String → Option Bytes
  pub public_of_seed : Bytes → Bytes
  pub sign : Bytes → Bytes → Bytes
  pub marshal : BundlePayload → Option Bytes

abbrev pub default_signing_kid : String
default_signing_kid = "v1"

-- ed25519.SeedSize
abbrev pub seed_size : ℕ
seed_size = 32

abbrev pub or_default_kid : String → String
or_default_kid kid = if kid == "" then default_signing_kid else kid

abbrev pub is_empty_map {ℓ} : {V : Type ℓ} → GoMap V → Bool
is_empty_map [] = true
is_empty_map (e ∷ m) = false

module _ (sig : Signatures) where
  abbrev pub signer_of : Bytes → String → Answer Ed25519Signer
  signer_of seed kid =
      if not (eqb (length seed) seed_size)
      then err (plain "signing seed must be 32 bytes")
      else ok (record {
        private_key = seed;
        public_key = sig.public_of_seed seed;
        kid = or_default_kid (trim_space kid);
      })

  -- NewEd25519SignerWithKIDFromSeedB64
  unfoldable pub new_ed25519_signer : String → String → Answer Ed25519Signer
  new_ed25519_signer seed_b64 kid = elim (sig.decode_base64 seed_b64) [
    | none ↦ err (plain "decode signing seed")
    | some seed ↦ signer_of seed kid
  ]

  -- The loop over `seedByKID`.
  unfoldable pub add_signers : GoMap String → GoMap Ed25519Signer → Answer (GoMap Ed25519Signer)
  unfolding new_ed25519_signer
  add_signers [] signers = ok signers
  add_signers ((kid, seed_b64) ∷ seeds) signers =
      if trim_space kid == ""
      then err (plain "signing key kid cannot be empty")
      else elim (new_ed25519_signer seed_b64 (trim_space kid)) [
        | err e ↦ err (wrapped "invalid signing key" e)
        | ok signer ↦ add_signers seeds (insert (trim_space kid) signer signers)
      ]

  abbrev pub set_of : String → GoMap Ed25519Signer → Answer SignerSet
  set_of active_kid signers = elim (lookup active_kid signers) [
    | none ↦ err (plain "active signing kid not found")
    | some signer ↦ ok (record { active_kid = active_kid; signers = signers })
  ]

  unfoldable pub new_signer_set_from_seed_map : GoMap String → String → Answer SignerSet
  unfolding add_signers
  new_signer_set_from_seed_map seeds active_kid =
      if is_empty_map seeds
      then err (plain "no signing keys configured")
      else add_signers seeds [] >>= set_of (or_default_kid (trim_space active_kid))

  -- Ed25519Signer.SignBundle
  unfoldable pub sign_by : Ed25519Signer → BundlePayload → Answer SignedBundle
  sign_by s payload = elim (sig.marshal payload) [
    | none ↦ err (plain "json: unsupported value")
    | some raw ↦ ok (record {
      payload = payload;
      signature = sig.encode_base64 (sig.sign s.private_key raw);
      alg = "ed25519";
      kid = s.kid;
    })
  ]

  -- SignerSet.SignBundle; on a set without its active signer the code reads through a nil pointer.
  unfoldable pub sign_bundle : SignerSet → BundlePayload → Answer SignedBundle
  unfolding sign_by
  sign_bundle s payload = elim (lookup s.active_kid s.signers) [
    | none ↦ err (plain "nil pointer dereference")
    | some signer ↦ sign_by signer payload
  ]

  abbrev pub key_info : Ed25519Signer → SigningKeyInfo
  key_info signer = record {
    kid = signer.kid;
    alg = "ed25519";
    public_key_b64 = sig.encode_base64 signer.public_key;
  }

  unfoldable pub key_infos : GoMap Ed25519Signer → List SigningKeyInfo
  key_infos [] = []
  key_infos ((kid, signer) ∷ m) = key_info signer ∷ key_infos m

-- sort.Slice by `KID`
unfoldable pub insert_by_kid : SigningKeyInfo → List SigningKeyInfo → List SigningKeyInfo
insert_by_kid key [] = key ∷ []
insert_by_kid key (k ∷ keys) =
    let later = k ∷ insert_by_kid key keys in
    if is_lt (compare k.kid key.kid) then later else key ∷ k ∷ keys

unfoldable pub sort_by_kid : List SigningKeyInfo → List SigningKeyInfo
unfolding insert_by_kid
sort_by_kid [] = []
sort_by_kid (key ∷ keys) = insert_by_kid key (sort_by_kid keys)

-- SignerSet.Keyset
unfoldable pub keyset : Signatures → SignerSet → SigningKeyset
unfolding key_infos sort_by_kid
keyset sig s = record { active_kid = s.active_kid; keys = sort_by_kid (key_infos sig s.signers) }
