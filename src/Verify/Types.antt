-- ===== src/Verify/Types.antt =====
-- The types of services/local-agent/internal/verify/types.go, `VerificationError`, and Go's errors.
use enclout.Prelude.{ℕ, String, Bool, Option, none, some, List, ◌≡◌, ◌⊎◌, inl, inr, refl, arith}

-- An error value: a `VerificationError` with its code and its cause, one that `fmt.Errorf` wraps by
-- `%w` behind a text, or any other with its text.
pub data GoError : Type 0 where
  verification_error : String → GoError → GoError
  wrapped : String → GoError → GoError
  plain : String → GoError

-- errors.As(err, &verr), and then verr.Code
abbrev pub code_of : GoError → Option String
code_of (verification_error c cause) = some c
code_of (wrapped text cause) = code_of cause
code_of (plain text) = none

-- A Go result `(v, err)` whose value is read only where `err` is nil.
pub data Answer {ℓ} (A : Type ℓ) : Type ℓ where
  ok : A → Answer A
  err : GoError → Answer A

infixl 5 ◌>>=◌
abbrev pub ◌>>=◌ {ℓ κ} : {A : Type ℓ} {B : Type κ} → Answer A → (A → Answer B) → Answer B
ok a >>= f = f a
err e >>= f = err e

abbrev pub Bytes : Type 0
Bytes = List ℕ

abbrev pub reason_attestation_dependency_failure : String
reason_attestation_dependency_failure = "AttestationDependencyFailure"

abbrev pub reason_bundle_invalid : String
reason_bundle_invalid = "BundleInvalid"

abbrev pub reason_quote_invalid : String
reason_quote_invalid = "QuoteInvalid"

abbrev pub reason_measurement_mismatch : String
reason_measurement_mismatch = "MeasurementMismatch"

abbrev pub reason_report_data_mismatch : String
reason_report_data_mismatch = "ReportDataMismatch"

pub record Bundle : Type 0 where
  pub connector_id : String
  pub ssh_public_key : String
  pub quote_hex : String
  pub mrtd : String
  pub rtmr0 : String
  pub rtmr1 : String
  pub rtmr2 : String
  pub rtmr3 : String
  pub report_data_expected_sha256 : String
  pub policy_version : String

pub record Decision : Type 0 where
  pub trusted : Bool
  pub reason_code : String

pub record DcapResult : Type 0 where
  pub quote_valid : Bool
  pub qe_identity_valid : Bool
  pub tcb_valid : Bool
  pub report_data : Bytes

-- The cryptography that the agent calls: SHA-256, base64 and Ed25519 (public key, message,
-- signature).
pub record Crypto : Type 0 where
  pub sha256 : String → Bytes
  pub decode_base64 : String → Option Bytes
  pub ed25519_verify : Bytes → Bytes → Bytes → Bool

pub Answer-cases {ℓ} :
    {A : Type ℓ} (r : Answer A) → ((a : A) × (r ≡ ok a)) ⊎ ((e : GoError) × (r ≡ err e))
Answer-cases (ok a) = inl (a, refl)
Answer-cases (err e) = inr (e, refl)

-- A bind that succeeds, by its two parts.
pub bind_ok {ℓ κ} :
    {A : Type ℓ} {B : Type κ} (m : Answer A) (f : A → Answer B) (b : B)
    → m >>= f ≡ ok b
    → (a : A) × (m ≡ ok a) × (f a ≡ ok b)
bind_ok (ok a) f b h = (a, refl, h)
bind_ok (err e) f b h = absurd (ground arith)

-- The value of an answer, or `a` for an error.
abbrev pub value_or {ℓ} : {A : Type ℓ} → A → Answer A → A
value_or a (ok b) = b
value_or a (err e) = a
