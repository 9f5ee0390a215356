-- ===== src/Verify/Verifier.antt =====
-- services/local-agent/internal/verify/report_data.go and verifier.go
use enclout.Prelude.{
  String, Bool, true, false, not, ◌||◌, Option, none, some, [], ◌∷◌, ◌++◌, ◌≡◌, ◌↔◌, ◌⊎◌, refl,
  arith, ℕ, zero, suc, eqb, inl, inr, Option-cases, ◌&&◌, if◌then◌else◌,
}
use enclout.Verify.Types.{
  GoError, verification_error, plain, code_of, Answer, Answer-cases, ok, err, Bytes, Bundle,
  Decision, DcapResult, Crypto, reason_attestation_dependency_failure, reason_quote_invalid,
  reason_report_data_mismatch, reason_measurement_mismatch,
}
use enclout.Verify.Policy.{StaticPolicy, check_measurements, check_measurements-code}

abbrev pub replicate : ℕ → ℕ → Bytes
replicate zero b = []
replicate (suc n) b = b ∷ replicate n b

-- bytes.Equal
unfoldable pub bytes_equal : Bytes → Bytes → Bool
bytes_equal [] [] = true
bytes_equal (a ∷ as') (b ∷ bs) = let rest = bytes_equal as' bs in eqb a b && rest
bytes_equal _ _ = false

bytes_equal_sound : (a b : Bytes) → bytes_equal a b ≡ true → a ≡ b
unfolding bytes_equal
bytes_equal_sound [] [] h = refl
bytes_equal_sound (x ∷ a) (y ∷ b) h = ground (arith, bytes_equal_sound a b)
bytes_equal_sound [] (y ∷ b) h = cc
bytes_equal_sound (x ∷ a) [] h = cc

pub bytes_equal_refl : (a : Bytes) → bytes_equal a a ≡ true
unfolding bytes_equal
bytes_equal_refl [] = refl
bytes_equal_refl (x ∷ a) = ground (arith, bytes_equal_refl a)

module _ (crypto : Crypto) where
  -- The 64 bytes of REPORT_DATA: the 32 of SHA-256, and zeros.
  unfoldable pub compute_expected_report_data : String → Bytes
  compute_expected_report_data ssh_public_key = crypto.sha256 ssh_public_key ++ replicate 32 0

  -- `StrictVerifier.Verify`; `dcap` is the verifier that it holds.
  module _ (dcap : String → Answer DcapResult) (policy : StaticPolicy) where
    abbrev checked : Bundle → DcapResult → Option GoError → Answer Decision
    checked bundle result (some e) = err e
    checked bundle result none =
        if not (bytes_equal result.report_data (compute_expected_report_data bundle.ssh_public_key))
        then err (verification_error reason_report_data_mismatch (plain "report data mismatch"))
        else ok (record { trusted = true; reason_code = "" })

    unfoldable pub verify : Bundle → Answer Decision
    unfolding compute_expected_report_data
    verify bundle = elim (dcap bundle.quote_hex) [
      | err e ↦ err (verification_error reason_attestation_dependency_failure e)
      | ok result ↦
          if not result.quote_valid || not result.qe_identity_valid || not result.tcb_valid
          then err (verification_error reason_quote_invalid (plain "strict quote checks failed"))
          else checked bundle result (check_measurements policy bundle)
    ]

    -- All that the verifier asks of a bundle.
    pub record IsAttested (bundle : Bundle) : Type 0 where
      pub result : DcapResult
      pub answered : dcap bundle.quote_hex ≡ ok result
      pub quote : result.quote_valid ≡ true
      pub qe_identity : result.qe_identity_valid ≡ true
      pub tcb : result.tcb_valid ≡ true
      pub measured : check_measurements policy bundle ≡ none
      pub bound : result.report_data ≡ compute_expected_report_data bundle.ssh_public_key

    verify_complete :
        (bundle : Bundle)
        → IsAttested bundle
        → verify bundle ≡ ok (record { trusted = true; reason_code = "" })
    unfolding verify
    verify_complete bundle a = ground (arith, a.bound, bytes_equal_refl a.result.report_data)

    verify_sound : (bundle : Bundle) (d : Decision) → verify bundle ≡ ok d → IsAttested bundle
    unfolding verify
    verify_sound bundle d h = elim (Answer-cases (dcap bundle.quote_hex)) [
      | inr (e, failed) ↦ absurd (ground arith)
      | inl (result, answered) ↦ elim (Option-cases (check_measurements policy bundle)) [
        | inr (e, mismatch) ↦ absurd (ground arith)
        | inl measured ↦ record {
          result = result;
          answered = answered;
          quote = ground arith;
          qe_identity = ground arith;
          tcb = ground arith;
          measured = measured;
          bound = ground (
            arith,
            bytes_equal_sound result.report_data
                (compute_expected_report_data bundle.ssh_public_key),
          );
        }
      ]
    ]

    -- The verifier returns a decision exactly when the DCAP service vouches for the quote, the
    -- policy accepts the measurements, and the quote's report data is the hash of the bundle's SSH
    -- key; the decision is then to trust. There is no decision not to trust.
    pub verify_iff :
        (bundle : Bundle) (d : Decision)
        → (verify bundle ≡ ok d)
          ↔ ((d ≡ record { trusted = true; reason_code = "" }) × IsAttested bundle)
    verify_iff bundle d = (
      λ h. let a = verify_sound bundle d h in let done = verify_complete bundle a in (cc, a),
      λ (e, a). let done = verify_complete bundle a in cc,
    )

    -- An error carries the code of the check that failed first.
    pub verify-code :
        (bundle : Bundle) (e : GoError)
        → verify bundle ≡ err e
        → (code_of e ≡ some reason_attestation_dependency_failure)
          ⊎ (code_of e ≡ some reason_quote_invalid)
          ⊎ (code_of e ≡ some reason_measurement_mismatch)
          ⊎ (code_of e ≡ some reason_report_data_mismatch)
    unfolding verify
    verify-code bundle e h = ground (arith, check_measurements-code policy bundle e)
