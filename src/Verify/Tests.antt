-- ===== src/Verify/Tests.antt =====
-- Runs of the checks of a bundle, and their theorems at concrete bundles.
use enclout.Prelude.{String, true, none, some, [], ◌∷◌, ◌≡◌, ◌↔◌, refl}
use enclout.GoMap.{lookup, insert}
use enclout.Text.Trim.{trim_space}
use enclout.Text.Prefix.{trim_prefix}
use enclout.Text.Hex.{decode_string, from_hex_char}
use enclout.Verify.Toy.{toy, measured, one_key}
use enclout.Verify.Types.{
  GoError, plain, verification_error, Answer, ok, err, Decision, DcapResult,
  reason_measurement_mismatch,
}
use enclout.Verify.Policy.{StaticPolicy, new_static_policy, check_measurements, add_all, forbids}
use enclout.Verify.Signature.{
  verify_signed_bundle_with_keyset, IsSigned, keyset_iff, bundle_invalid,
}
use enclout.Verify.Verifier.{
  bytes_equal, compute_expected_report_data, verify, IsAttested, verify_iff,
}
use enclout.Verify.Dcap.{parse_report_data_hex, dcap_verify, flat, nested}

abbrev only_m : StaticPolicy
only_m = new_static_policy ("m" ∷ []) []

abbrev only_n : StaticPolicy
only_n = new_static_policy ("n" ∷ []) []

abbrev vouching : String → Answer DcapResult
vouching quote = ok (record {
  quote_valid = true;
  qe_identity_valid = true;
  tcb_valid = true;
  report_data = compute_expected_report_data toy "ssh-ed25519 AAAA";
})

abbrev mismatch : GoError
mismatch = verification_error reason_measurement_mismatch (plain "mrtd not allowed")

signed_run : verify_signed_bundle_with_keyset toy (1 ∷ []) "SIG\n" "ed25519" " v1" one_key ≡ none
unfolding verify_signed_bundle_with_keyset lookup trim_space bytes_equal
signed_run = refl

unknown_run :
    verify_signed_bundle_with_keyset toy (1 ∷ []) "SIG" "ed25519" "v2" one_key
    ≡ some (bundle_invalid "unknown bundle kid")
unfolding verify_signed_bundle_with_keyset lookup trim_space
unknown_run = refl

attested_run :
    verify toy vouching only_m measured ≡ ok (record { trusted = true; reason_code = "" })
unfolding verify bytes_equal compute_expected_report_data check_measurements new_static_policy
    add_all forbids lookup insert
attested_run = refl

-- A body whose nested result has the report data, with a prefix and in capital letters.
nested_run :
    dcap_verify
      (λ quote. ok (
        200,
        some (
            nested
              (record {
                quote_valid = true;
                qe_identity_valid = true;
                tcb_valid = true;
                report_data_hex = "";
                report_data = "";
              })
              (flat (record {
                quote_valid = true;
                qe_identity_valid = true;
                tcb_valid = true;
                report_data_hex = " ";
                report_data = "0x0AfF";
              }))),
      ))
      "04"
    ≡ err (plain "report_data length must be 32 or 64 bytes")
unfolding dcap_verify parse_report_data_hex trim_space trim_prefix decode_string from_hex_char
nested_run = refl

keyset_iff_example :
    (verify_signed_bundle_with_keyset toy (1 ∷ []) "SIG" "ed25519" "v1" one_key ≡ none)
    ↔ IsSigned toy (1 ∷ []) "SIG" "ed25519" "v1" one_key
keyset_iff_example = keyset_iff toy (1 ∷ []) "SIG" "ed25519" "v1" one_key

verify_iff_example :
    (verify toy vouching only_m measured ≡ ok (record { trusted = true; reason_code = "" })) ↔ (
      (◌≡◌ {A = Decision}
        (record { trusted = true; reason_code = "" })
        (record { trusted = true; reason_code = "" }))
      × IsAttested toy vouching only_m measured)
verify_iff_example =
    verify_iff toy vouching only_m measured (record { trusted = true; reason_code = "" })

abbrev sixty_four_digits : String
sixty_four_digits = "0x0101010101010101010101010101010101010101010101010101010101010101"
