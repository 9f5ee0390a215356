-- ===== src/Verify/Dcap.antt =====
-- services/local-agent/internal/verify/dcap_http.go
--
-- `exchange` is the service, a parameter: for the quote that is posted it gives a transport error,
-- or the status of the answer with its body, if that decodes as JSON.
use enclout.Prelude.{
  ℕ, String, Bool, not, Option, none, some, ◌++◌, ◌≡◌, arith, eqb, length, length-append, ◌==◌,
  Option-cases, inl, inr, if◌then◌else◌,
}
use enclout.Text.Trim.{trim_space}
use enclout.Text.Prefix.{trim_prefix}
use enclout.Text.Hex.{decode_string}
use enclout.Verify.Types.{plain, Answer, ok, err, ◌>>=◌, Bytes, DcapResult}
use enclout.Verify.Verifier.{replicate}

-- dcapVerifyResponse without its nested result
pub record ResponseFields : Type 0 where
  pub quote_valid : Bool
  pub qe_identity_valid : Bool
  pub tcb_valid : Bool
  pub report_data_hex : String
  pub report_data : String

-- dcapVerifyResponse
pub data DcapVerifyResponse : Type 0 where
  flat : ResponseFields → DcapVerifyResponse
  nested : ResponseFields → DcapVerifyResponse → DcapVerifyResponse

abbrev fields_of : DcapVerifyResponse → ResponseFields
fields_of (flat f) = f
fields_of (nested f r) = f

-- src := decoded; if decoded.NestedResult != nil { src = *decoded.NestedResult }
abbrev pub src_of : DcapVerifyResponse → ResponseFields
src_of (flat f) = f
src_of (nested f r) = fields_of r

abbrev sized : Bytes → Answer Bytes
sized decoded =
    if eqb (length decoded) 32
    then ok (decoded ++ replicate 32 0)
    else if eqb (length decoded) 64
    then ok decoded
    else err (plain "report_data length must be 32 or 64 bytes")

abbrev stripped : String → String
stripped raw = trim_prefix (trim_prefix (trim_space raw) "0x") "0X"

unfoldable pub parse_report_data_hex : String → Answer Bytes
parse_report_data_hex raw =
    if stripped raw == ""
    then err (plain "missing report_data_hex")
    else elim (decode_string (stripped raw)) [
      | none ↦ err (plain "decode report_data_hex")
      | some decoded ↦ sized decoded
    ]

abbrev report_text : ResponseFields → String
report_text src =
    if trim_space src.report_data_hex == "" then src.report_data else src.report_data_hex

unfoldable pub read_response : DcapVerifyResponse → Answer DcapResult
unfolding parse_report_data_hex
read_response decoded = do
  report_data ← parse_report_data_hex (report_text (src_of decoded))
  ok (record {
    quote_valid = (src_of decoded).quote_valid;
    qe_identity_valid = (src_of decoded).qe_identity_valid;
    tcb_valid = (src_of decoded).tcb_valid;
    report_data = report_data;
  })

abbrev read_body : ℕ → Option DcapVerifyResponse → Answer DcapResult
read_body status body =
    if not (eqb status 200)
    then err (plain "dcap verifier returned status")
    else elim body [ none ↦ err (plain "json") | some decoded ↦ read_response decoded ]

-- HTTPDCAPVerifier.Verify
unfoldable pub dcap_verify :
    (String → Answer (ℕ × Option DcapVerifyResponse)) → String → Answer DcapResult
unfolding read_response
dcap_verify exchange quote_hex =
    if trim_space quote_hex == ""
    then err (plain "missing quote_hex")
    else elim (exchange quote_hex) [ err e ↦ err e | ok (status, body) ↦ read_body status body ]

-- Report data that is read is 64 bytes long: what a service gives as 32 bytes is filled up by zeros.
pub length-parse_report_data_hex :
    (raw : String) (bytes : Bytes) → parse_report_data_hex raw ≡ ok bytes → length bytes ≡ 64
unfolding parse_report_data_hex
length-parse_report_data_hex raw bytes h = elim (Option-cases (decode_string (stripped raw))) [
  | inl garbled ↦ absurd (ground arith)
  | inr (decoded, e) ↦ ground (arith, length-append decoded (replicate 32 0))
]
