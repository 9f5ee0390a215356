-- ===== src/Flow.antt =====
-- services/local-agent/internal/flow/runner.go: what the agent does about one request.
--
-- A `Runner` holds its collaborators: each is what it answers when `Process` calls it, and the run
-- is the error that `Process` returns with the calls that it makes, in their order.
mod Tests
pub mod Payload
pub mod Installs
pub mod Reports
pub mod Attested
use enclout.Prelude.{
  String, Bool, true, false, not, Option, none, some, List, [], ◌∷◌, ◌++◌, ◌||◌, ◌==◌,
  if◌then◌else◌,
}
use enclout.GoMap.{GoMap, lookup}
use enclout.Verify.Types.{
  GoError, plain, code_of, Answer, ok, err, Bytes, Bundle, Decision, Crypto, reason_bundle_invalid,
  reason_quote_invalid,
}
use enclout.Verify.Signature.{verify_signed_bundle_with_keyset}
use enclout.Approval.{RequestSummary}

-- What `json.Unmarshal` puts into a Go value of type `any`; a number by its text.
mutual
  pub data Value : Type 0 where
    null : Value
    boolean : Bool → Value
    number text : String → Value
    array : Values → Value
    object : Members → Value

  pub data Values : Type 0 where
    no_values : Values
    value : Value → Values → Values

  pub data Members : Type 0 where
    no_members : Members
    member : String → Value → Members → Members

-- Bundle of services/local-agent/internal/api/client.go
pub record SignedBundle : Type 0 where
  pub payload : GoMap Value
  pub payload_raw : Bytes
  pub signature : String
  pub alg : String
  pub kid : String

pub record Request : Type 0 where
  pub id : String
  pub connector_id : String
  pub local_user : String

pub record Runner : Type 0 where
  pub post_local_decision : String → Bool → Option GoError
  pub get_attestation_bundle : String → Answer SignedBundle
  pub post_result : String → String → String → Option GoError
  pub confirm : RequestSummary → Answer Bool
  pub verify : Bundle → Answer Decision
  pub install : String → String → Option GoError
  -- `none` where no source of signing keys is configured
  pub signing_keys : Option (Answer (GoMap String))

-- A call of a collaborator that others can see: `installs user key` is a call of `Install`, whether
-- or not it succeeds.
pub data Action : Type 0 where
  asks : RequestSummary → Action
  posts_decision : String → Bool → Action
  fetches_bundle : String → Action
  installs : String → String → Action
  posts_result : String → String → String → Action

abbrev pub Run : Type 0
Run = Option GoError × List Action

abbrev pub err_user_denied : GoError
err_user_denied = plain "user denied local approval"

abbrev string_value : Option Value → String
string_value (some (text s)) = s
string_value _ = ""

unfoldable pub string_field : GoMap Value → String → String
string_field m key = string_value (lookup key m)

abbrev pub bundle_of : GoMap Value → Bundle
bundle_of payload = record {
  connector_id = string_field payload "connector_id";
  ssh_public_key = string_field payload "ssh_public_key";
  quote_hex = string_field payload "quote_hex";
  mrtd = string_field payload "mrtd";
  rtmr0 = string_field payload "rtmr0";
  rtmr1 = string_field payload "rtmr1";
  rtmr2 = string_field payload "rtmr2";
  rtmr3 = string_field payload "rtmr3";
  report_data_expected_sha256 = string_field payload "report_data_expected_sha256";
  policy_version = string_field payload "policy_version";
}

unfoldable pub parse_bundle_payload : GoMap Value → Answer Bundle
parse_bundle_payload payload =
    let out = bundle_of payload in
    if out.ssh_public_key == "" || out.quote_hex == ""
    then err (plain "bundle payload missing required fields")
    else ok out

-- The calls `a` before those of `r`.
infixr 5 ◌then_run◌
abbrev pub ◌then_run◌ : Action → Run → Run
a then_run r = (r.0, a ∷ r.1)

abbrev pub summary_of : Request → RequestSummary
summary_of req = record { id = req.id; connector_id = req.connector_id }

-- `reasonCode` where the verifier fails
abbrev reason_of : Option String → String
reason_of none = reason_quote_invalid
reason_of (some code) = code

module _ (crypto : Crypto) (r : Runner) (req : Request) where
  -- _ = r.api.PostResult(ctx, req.ID, "verification_failed", reason); return e
  abbrev pub give_up : String → GoError → Run
  give_up reason e = (some e, posts_result req.id "verification_failed" reason ∷ [])

  abbrev pub finish : Option GoError → Run
  finish (some e) = give_up "TransportFailure" e
  finish none = (r.post_result req.id "connected" "", posts_result req.id "connected" "" ∷ [])

  abbrev pub with_decision : Bundle → Answer Decision → Run
  with_decision bundle (err e) = give_up (reason_of (code_of e)) e
  with_decision bundle (ok decision) =
      if not decision.trusted
      then give_up decision.reason_code (plain "untrusted decision")
      else installs req.local_user bundle.ssh_public_key
        then_run finish (r.install req.local_user bundle.ssh_public_key)

  abbrev pub with_bundle : Answer Bundle → Run
  with_bundle (err e) = give_up reason_bundle_invalid e
  with_bundle (ok bundle) = with_decision bundle (r.verify bundle)

  abbrev pub with_signature : SignedBundle → Option GoError → Run
  with_signature signed (some e) = give_up reason_bundle_invalid e
  with_signature signed none = with_bundle (parse_bundle_payload signed.payload)

  abbrev pub with_keys : SignedBundle → Option (Answer (GoMap String)) → Run
  with_keys signed none =
      give_up reason_bundle_invalid (plain "trusted signing key source is not configured")
  with_keys signed (some (err e)) = give_up reason_bundle_invalid e
  with_keys signed (some (ok keys)) = with_signature signed (
      verify_signed_bundle_with_keyset crypto signed.payload_raw signed.signature signed.alg
        signed.kid keys)

  abbrev pub with_signed_bundle : Answer SignedBundle → Run
  with_signed_bundle (err e) = (some e, [])
  with_signed_bundle (ok signed) = with_keys signed r.signing_keys

  abbrev pub with_posted : Bool → Option GoError → Run
  with_posted approved (some e) = (some e, [])
  with_posted approved none =
      if not approved
      then (some err_user_denied, [])
      else fetches_bundle req.id then_run with_signed_bundle (r.get_attestation_bundle req.id)

  abbrev pub with_answer : Answer Bool → Run
  with_answer (err e) = (some e, [])
  with_answer (ok approved) =
      posts_decision req.id approved
      then_run with_posted approved (r.post_local_decision req.id approved)

  -- Runner.Process
  unfoldable pub process : Run
  process = asks (summary_of req) then_run with_answer (r.confirm (summary_of req))
