-- ===== src/Http/Bundles.antt =====
-- services/control-plane/internal/http/attestation_bundle_handler.go and signing_keys_handler.go
use enclout.Prelude.{String, not, none, some, ltb, ◌==◌, if◌then◌else◌}
use enclout.GoMap.{lookup}
use enclout.Requests.Model.{
  Status, status_eq, Time, ConnectionRequest, Error, err_not_found, Result, ok, fail,
}
use enclout.Verify.Types.{Answer}
use enclout.Signing.{BundlePayload, SignedBundle, sign_bundle, keyset}
use enclout.Http.{
  HttpRequest, Json, Response, http_error, write_json, RequestStore, BundleTemplate, Server,
  Handler, with_id, answer,
}
use enclout.Http.Path.{parse_id_from_path}

abbrev pub lookup_failure : Error → Response
lookup_failure err_not_found = http_error 404 "not_found"
lookup_failure _ = http_error 500 "request_lookup_failed"

abbrev pub policy_version_or_default : String → String
policy_version_or_default v = if v == "" then "v1" else v

abbrev pub payload_of : Server → Time → ConnectionRequest → BundleTemplate → BundlePayload
payload_of srv now req tpl = record {
  request_id = req.id;
  connector_id = tpl.connector_id;
  ssh_public_key = tpl.ssh_public_key;
  quote_hex = tpl.quote_hex;
  event_log = tpl.event_log;
  mrtd = tpl.mrtd;
  rtmr0 = tpl.rtmr0;
  rtmr1 = tpl.rtmr1;
  rtmr2 = tpl.rtmr2;
  rtmr3 = tpl.rtmr3;
  report_data_expected_sha256 = srv.sha256_hex tpl.ssh_public_key;
  policy_version = policy_version_or_default tpl.policy_version;
  issued_at = now;
  expires_at = req.expires_at;
  nonce = req.nonce;
}

abbrev pub signed_reply : Answer SignedBundle → Response
signed_reply (Answer.err e) = http_error 500 "bundle_signing_failed"
signed_reply (Answer.ok signed) = write_json 200 (Json.signed_bundle signed)

-- The answer on the request that the store has returned; `now` is the handler's clock.
unfoldable pub bundle_reply : Server → Time → ConnectionRequest → Response
bundle_reply srv now req =
    if not (status_eq req.status Status.approved)
    then http_error 409 "request_not_approved"
    else elim (lookup req.connector_id srv.bundles) [
      | none ↦ http_error 404 "bundle_not_found"
      | some tpl ↦
          if ltb req.expires_at now
          then http_error 410 "request_expired"
          else signed_reply (sign_bundle srv.signatures srv.signers (payload_of srv now req tpl))
    ]

abbrev pub bundle_result : Server → Time → Result ConnectionRequest → Response
bundle_result srv now (ok req) = bundle_reply srv now req
bundle_result srv now (fail e req) = lookup_failure e

module _ {S : Type 0} (srv : Server) (store : RequestStore S) (r : HttpRequest) (now : Time) where
  unfoldable pub attestation_bundle : Handler S
  unfolding bundle_reply
  attestation_bundle =
      with_id (parse_id_from_path r.path "/v1/connection-requests/" "/attestation-bundle")
        λ id s. let (found, s') = store.get id s in (bundle_result srv now found, s')

  unfoldable pub signing_keys : Handler S
  signing_keys = answer (write_json 200 (Json.signing_keys (keyset srv.signatures srv.signers)))
