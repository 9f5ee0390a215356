-- ===== src/Http/Wire.antt =====
-- The agent's client (services/local-agent/internal/api/client.go) against the control plane's
-- routes: each call of the agent on a request reaches the operation that it is meant for.
--
-- The URL of the control plane has no path of its own here. `url.PathEscape` is undone by the server
-- before it reads the path, so the path is the one with the identifier as it is.
use Prim.Native.String.{◌++◌}
use text.Mathlib.TextLemmas.{append_assoc}
use enclout.Prelude.{
  String, Bool, true, false, some, ◌≡◌, ◌≢◌, refl, ap, sym, ◌∙◌, arith, ◌&&◌, ◌==◌, eq_iff,
}
use enclout.Text.Trim.{trim_space}
use enclout.Text.Parts.{has_suffix, contains, cut_suffix-append, has_suffix-other}
use enclout.Requests.Model.{Time, status_of}
use enclout.Http.{HttpRequest, RequestStore, Server, Handler, failure, reply}
use enclout.Http.Path.{parse_id_from_path-append}
use enclout.Http.Auth.{authorization_header, bears-authorization_header}
use enclout.Http.Handlers.{result, request_reply}
use enclout.Http.Bundles.{attestation_bundle, bundle_result}
use enclout.Http.Routes.{connection_requests, require_auth, serve}
use enclout.Http.Reached.{IsPlainId, serve-path_of}

abbrev blank : HttpRequest
blank = record {
  method = "";
  path = "";
  authorization = "";
  body = "";
  token = "";
  host = "";
  forwarded_host = "";
  forwarded_proto = "";
  tls = false;
}

-- What `json.Marshal` makes of the bodies.
pub record Encoders : Type 0 where
  pub local_decision_body : Bool → String
  pub result_body : String → String → String

abbrev pub request_path : String → String → String
request_path id suffix = "/v1/connection-requests/" ++ (id ++ suffix)

module _ (enc : Encoders) (token : String) where
  -- Client.postJSON, on the path and the encoded body
  abbrev pub post_json : String → String → HttpRequest
  post_json path body = record blank {
    method = "POST";
    path = path;
    authorization = authorization_header token;
    body = body;
  }

  -- Client.PostLocalDecision
  unfoldable pub post_local_decision : String → Bool → HttpRequest
  post_local_decision request_id approved =
      post_json (request_path request_id "/local-decision") (enc.local_decision_body approved)

  -- Client.PostResult
  unfoldable pub post_result : String → String → String → HttpRequest
  post_result request_id status reason_code =
      post_json (request_path request_id "/result") (enc.result_body status reason_code)

  -- Client.GetAttestationBundle
  unfoldable pub get_attestation_bundle : String → HttpRequest
  get_attestation_bundle request_id = record blank {
    method = "GET";
    path = request_path request_id "/attestation-bundle";
    authorization = authorization_header token;
  }

and-false : (b : Bool) → (b && false) ≡ false
and-false true = refl
and-false false = refl

module _ {S : Type 0} (srv : Server) (store : RequestStore S) (now : Time) (enc : Encoders)
    (token : String) (filled : token ≢ "") (trimmed : trim_space token ≡ token)
    (shared : srv.api_token ≡ token) where
  require_auth-agent :
      (r : HttpRequest) (h : Handler S) (s : S)
      → r.authorization ≡ authorization_header token
      → require_auth srv store r now h s ≡ h s
  unfolding require_auth
  require_auth-agent r h s sent =
      let passes = bears-authorization_header token filled trimmed in rw (sent, shared, passes)

  has_suffix-request_path : (id suffix : String) → has_suffix (request_path id suffix) suffix ≡ true
  unfolding has_suffix
  has_suffix-request_path id suffix =
      let whole = cut_suffix-append suffix ("/v1/connection-requests/" ++ id) in
      ground (arith, append_assoc "/v1/connection-requests/" id suffix)

  has_suffix-result_path :
      (id : String) → has_suffix (request_path id "/result") "/local-decision" ≡ false
  has_suffix-result_path id =
      let parts : request_path id "/result"
          ≡ ("/v1/connection-requests/" ++ (id ++ "/resul")) ++ "t" =
        ap (λ s. "/v1/connection-requests/" ++ s) (sym (append_assoc id "/resul" "t"))
        ∙ sym (append_assoc "/v1/connection-requests/" (id ++ "/resul") "t") in
      rw parts (
        has_suffix-other ("/v1/connection-requests/" ++ (id ++ "/resul")) "/local-decisio" "t" "n"
          refl)

  post_result-route :
      (id status reason_code : String) (s : S)
      → IsPlainId id
      → srv.decoders.result_body (enc.result_body status reason_code)
        ≡ some (record { status = status; reason_code = reason_code })
      → connection_requests srv store (post_result enc token id status reason_code) now s
        ≡ reply
            (request_reply 200)
            (failure "request_expired" 500 "result_failed")
            (store.set_result id (status_of status) reason_code s)
  unfolding connection_requests post_result result
  post_result-route id status reason_code s plain_id decoded =
      let suffix = has_suffix-request_path id "/result" in
      let other = has_suffix-result_path id in
      let named =
        parse_id_from_path-append "/v1/connection-requests/" id "/result" plain_id.filled
          plain_id.no_slash in
      rw (other, suffix)
        (rw
          (require_auth-agent (post_result enc token id status reason_code)
            (result srv store (post_result enc token id status reason_code)) s refl)
          (rw (named, decoded)))

  get_attestation_bundle-route :
      (id : String) (s : S)
      → IsPlainId id
      → connection_requests srv store (get_attestation_bundle enc token id) now s
        ≡ (let (found, s') = store.get id s in (bundle_result srv now found, s'))
  unfolding connection_requests get_attestation_bundle attestation_bundle
  get_attestation_bundle-route id s plain_id =
      let suffix = has_suffix-request_path id "/attestation-bundle" in
      let named =
        parse_id_from_path-append "/v1/connection-requests/" id "/attestation-bundle"
          plain_id.filled plain_id.no_slash in
      rw
        (
          and-false (has_suffix (request_path id "/attestation-bundle") "/local-decision"),
          and-false (has_suffix (request_path id "/attestation-bundle") "/result"),
          suffix,
        )
        (rw
          (require_auth-agent (get_attestation_bundle enc token id)
            (attestation_bundle srv store (get_attestation_bundle enc token id) now) s refl)
          (rw named))

  plain_part :
      (part : String)
      → (part == "") ≡ false
      → contains part b'/' ≡ false
      → (part == ".") ≡ false
      → (part == "..") ≡ false
      → IsPlainId part
  plain_part part a b c d = record {
    filled = λ e. ground (arith, eq_iff part "");
    no_slash = b;
    no_dot = λ e. ground (arith, eq_iff part ".");
    no_dots = λ e. ground (arith, eq_iff part "..");
  }

  -- What the agent reports as the result of a request is served by that result of that request, with
  -- the status read from its text.
  pub post_result-served :
      (id status reason_code : String) (s : S)
      → IsPlainId id
      → srv.decoders.result_body (enc.result_body status reason_code)
        ≡ some (record { status = status; reason_code = reason_code })
      → serve srv store (post_result enc token id status reason_code) now s
        ≡ reply
            (request_reply 200)
            (failure "request_expired" 500 "result_failed")
            (store.set_result id (status_of status) reason_code s)
  unfolding post_result contains
  post_result-served id status reason_code s plain_id decoded =
      serve-path_of srv store (post_result enc token id status reason_code) now id "result" s
        plain_id (plain_part "result" refl refl refl refl) refl
      ∙ post_result-route id status reason_code s plain_id decoded

  -- What the agent fetches as the bundle of a request is the answer of the bundle handler on that
  -- request, once more with the shared token.
  pub get_attestation_bundle-served :
      (id : String) (s : S)
      → IsPlainId id
      → serve srv store (get_attestation_bundle enc token id) now s
        ≡ (let (found, s') = store.get id s in (bundle_result srv now found, s'))
  unfolding get_attestation_bundle contains
  get_attestation_bundle-served id s plain_id =
      serve-path_of srv store (get_attestation_bundle enc token id) now id "attestation-bundle" s
        plain_id (plain_part "attestation-bundle" refl refl refl refl) refl
      ∙ get_attestation_bundle-route id s plain_id
