-- ===== src/Http.antt =====
-- services/control-plane/internal/http and the routes of services/control-plane/cmd/api/main.go: the
-- requests, the answers, and what the handlers share.
pub mod Path
pub mod Auth
pub mod Handlers
pub mod Bundles
pub mod Intents
pub mod Routes
pub mod Memory
pub mod Issued
pub mod Advances
pub mod Confirmed
pub mod Reached
pub mod Wire
pub mod Served
mod Tests
use enclout.Prelude.{ℕ, ℤ, String, Char, Bool, Option, none, some, List}
use enclout.GoMap.{GoMap}
use enclout.Requests.Model.{
  Status, InstallStatus, Time, ConnectionRequest, CreateInput, InstallSession, CreateInstallInput,
  Error, err_not_found, err_invalid_transition, err_expired, Result, ok, fail,
}
use enclout.Trust.{SigningKeyset}
use enclout.Signing.{SignedBundle, SignerSet, Signatures}

-- What the handlers read of an `http.Request`; `token` is the query parameter of this name, and
-- `tls` whether `r.TLS` is set.
pub record HttpRequest : Type 0 where
  pub method : String
  pub path : String
  pub authorization : String
  pub body : String
  pub token : String
  pub host : String
  pub forwarded_host : String
  pub forwarded_proto : String
  pub tls : Bool

-- InstallRequestResponse, with the one command that both of its templates hold
pub record InstallRequestResponse : Type 0 where
  pub install_session_id : String
  pub install_token : String
  pub install_url : String
  pub status : InstallStatus
  pub expires_at : Time
  pub install_command : String

-- The values that `writeJSON` is given.
pub data Json : Type 0 where
  request : ConnectionRequest → Json
  requests : List ConnectionRequest → Json
  session : InstallSession → Json
  session_with_token : InstallSession → String → Json
  signed_bundle : SignedBundle → Json
  signing_keys : SigningKeyset → Json
  install_request : InstallRequestResponse → Json

pub data Response : Type 0 where
  -- http.Error(w, text, status)
  http_error : ℕ → String → Response
  -- writeJSON(w, status, v)
  write_json : ℕ → Json → Response
  -- http.NotFound, the redirects of ServeMux, and the health check
  not_found moved healthy : Response
  -- the page of `serveInstallLanding` with its command
  landing : String → Response

-- The interface `RequestStore`, on a state `S`.
pub record RequestStore (S : Type 0) : Type 0 where
  pub create : CreateInput → S → Result ConnectionRequest × S
  pub get : String → S → Result ConnectionRequest × S
  pub set_local_decision : String → Bool → S → Result ConnectionRequest × S
  pub set_result : String → Status → String → S → Result ConnectionRequest × S
  pub list_pending_for_device : String → S → List ConnectionRequest × S
  pub create_install_session : CreateInstallInput → S → Result (InstallSession × String) × S
  pub get_install_session : String → S → Result InstallSession × S
  pub set_install_approval : String → Bool → S → Result InstallSession × S
  pub set_install_identity : String → String → String → S → Result InstallSession × S
  pub set_install_result : String → InstallStatus → String → S → Result InstallSession × S
  pub redeem_install_token : String → S → Result InstallSession × S

pub record CreateBody : Type 0 where
  pub openclaw_user_id : String
  pub device_id : String
  pub connector_id : String
  pub source_channel : String

pub record ResultBody : Type 0 where
  pub status : String
  pub reason_code : String

pub record RegistrationBody : Type 0 where
  pub connector_id : String
  pub device_id : String

pub record IntentBody : Type 0 where
  pub intent : String
  pub openclaw_user_id : String
  pub connector_id : String
  pub device_id : String
  pub source_channel : String
  pub install_session_id : String
  pub approved : Bool
  pub status : String
  pub reason_code : String

-- `json.NewDecoder(r.Body).Decode(&body)` for the type of each body; `none` on an error.
pub record Decoders : Type 0 where
  pub create_body : String → Option CreateBody
  pub create_install_body : String → Option CreateBody
  pub local_decision_body : String → Option Bool
  pub install_approval_body : String → Option Bool
  pub result_body : String → Option ResultBody
  pub install_result_body : String → Option ResultBody
  pub registration_body : String → Option RegistrationBody
  pub redeem_body : String → Option String
  pub intent_body : String → Option IntentBody

pub record BundleTemplate : Type 0 where
  pub connector_id : String
  pub ssh_public_key : String
  pub quote_hex : String
  pub event_log : String
  pub mrtd : String
  pub rtmr0 : String
  pub rtmr1 : String
  pub rtmr2 : String
  pub rtmr3 : String
  pub policy_version : String

-- What `main` puts together: the token of `RequireBearerToken`, the time to live of requests, the
-- signers, the templates of bundles, the decoders of bodies, SHA-256 in hexadecimal digits, and `unicode.IsPrint` for what
-- is not ASCII.
pub record Server : Type 0 where
  pub api_token : String
  pub request_ttl : ℤ
  pub signatures : Signatures
  pub signers : SignerSet
  pub bundles : GoMap BundleTemplate
  pub decoders : Decoders
  pub sha256_hex : String → String
  pub is_print : Char → Bool

-- The switch on the error of a store call; each handler has texts of its own.
abbrev pub failure : String → ℕ → String → Error → Response
failure expired status text err_not_found = http_error 404 "not_found"
failure expired status text err_expired = http_error 410 expired
failure expired status text err_invalid_transition = http_error 409 "invalid_transition"
failure expired status text _ = http_error status text

-- A handler turns the state of the store into an answer and the state after it.
abbrev pub Handler : Type 0 → Type 0
Handler S = S → Response × S

module _ {S : Type 0} where
  abbrev pub answer : Response → Handler S
  answer r s = (r, s)

  abbrev pub with_id : Option String → (String → Handler S) → Handler S
  with_id none h s = (http_error 400 "invalid_path", s)
  with_id (some id) h s = h id s

  abbrev pub with_body : {B : Type 0} → Option B → (B → Handler S) → Handler S
  with_body none h s = (http_error 400 "invalid_json", s)
  with_body (some body) h s = h body s

  abbrev pub reply :
      {A : Type 0} → (A → Response) → (Error → Response) → Result A × S → Response × S
  reply done failed (ok a, s) = (done a, s)
  reply done failed (fail e a, s) = (failed e, s)
