-- ===== src/Requests/Model.antt =====
-- services/control-plane/internal/requests/model.go, the errors of store.go and id.go.
--
-- Go's `Status` and `InstallStatus` are strings. Here each has a constructor for each constant of
-- model.go, and `other` for any other text: `status_of` is the conversion `Status(s)`.
use enclout.Prelude.{
  ℕ, suc, ◌+◌, ◌-◌, String, Bool, true, false, Option, none, some, List, ◌==◌, ℤ, pos, negsuc,
  if◌then◌else◌,
}
use enclout.Text.Hex.{encode_to_string}

pub data Status : Type 0 where
  pending_local_confirm denied_local approved expired verification_failed connected : Status
  other : String → Status

-- Status(s)
unfoldable pub status_of : String → Status
status_of s =
    if s == "pending_local_confirm"
    then Status.pending_local_confirm
    else if s == "denied_local"
    then Status.denied_local
    else if s == "approved"
    then Status.approved
    else if s == "expired"
    then Status.expired
    else if s == "verification_failed"
    then Status.verification_failed
    else if s == "connected"
    then Status.connected
    else Status.other s

abbrev pub status_eq : Status → Status → Bool
status_eq Status.pending_local_confirm Status.pending_local_confirm = true
status_eq Status.denied_local Status.denied_local = true
status_eq Status.approved Status.approved = true
status_eq Status.expired Status.expired = true
status_eq Status.verification_failed Status.verification_failed = true
status_eq Status.connected Status.connected = true
status_eq (Status.other s) (Status.other t) = s == t
status_eq _ _ = false

pub data InstallStatus : Type 0 where
  requested approved installed failed : InstallStatus
  other : String → InstallStatus

-- InstallStatus(s)
unfoldable pub install_status_of : String → InstallStatus
install_status_of s =
    if s == "requested"
    then InstallStatus.requested
    else if s == "approved"
    then InstallStatus.approved
    else if s == "installed"
    then InstallStatus.installed
    else if s == "failed"
    then InstallStatus.failed
    else InstallStatus.other s

abbrev pub install_status_eq : InstallStatus → InstallStatus → Bool
install_status_eq InstallStatus.requested InstallStatus.requested = true
install_status_eq InstallStatus.approved InstallStatus.approved = true
install_status_eq InstallStatus.installed InstallStatus.installed = true
install_status_eq InstallStatus.failed InstallStatus.failed = true
install_status_eq (InstallStatus.other s) (InstallStatus.other t) = s == t
install_status_eq _ _ = false

-- `time.Time` in UTC, as nanoseconds since Go's zero time.
abbrev pub Time : Type 0
Time = ℕ

-- t.Add(d); the store calls it for positive `d` alone.
abbrev pub add_duration : Time → ℤ → Time
add_duration t (pos n) = t + n
add_duration t (negsuc n) = t - suc n

pub record ConnectionRequest : Type 0 where
  pub id : String
  pub openclaw_user_id : String
  pub device_id : String
  pub connector_id : String
  pub source_channel : String
  pub status : Status
  pub created_at : Time
  pub expires_at : Time
  pub nonce : String
  pub reason_code : String

pub record CreateInput : Type 0 where
  pub openclaw_user_id : String
  pub device_id : String
  pub connector_id : String
  pub source_channel : String
  pub ttl : ℤ

pub record InstallSession : Type 0 where
  pub id : String
  pub openclaw_user_id : String
  pub device_id : String
  pub connector_id : String
  pub source_channel : String
  pub status : InstallStatus
  pub created_at : Time
  pub expires_at : Time
  pub reason_code : String

pub record CreateInstallInput : Type 0 where
  pub openclaw_user_id : String
  pub device_id : String
  pub connector_id : String
  pub source_channel : String
  pub ttl : ℤ

-- ConnectionRequest{}
abbrev pub zero_request : ConnectionRequest
zero_request = record {
  id = "";
  openclaw_user_id = "";
  device_id = "";
  connector_id = "";
  source_channel = "";
  status = Status.other "";
  created_at = 0;
  expires_at = 0;
  nonce = "";
  reason_code = "";
}

-- InstallSession{}
abbrev pub zero_session : InstallSession
zero_session = record {
  id = "";
  openclaw_user_id = "";
  device_id = "";
  connector_id = "";
  source_channel = "";
  status = InstallStatus.other "";
  created_at = 0;
  expires_at = 0;
  reason_code = "";
}

-- The errors of store.go by name, its two `fmt.Errorf` texts, and what `persistLocked` reports.
pub data Error : Type 0 where
  err_not_found err_invalid_transition err_expired missing_required_fields : Error
  ttl_must_be_positive : Error
  persist_failed : Error

-- A Go result `(v, err)`: `fail e v` holds the value that is returned beside the error.
pub data Result {ℓ} (A : Type ℓ) : Type ℓ where
  ok : A → Result A
  fail : Error → A → Result A

-- `randomID` of id.go on what `rand.Read` gives: the bytes read, or nothing on an error.
unfoldable pub random_id : Option (List ℕ) → String
unfolding encode_to_string
random_id none = "00000000000000000000000000000000"
random_id (some buf) = encode_to_string buf

-- The error that a call returns, if any.
abbrev pub error_of {ℓ} : {A : Type ℓ} → Result A → Option Error
error_of (ok a) = none
error_of (fail e a) = some e
