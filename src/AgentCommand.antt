-- ===== src/AgentCommand.antt =====
-- services/local-agent/cmd/agent/main.go: the settings of the agent.
--
-- `getenv` is `os.Getenv`. What the program decodes with packages that are not modelled is the
-- record `Readers`. `log.Fatalf` is an error that ends the program.
mod Tests
pub mod Durations
pub mod Lists
pub mod Polling
pub mod Steps
pub mod Runs
pub mod Started
use Prim.Native.String.{◌++◌}
use enclout.Prelude.{
  String, Bool, true, false, not, ◌||◌, Option, none, some, List, [], ◌∷◌, ◌==◌, ℤ, pos, ℕ, ◌*◌,
  is_positive, if◌then◌else◌,
}
use enclout.GoMap.{GoMap}
use enclout.Text.Trim.{trim_space}
use enclout.Text.Parts.{split}
use enclout.Verify.Types.{GoError, plain, Answer, ok, err, ◌>>=◌}
use enclout.Trust.{default_keyset_cache_ttl}
use enclout.AgentCommand.Durations.{second, parse_duration_or_default}

abbrev pub Getenv : Type 0
Getenv = String → String

-- `json.Unmarshal` into a map of texts, and `time.ParseDuration`.
pub record Readers : Type 0 where
  pub signing_keys_json : String → Option (GoMap String)
  pub parse_duration : String → Option ℤ

-- The loop of splitCSV.
unfoldable pub filled_parts : List String → List String
filled_parts [] = []
filled_parts (p ∷ parts) =
    let out = filled_parts parts in if trim_space p == "" then out else trim_space p ∷ out

unfoldable pub split_csv : String → List String
unfolding filled_parts split
split_csv v = if trim_space v == "" then [] else filled_parts (split v b',')

-- mustEnv
unfoldable pub must_env : Getenv → String → Answer String
must_env getenv name =
    if getenv name == ""
    then err (plain ("missing required env var " ++ name))
    else ok (getenv name)

unfoldable pub has_blank : GoMap String → Bool
has_blank [] = false
has_blank ((kid, key) ∷ out) = trim_space kid == "" || trim_space key == "" || has_blank out

abbrev pub checked_keys : Option (GoMap String) → Answer (GoMap String)
checked_keys none = err (plain "invalid CONTROL_PLANE_SIGNING_KEYS_JSON")
checked_keys (some []) = err (plain "CONTROL_PLANE_SIGNING_KEYS_JSON must contain at least one key")
checked_keys (some (entry ∷ out)) =
    if has_blank (entry ∷ out)
    then err (plain "CONTROL_PLANE_SIGNING_KEYS_JSON contains empty kid or key")
    else ok (entry ∷ out)

-- The mode with a single key.
abbrev pub single_key : String → String → GoMap String
single_key kid pub_key =
    if pub_key == "" then [] else (if kid == "" then "v1" else kid, pub_key) ∷ []

-- loadTrustedControlPlaneSigningKeysFromEnv; a nil map is an empty one
unfoldable pub load_trusted_signing_keys : Readers → Getenv → Answer (GoMap String)
load_trusted_signing_keys readers getenv =
    if not (trim_space (getenv "CONTROL_PLANE_SIGNING_KEYS_JSON") == "")
    then checked_keys
        (readers.signing_keys_json (trim_space (getenv "CONTROL_PLANE_SIGNING_KEYS_JSON")))
    else ok (
        single_key (trim_space (getenv "CONTROL_PLANE_SIGNING_KID"))
          (trim_space (getenv "CONTROL_PLANE_SIGNING_PUBKEY_B64")))

-- HTTPDCAPVerifier, without its client
pub record DcapVerifier : Type 0 where
  pub endpoint : String
  pub token : String
  pub timeout : ℤ

abbrev pub default_dcap_timeout : ℤ
default_dcap_timeout = pos (10 * second)

-- NewHTTPDCAPVerifier (services/local-agent/internal/verify/dcap_http.go)
unfoldable pub new_http_dcap_verifier : String → String → ℤ → Answer DcapVerifier
new_http_dcap_verifier endpoint token timeout =
    if trim_space endpoint == ""
    then err (plain "missing DCAP verifier endpoint")
    else ok (record {
      endpoint = trim_space endpoint;
      token = trim_space token;
      timeout = if is_positive timeout then timeout else default_dcap_timeout;
    })

-- What `main` makes of the environment before it starts to poll.
pub record Settings : Type 0 where
  pub control_plane_url : String
  pub device_id : String
  pub local_user : String
  pub signing_keys : GoMap String
  pub token : String
  pub keys_dir : String
  pub allow_mrtd : List String
  pub allow_rtmr3 : List String
  pub dcap : DcapVerifier
  pub keyset_cache_ttl : ℤ

abbrev pub dcap_of : Readers → Getenv → String → Answer DcapVerifier
dcap_of readers getenv url = new_http_dcap_verifier url (getenv "DCAP_VERIFIER_TOKEN") (
    parse_duration_or_default readers.parse_duration (getenv "DCAP_VERIFIER_TIMEOUT")
      default_dcap_timeout)

-- The settings of `main`, in the order in which it reads them.
unfoldable pub load_settings : Readers → Getenv → Answer Settings
unfolding must_env load_trusted_signing_keys new_http_dcap_verifier
load_settings readers getenv = do
  control_plane_url ← must_env getenv "CONTROL_PLANE_URL"
  device_id ← must_env getenv "DEVICE_ID"
  local_user ← must_env getenv "LOCAL_USERNAME"
  signing_keys ← load_trusted_signing_keys readers getenv
  dcap_url ← must_env getenv "DCAP_VERIFIER_URL"
  dcap ← dcap_of readers getenv dcap_url
  ok (record {
    control_plane_url = control_plane_url;
    device_id = device_id;
    local_user = local_user;
    signing_keys = signing_keys;
    token = getenv "AGENT_TOKEN";
    keys_dir =
        if getenv "MANAGED_KEYS_DIR" == ""
        then "/var/lib/connector-agent/keys"
        else getenv "MANAGED_KEYS_DIR";
    allow_mrtd = split_csv (getenv "ALLOW_MRTD");
    allow_rtmr3 = split_csv (getenv "ALLOW_RTMR3");
    dcap = dcap;
    keyset_cache_ttl =
        parse_duration_or_default readers.parse_duration (getenv "SIGNING_KEYSET_CACHE_TTL")
          default_keyset_cache_ttl;
  })
