-- ===== src/InstallCommand.antt =====
-- services/local-agent/cmd/install/main.go: the command that installs the agent.
--
-- `lookup_env` is the environment, `goos` the system that the program was built for, and
-- `current_user` the name that `user.Current` gives.
mod Tests
pub mod Flags
pub mod Handed
use Prim.Native.String.{◌++◌}
use enclout.Prelude.{
  String, Bool, not, ◌&&◌, Option, none, some, List, [], ◌∷◌, ◌==◌, if◌then◌else◌,
}
use enclout.GoMap.{GoMap, insert}
use enclout.Text.Trim.{trim_space}
use enclout.Text.Parts.{has_suffix}
use enclout.Verify.Types.{GoError, plain, Answer, ok, err, ◌>>=◌}
use enclout.SshKeys.{join}
use enclout.Installer.{Config, get_env}
use enclout.InstallCommand.Flags.{Values, parse}

abbrev pub Environment : Type 0
Environment = String → Option String

-- envOrEmpty
abbrev pub env_or_empty : Environment → String → String
env_or_empty lookup_env key = elim (lookup_env key) [ none ↦ "" | some v ↦ v ]

abbrev pub default_label : String
default_label = "ai.enclout.agent"

-- The flags with their defaults.
unfoldable pub defined_flags : Environment → Values
defined_flags lookup_env =
    ("token", "")
    ∷ ("agent-bin", "")
    ∷ ("label", default_label)
    ∷ ("control-plane-url", env_or_empty lookup_env "CONTROL_PLANE_URL")
    ∷ ("agent-token", env_or_empty lookup_env "AGENT_TOKEN")
    ∷ ("local-username", env_or_empty lookup_env "LOCAL_USERNAME")
    ∷ ("dcap-verifier-url", env_or_empty lookup_env "DCAP_VERIFIER_URL")
    ∷ ("connector-id", env_or_empty lookup_env "CONNECTOR_ID")
    ∷ ("device-id", env_or_empty lookup_env "DEVICE_ID")
    ∷ ("service-path", "")
    ∷ ("plist-path", "")
    ∷ []

-- filepath.Join of four elements
abbrev join4 : String → String → String → String → String
join4 a b c d = join (join (join a b) c) d

-- defaultPlistPath
unfoldable pub default_plist_path : String → String → String
unfolding join
default_plist_path home label = join4 home "Library" "LaunchAgents" (label ++ ".plist")

-- defaultSystemdUnitPath
unfoldable pub default_systemd_unit_path : String → String → String
unfolding join has_suffix
default_systemd_unit_path home label =
    join (join4 home ".config" "systemd" "user")
      (if not (has_suffix label ".service") then label ++ ".service" else label)

-- The variables that are handed on to the service.
abbrev pub passed_keys : List String
passed_keys =
    "AGENT_TOKEN" ∷ "DCAP_VERIFIER_TOKEN" ∷ "DCAP_VERIFIER_TIMEOUT" ∷ "MANAGED_KEYS_DIR"
    ∷ "ALLOW_MRTD" ∷ "ALLOW_RTMR3" ∷ "CONNECTOR_ID" ∷ "DEVICE_ID"
    ∷ "CONTROL_PLANE_SIGNING_KEYS_JSON" ∷ "CONTROL_PLANE_SIGNING_PUBKEY_B64"
    ∷ "CONTROL_PLANE_SIGNING_KID" ∷ "SIGNING_KEYSET_CACHE_TTL" ∷ []

-- if v != "" { out[key] = v }
abbrev pub put_filled : String → String → GoMap String → GoMap String
put_filled key v out = if not (v == "") then insert key v out else out

unfoldable pub pass_env : List String → (String → String) → GoMap String → GoMap String
pass_env [] getenv out = out
pass_env (key ∷ keys) getenv out =
    pass_env keys getenv (put_filled key (trim_space (getenv key)) out)

-- buildInstallEnv
unfoldable pub build_install_env : String → String → String → (String → String) → GoMap String
unfolding pass_env
build_install_env local_username control_plane_url dcap_verifier_url getenv =
    pass_env passed_keys getenv (
      ("CONTROL_PLANE_URL", control_plane_url)
      ∷ ("LOCAL_USERNAME", local_username)
      ∷ ("DCAP_VERIFIER_URL", dcap_verifier_url)
      ∷ [])

-- installFailureReasonForGOOS
abbrev pub install_failure_reason_for_goos : String → String
install_failure_reason_for_goos goos =
    if goos == "linux" then "SystemdInstallError" else "LaunchdInstallError"

-- The checks of the flags that are required.
abbrev pub check_required : List (String × String) → Values → Option GoError
check_required [] values = none
check_required ((name, text) ∷ rest) values =
    if trim_space (get_env values name) == "" then some (plain text) else check_required rest values

abbrev pub required : List (String × String)
required =
    ("token", "missing required -token")
    ∷ ("agent-bin", "missing required -agent-bin")
    ∷ ("control-plane-url", "missing required CONTROL_PLANE_URL or -control-plane-url")
    ∷ ("dcap-verifier-url", "missing required DCAP_VERIFIER_URL or -dcap-verifier-url")
    ∷ []

abbrev pub named_user : Option String → Answer String
named_user none = err (plain "resolve local username")
named_user (some name) =
    if trim_space name == "" then err (plain "resolve local username") else ok name

abbrev pub resolve_username : Option String → Values → Answer String
resolve_username current_user values =
    if trim_space (get_env values "local-username") == ""
    then named_user current_user
    else ok (get_env values "local-username")

abbrev pub default_service_path : String → String → String → Answer String
default_service_path goos home label =
    if home == ""
    then err (plain "missing HOME for default service path; set -service-path")
    else if goos == "darwin"
    then ok (default_plist_path home label)
    else if goos == "linux"
    then ok (default_systemd_unit_path home label)
    else err (plain "unsupported goos")

abbrev pub resolve_service_path : String → String → Values → Answer String
resolve_service_path goos home values =
    if not (trim_space (get_env values "service-path") == "")
    then ok (trim_space (get_env values "service-path"))
    else if not (trim_space (get_env values "plist-path") == "")
    then ok (trim_space (get_env values "plist-path"))
    else default_service_path goos home (get_env values "label")

-- What the command hands to `install.Run`: the client's address and token, and the settings.
pub record Plan : Type 0 where
  pub control_plane_url : String
  pub agent_token : String
  pub config : Config

-- The environment of the service, with the identity that the flags give.
unfoldable pub service_env : Environment → String → Values → GoMap String
unfolding build_install_env
service_env lookup_env username values =
    put_filled "DEVICE_ID" (trim_space (get_env values "device-id")) (
      put_filled "CONNECTOR_ID" (trim_space (get_env values "connector-id")) (
        build_install_env username (get_env values "control-plane-url")
          (get_env values "dcap-verifier-url") (env_or_empty lookup_env)))

abbrev pub plan_of : String → Environment → Values → String → String → Plan
plan_of goos lookup_env values username path = record {
  control_plane_url = get_env values "control-plane-url";
  agent_token = get_env values "agent-token";
  config = record {
    install_token = get_env values "token";
    label = get_env values "label";
    agent_binary = get_env values "agent-bin";
    plist_path = path;
    install_failure_reason = install_failure_reason_for_goos goos;
    env = service_env lookup_env username values;
  };
}

abbrev pub when_parsed : String → Environment → Option String → Values → Answer Plan
when_parsed goos lookup_env current_user values = elim (check_required required values) [
  | some e ↦ err e
  | none ↦ do
    username ← resolve_username current_user values
    path ← resolve_service_path goos (env_or_empty lookup_env "HOME") values
    ok (plan_of goos lookup_env values username path)
]

-- runWithDeps, up to the call of `runInstall`
unfoldable pub run_with_deps : String → List String → Environment → Option String → Answer Plan
unfolding defined_flags parse service_env default_plist_path default_systemd_unit_path
run_with_deps goos args lookup_env current_user =
    if not (goos == "darwin") && not (goos == "linux")
    then err (plain "installer is only supported on darwin or linux")
    else parse args (defined_flags lookup_env) >>= when_parsed goos lookup_env current_user
