-- ===== src/Installer.antt =====
-- services/local-agent/internal/install/runner.go: how the agent is installed with an install token.
--
-- A run is the error that `Run` returns with the calls that it makes, in their order; `host` is what
-- `os.Hostname` gives.
mod Tests
pub mod Checks
pub mod Reports
pub mod Starting
use Prim.Native.String.{◌++◌, [], ◌∷◌}
use mathlib.Core.List
use enclout.Prelude.{
  String, Char, code, Bool, true, false, not, ◌&&◌, ◌||◌, Option, none, some, List, ◌==◌, eqb, leb,
  if◌then◌else◌,
}
use enclout.GoMap.{GoMap, lookup, insert}
use enclout.Text.Trim.{trim_space, is_empty}
use enclout.Text.Prefix.{to_lower}
use enclout.Verify.Types.{GoError, plain, wrapped, Answer, ok, err}

-- InstallSession of services/local-agent/internal/api/client.go: what Run reads of it
pub record Session : Type 0 where
  pub id : String
  pub connector_id : String
  pub device_id : String

pub record ServiceConfig : Type 0 where
  pub label : String
  pub agent_binary : String
  pub plist_path : String
  pub env : GoMap String

pub record Config : Type 0 where
  pub install_token : String
  pub label : String
  pub agent_binary : String
  pub plist_path : String
  pub install_failure_reason : String
  pub env : GoMap String

-- The interfaces `InstallerAPI` and `ServiceInstaller`, by what they answer.
pub record Host : Type 0 where
  pub redeem_install_token : String → Answer Session
  pub register_install_identity : String → String → String → Option GoError
  pub post_install_result : String → String → String → Option GoError
  pub install_and_start : ServiceConfig → Option GoError
  pub hostname : Option String

pub data Action : Type 0 where
  redeems : String → Action
  registers : String → String → String → Action
  starts : ServiceConfig → Action
  posts_result : String → String → String → Action

abbrev pub Run : Type 0
Run = Option GoError × List Action

-- env[key]
abbrev pub get_env : GoMap String → String → String
get_env env key = elim (lookup key env) [ none ↦ "" | some v ↦ v ]

-- The characters that `[^a-z0-9-]+` does not match.
abbrev is_host_char : Char → Bool
is_host_char c =
    (leb b'a' (code c) && leb (code c) b'z')
    || (leb b'0' (code c) && leb (code c) b'9')
    || eqb (code c) b'-'

-- ReplaceAllString(host, "-"): one dash for each run of other characters; `inside` is whether the
-- character before was one.
unfoldable pub dash_others : Bool → String → String
dash_others inside [] = []
dash_others inside (c ∷ s) =
    if is_host_char c
    then c ∷ dash_others false s
    else if inside
    then dash_others true s
    else "-" ∷ dash_others true s

unfoldable pub trim_dashes_left : String → String
trim_dashes_left [] = []
trim_dashes_left (c ∷ s) = if eqb (code c) b'-' then trim_dashes_left s else c ∷ s

unfoldable pub trim_dashes_right : String → String
trim_dashes_right [] = []
trim_dashes_right (c ∷ s) =
    let rest = trim_dashes_right s in if is_empty rest && eqb (code c) b'-' then [] else c ∷ rest

abbrev pub host_or_empty : Option String → String
host_or_empty none = ""
host_or_empty (some h) = h

abbrev pub or_local : String → String
or_local host = if host == "" then "local" else host

unfoldable pub default_identity_id : Option String → String → String
unfolding dash_others trim_dashes_left trim_dashes_right
default_identity_id hostname prefix =
    let host = dash_others false (to_lower (trim_space (host_or_empty hostname))) in
    prefix ++ ("_" ++ or_local (trim_dashes_right (trim_dashes_left host)))

abbrev pub first_of : String → String → String → String
first_of a b c =
    if not (trim_space a == "")
    then trim_space a
    else if not (trim_space b == "")
    then trim_space b
    else c

-- resolveInstallIdentity
unfoldable pub resolve_install_identity : Option String → GoMap String → Session → String × String
unfolding default_identity_id
resolve_install_identity hostname env session = (
  first_of (get_env env "CONNECTOR_ID") session.connector_id (default_identity_id hostname "conn"),
  first_of (get_env env "DEVICE_ID") session.device_id (default_identity_id hostname "dev"),
)

unfoldable pub check_env : List String → GoMap String → Option GoError
check_env List.[] env = none
check_env (List.◌∷◌ key keys) env =
    if trim_space (get_env env key) == ""
    then some (plain ("missing " ++ key))
    else check_env keys env

unfoldable pub validate_config : Config → GoMap String → Option GoError
unfolding check_env
validate_config cfg env =
    if trim_space cfg.label == ""
    then some (plain "missing service label")
    else if trim_space cfg.agent_binary == ""
    then some (plain "missing agent binary")
    else if trim_space cfg.plist_path == ""
    then some (plain "missing service file path")
    else check_env
        (List.◌∷◌ "CONTROL_PLANE_URL"
          (List.◌∷◌ "DEVICE_ID" (List.◌∷◌ "LOCAL_USERNAME" (List.◌∷◌ "DCAP_VERIFIER_URL" List.[]))))
        env

abbrev pub failure_reason : Config → String
failure_reason cfg =
    if trim_space cfg.install_failure_reason == ""
    then "LaunchdInstallError"
    else trim_space cfg.install_failure_reason

infixr 5 ◌then_run◌
abbrev pub ◌then_run◌ : Action → Run → Run
a then_run r = (r.0, List.◌∷◌ a r.1)

module _ (h : Host) (cfg : Config) where
  abbrev failed_with : GoError → Option GoError → GoError
  failed_with cause none = cause
  failed_with cause (some post) = wrapped "also failed to post install result" cause

  -- failInstall
  unfoldable pub fail_install : String → String → GoError → Run
  fail_install session_id reason cause = posts_result session_id "failed" reason then_run (
    some (failed_with cause (h.post_install_result session_id "failed" reason)),
    List.[],
  )

  -- env, with the identity that was resolved
  abbrev pub env_with : String × String → GoMap String
  env_with (connector_id, device_id) =
      insert "DEVICE_ID" device_id (insert "CONNECTOR_ID" connector_id cfg.env)

  abbrev pub service_of : GoMap String → ServiceConfig
  service_of env = record {
    label = cfg.label;
    agent_binary = cfg.agent_binary;
    plist_path = cfg.plist_path;
    env = env;
  }

  abbrev pub when_started : Session → Option GoError → Run
  when_started session (some e) = fail_install session.id (failure_reason cfg) e
  when_started session none =
      posts_result session.id "installed" ""
      then_run (h.post_install_result session.id "installed" "", List.[])

  abbrev pub when_registered : Session → GoMap String → Option GoError → Run
  when_registered session env (some e) = fail_install session.id "IdentityRegistrationError" e
  when_registered session env none =
      starts (service_of env) then_run when_started session (h.install_and_start (service_of env))

  abbrev pub when_valid : Session → String × String → Option GoError → Run
  when_valid session identity (some e) = fail_install session.id "InvalidConfig" e
  when_valid session identity none =
      registers session.id identity.0 identity.1
      then_run when_registered session (env_with identity)
          (h.register_install_identity session.id identity.0 identity.1)

  abbrev pub when_redeemed : Answer Session → Run
  when_redeemed (err e) = (some e, List.[])
  when_redeemed (ok session) =
      let identity = resolve_install_identity h.hostname cfg.env session in
      when_valid session identity (validate_config cfg (env_with identity))

  -- Run
  unfoldable pub run : Run
  unfolding fail_install validate_config resolve_install_identity
  run = redeems cfg.install_token then_run when_redeemed (h.redeem_install_token cfg.install_token)
