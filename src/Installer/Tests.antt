-- ===== src/Installer/Tests.antt =====
-- Runs of the installer, and its theorems at a concrete host.
use enclout.Prelude.{none, some, List, [], ◌∷◌, ◌≡◌, ◌↔◌, refl}
use enclout.GoMap.{lookup, insert}
use enclout.Text.Trim.{trim_space}
use enclout.Text.Prefix.{to_lower}
use enclout.Verify.Types.{plain, ok}
use mathlib.Core.List.{Memᴰ}
use enclout.AgentCommand.{Readers, Settings, load_trusted_signing_keys, load_settings}
use enclout.Installer.Starting.{started_agent-loads}
use enclout.Installer.{
  ServiceConfig, get_env, Session, Config, Host, Action, redeems, registers, starts, posts_result,
  dash_others, trim_dashes_left, trim_dashes_right, env_with, service_of, resolve_install_identity,
  default_identity_id, validate_config, fail_install, run,
}
use enclout.Installer.Reports.{IsInstalled, count_results, install_results_once, install_run_iff}

abbrev session : Session
session = record { id = "01"; connector_id = ""; device_id = " dev_9 " }

abbrev host : Host
host = record {
  redeem_install_token = λ token. ok session;
  register_install_identity = λ id connector device. none;
  post_install_result = λ id status reason. none;
  install_and_start = λ cfg. some (plain "launchctl");
  hostname = some "My Mac.local";
}

abbrev config : Config
config = record {
  install_token = "aa";
  label = "io.enclout.agent";
  agent_binary = "/usr/local/bin/enclout-agent";
  plist_path = "/tmp/agent.plist";
  install_failure_reason = " SystemdInstallError ";
  env =
      ("CONTROL_PLANE_URL", "http://localhost:8080")
      ∷ ("LOCAL_USERNAME", "alice")
      ∷ ("DCAP_VERIFIER_URL", "http://localhost:9090")
      ∷ [];
}

abbrev failed_calls : List Action
failed_calls =
    redeems "aa"
    ∷ registers "01" "conn_my-mac-local" "dev_9"
    ∷ starts (service_of host config (env_with host config ("conn_my-mac-local", "dev_9")))
    ∷ posts_result "01" "failed" "SystemdInstallError"
    ∷ []

failed_run : run host config ≡ (some (plain "launchctl"), failed_calls)
unfolding run fail_install validate_config resolve_install_identity default_identity_id dash_others
    trim_dashes_left trim_dashes_right to_lower trim_space lookup insert
failed_run = refl

install_results_once_example : count_results (run host config).1 ≡ 1
install_results_once_example = install_results_once host config session refl

install_run_iff_example : ((run host config).0 ≡ none) ↔ IsInstalled host config
install_run_iff_example = install_run_iff host config

abbrev readers : Readers
readers = record { signing_keys_json = λ s. none; parse_duration = λ s. none }

abbrev service : ServiceConfig
service = service_of host config (env_with host config ("conn_my-mac-local", "dev_9"))

starts_service : Memᴰ (starts service) (run host config).1
starts_service = rw failed_run (Memᴰ.tail (Memᴰ.tail (Memᴰ.head refl)))

started_agent-loads_example :
    (settings : Settings) × (load_settings readers (get_env service.env) ≡ ok settings)
unfolding load_trusted_signing_keys trim_space lookup insert
started_agent-loads_example = started_agent-loads host config service readers [] starts_service refl
