-- ===== src/InstallCommand/Tests.antt =====
-- Runs of the command, and its theorem at concrete arguments.
use enclout.Prelude.{String, none, some, List, [], ◌∷◌, ◌≡◌, refl}
use enclout.GoMap.{lookup, insert}
use enclout.Text.Trim.{trim_space}
use enclout.Text.Prefix.{cut_prefix}
use enclout.Text.Parts.{has_prefix, has_suffix, cut_suffix, split_once, split}
use enclout.Verify.Types.{plain, ok, err}
use enclout.SshKeys.{join, clean, clean_elements, joined}
use enclout.InstallCommand.{
  Environment, defined_flags, default_systemd_unit_path, pass_env, build_install_env, service_env,
  Plan, run_with_deps,
}
use enclout.InstallCommand.Flags.{malformed, ends, argument_of, parse}
use enclout.InstallCommand.Handed.{IsHanded, run_with_deps-hands_on}

abbrev environment : Environment
environment key =
    lookup key (("HOME", "/home/alice/") ∷ ("AGENT_TOKEN", " old ") ∷ ("ALLOW_MRTD", "m") ∷ [])

abbrev args : List String
args =
    "-token" ∷ "aa" ∷ "--agent-bin=/usr/bin/agent" ∷ "-control-plane-url" ∷ "http://cp"
    ∷ "-dcap-verifier-url=http://dcap?a=b" ∷ "-agent-token" ∷ "new" ∷ "-device-id" ∷ " dev_1" ∷ []

abbrev plan : Plan
plan = record {
  control_plane_url = "http://cp";
  agent_token = "new";
  config = record {
    install_token = "aa";
    label = "ai.enclout.agent";
    agent_binary = "/usr/bin/agent";
    plist_path = "/home/alice/.config/systemd/user/ai.enclout.agent.service";
    install_failure_reason = "SystemdInstallError";
    env =
        ("CONTROL_PLANE_URL", "http://cp")
        ∷ ("LOCAL_USERNAME", "alice")
        ∷ ("DCAP_VERIFIER_URL", "http://dcap?a=b")
        ∷ ("AGENT_TOKEN", "old")
        ∷ ("ALLOW_MRTD", "m")
        ∷ ("DEVICE_ID", "dev_1")
        ∷ [];
  };
}

planned : run_with_deps "linux" args environment (some "alice") ≡ ok plan
unfolding run_with_deps parse argument_of cut_prefix has_prefix split_once defined_flags lookup
    insert service_env build_install_env pass_env trim_space default_systemd_unit_path has_suffix
    cut_suffix join clean clean_elements joined split
planned = refl

dangling_flag :
    run_with_deps "darwin" ("-token" ∷ []) environment none ≡ err (plain "flag needs an argument")
unfolding run_with_deps parse argument_of cut_prefix has_prefix split_once defined_flags lookup
dangling_flag = refl

refused_arguments :
    (argument_of "--" ≡ ends)
    × (argument_of "-=x" ≡ malformed)
    × (argument_of "---x" ≡ malformed)
    × (argument_of "word" ≡ ends)
unfolding argument_of cut_prefix has_prefix split_once
refused_arguments = (refl, refl, refl, refl)

run_with_deps-hands_on_example : IsHanded environment plan
run_with_deps-hands_on_example =
    run_with_deps-hands_on "linux" args environment (some "alice") plan planned
