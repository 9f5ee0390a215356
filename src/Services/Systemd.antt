-- ===== src/Services/Systemd.antt =====
-- services/local-agent/internal/install/systemd.go: the user unit of the agent.
use Prim.Native.String.{◌++◌}
use enclout.Services.Escapes.{systemd_escape}
use enclout.Prelude.{String, not, some, List, [], ◌∷◌, ◌==◌, if◌then◌else◌}
use enclout.GoMap.{GoMap}
use enclout.Text.Trim.{trim_space}
use enclout.Text.Parts.{has_suffix}
use enclout.Verify.Types.{plain}
use enclout.Installer.{ServiceConfig, get_env}
use enclout.Services.{
  Machine, makes_dir, writes_file, runs, Outcome, ◌then_do◌, unless_failed, path_dir, path_base,
  sorted_keys, unlines,
}

abbrev pub environment_line : GoMap String → String → String
environment_line env key =
    "Environment=\"" ++ (systemd_escape (key ++ ("=" ++ get_env env key)) ++ "\"")

unfoldable pub environment_lines : GoMap String → List String → List String → List String
environment_lines env [] rest = rest
environment_lines env (key ∷ keys) rest = environment_line env key ∷ environment_lines env keys rest

abbrev pub install_lines : List String
install_lines = "" ∷ "[Install]" ∷ "WantedBy=default.target" ∷ []

abbrev pub unit_lines : ServiceConfig → List String
unit_lines cfg =
    "[Unit]"
    ∷ "Description=Enclout Local Agent"
    ∷ "After=network-online.target"
    ∷ ""
    ∷ "[Service]"
    ∷ "Type=simple"
    ∷ ("ExecStart=" ++ cfg.agent_binary)
    ∷ "Restart=always"
    ∷ "RestartSec=2"
    ∷ environment_lines cfg.env (sorted_keys cfg.env) install_lines

-- renderSystemdUnit
unfoldable pub render_systemd_unit : ServiceConfig → String
unfolding environment_lines sorted_keys unlines
render_systemd_unit cfg = unlines (unit_lines cfg)

abbrev pub unit_name : String → String
unit_name path =
    if not (has_suffix (path_base path) ".service")
    then path_base path ++ ".service"
    else path_base path

module _ (m : Machine) (cfg : ServiceConfig) where
  abbrev pub unit_path : String
  unit_path = trim_space cfg.plist_path

  abbrev reload : List String
  reload = "systemctl" ∷ "--user" ∷ "daemon-reload" ∷ []

  abbrev enable : List String
  enable = "systemctl" ∷ "--user" ∷ "enable" ∷ "--now" ∷ unit_name unit_path ∷ []

  -- systemdInstaller.InstallAndStart
  unfoldable pub install_systemd : Outcome
  unfolding path_base path_dir
  install_systemd =
      if unit_path == ""
      then (some (plain "missing systemd unit path"), [])
      else makes_dir (path_dir unit_path)
        then_do unless_failed (m.mkdir_all (path_dir unit_path)) (
            writes_file unit_path (render_systemd_unit cfg)
            then_do unless_failed (m.write_file unit_path (render_systemd_unit cfg)) (
                runs reload
                then_do unless_failed (m.run reload) (runs enable then_do (m.run enable, []))))
