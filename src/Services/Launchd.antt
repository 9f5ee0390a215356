-- ===== src/Services/Launchd.antt =====
-- services/local-agent/internal/install/launchd.go: the launchd job of the agent.
--
-- `uid` is the user's number as a text. That rendering fails is not a case: it only writes to memory.
use Prim.Native.String.{◌++◌}
use enclout.Prelude.{String, List, [], ◌∷◌}
use enclout.GoMap.{GoMap}
use enclout.Installer.{ServiceConfig, get_env}
use enclout.Services.Escapes.{xml_escape}
use enclout.Services.{
  Machine, makes_dir, writes_file, runs, Outcome, ◌then_do◌, unless_failed, path_dir, sorted_keys,
  unlines,
}

-- writePlistString
abbrev pub string_line : String → String
string_line value = "<string>" ++ (xml_escape value ++ "</string>")

abbrev pub key_line : String → String
key_line key = "<key>" ++ (xml_escape key ++ "</key>")

-- writePlistKeyString, for each key
unfoldable pub plist_entries : GoMap String → List String → List String → List String
plist_entries env [] rest = rest
plist_entries env (key ∷ keys) rest =
    key_line key ∷ string_line (get_env env key) ∷ plist_entries env keys rest

abbrev pub environment_dict : GoMap String → List String → List String
environment_dict [] rest = rest
environment_dict (e ∷ env) rest =
    "<key>EnvironmentVariables</key>"
    ∷ "<dict>"
    ∷ plist_entries (e ∷ env) (sorted_keys (e ∷ env)) ("</dict>" ∷ rest)

abbrev pub plist_lines : ServiceConfig → List String
plist_lines cfg =
    "<?xml version=\"1.0\" encoding=\"UTF-8\"?>"
    ∷ "<!DOCTYPE plist PUBLIC \"-//Apple//DTD PLIST 1.0//EN\" \"http://www.apple.com/DTDs/PropertyList-1.0.dtd\">"
    ∷ "<plist version=\"1.0\">"
    ∷ "<dict>"
    ∷ key_line "Label"
    ∷ string_line cfg.label
    ∷ "<key>ProgramArguments</key>"
    ∷ "<array>"
    ∷ string_line cfg.agent_binary
    ∷ "</array>"
    ∷ "<key>RunAtLoad</key>"
    ∷ "<true/>"
    ∷ "<key>KeepAlive</key>"
    ∷ "<true/>"
    ∷ environment_dict cfg.env ("</dict>" ∷ "</plist>" ∷ [])

-- renderLaunchdPlist
unfoldable pub render_launchd_plist : ServiceConfig → String
unfolding plist_entries sorted_keys unlines
render_launchd_plist cfg = unlines (plist_lines cfg)

module _ (m : Machine) (uid : String) (cfg : ServiceConfig) where
  abbrev pub gui_target : String
  gui_target = "gui/" ++ uid

  abbrev pub service_target : String
  service_target = gui_target ++ ("/" ++ cfg.label)

  abbrev pub bootout : List String
  bootout = "launchctl" ∷ "bootout" ∷ gui_target ∷ cfg.plist_path ∷ []

  abbrev pub bootstrap : List String
  bootstrap = "launchctl" ∷ "bootstrap" ∷ gui_target ∷ cfg.plist_path ∷ []

  abbrev pub enable : List String
  enable = "launchctl" ∷ "enable" ∷ service_target ∷ []

  abbrev pub kickstart : List String
  kickstart = "launchctl" ∷ "kickstart" ∷ "-k" ∷ service_target ∷ []

  -- launchdInstaller.InstallAndStart; the error of `bootout` is dropped
  unfoldable pub install_launchd : Outcome
  unfolding path_dir
  install_launchd =
      makes_dir (path_dir cfg.plist_path)
      then_do unless_failed (m.mkdir_all (path_dir cfg.plist_path)) (
          writes_file cfg.plist_path (render_launchd_plist cfg)
          then_do unless_failed (m.write_file cfg.plist_path (render_launchd_plist cfg)) (
              runs bootout
              then_do runs bootstrap
              then_do unless_failed (m.run bootstrap) (
                  runs enable
                  then_do unless_failed (m.run enable)
                      (runs kickstart then_do (m.run kickstart, [])))))
