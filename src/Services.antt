-- ===== src/Services.antt =====
-- The service managers of services/local-agent/internal/install: launchd.go and systemd.go.
--
-- A run is the error that `InstallAndStart` returns with what it does on the machine, in its order.
pub mod Escapes
pub mod Quoting
pub mod Markup
pub mod Systemd
pub mod Units
pub mod Launchd
use Prim.Native.String.{◌++◌, [], ◌∷◌, compare}
use text.Mathlib.Text.{is_lt}
use enclout.Prelude.{String, Char, code, Bool, Option, none, some, List, ◌==◌, eqb, if◌then◌else◌}
use enclout.GoMap.{GoMap}
use enclout.Text.Trim.{is_empty}
use enclout.Verify.Types.{GoError}
use enclout.SshKeys.{clean}

-- What `os.MkdirAll`, `os.WriteFile` and the interface `commandRunner` answer.
pub record Machine : Type 0 where
  pub mkdir_all : String → Option GoError
  pub write_file : String → String → Option GoError
  pub run : List String → Option GoError

pub data Effect : Type 0 where
  makes_dir : String → Effect
  writes_file : String → String → Effect
  runs : List String → Effect

abbrev pub Outcome : Type 0
Outcome = Option GoError × List Effect

infixr 5 ◌then_do◌
abbrev pub ◌then_do◌ : Effect → Outcome → Outcome
e then_do o = (o.0, List.◌∷◌ e o.1)

-- if err := …; err != nil { return err }
abbrev pub unless_failed : Option GoError → Outcome → Outcome
unless_failed (some e) next = (some e, List.[])
unless_failed none next = next

-- A path up to its last slash, and what follows.
unfoldable pub split_path : String → String × String
split_path [] = ("", "")
split_path (c ∷ s) =
    let (dir, file) = split_path s in
    if is_empty dir
    then if eqb (code c) b'/' then ("/", file) else ("", c ∷ file)
    else (c ∷ dir, file)

-- filepath.Dir
unfoldable pub path_dir : String → String
unfolding split_path clean
path_dir path = clean (split_path path).0

unfoldable pub trim_slashes : String → String
trim_slashes [] = []
trim_slashes (c ∷ s) =
    let rest = trim_slashes s in
    if is_empty rest then if eqb (code c) b'/' then [] else c ∷ [] else c ∷ rest

-- filepath.Base
unfoldable pub path_base : String → String
unfolding split_path trim_slashes
path_base path =
    if path == ""
    then "."
    else if (split_path (trim_slashes path)).1 == ""
    then "/"
    else (split_path (trim_slashes path)).1

-- sort.Strings
unfoldable pub insert_string : String → List String → List String
insert_string key List.[] = List.◌∷◌ key List.[]
insert_string key (List.◌∷◌ k keys) =
    let later = List.◌∷◌ k (insert_string key keys) in
    if is_lt (compare k key) then later else List.◌∷◌ key (List.◌∷◌ k keys)

-- The keys of a map, sorted.
unfoldable pub sorted_keys : GoMap String → List String
unfolding insert_string
sorted_keys List.[] = List.[]
sorted_keys (List.◌∷◌ (key, v) env) = insert_string key (sorted_keys env)

-- The lines, each with a line feed.
unfoldable pub unlines : List String → String
unlines List.[] = []
unlines (List.◌∷◌ line lines) = line ++ (◌∷◌ "\n" (unlines lines))
