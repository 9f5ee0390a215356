-- ===== src/SshKeys.antt =====
-- services/local-agent/internal/sshkeys/manager_unix.go: how a key is written for a user.
--
-- The files are a map from paths to contents; what may go wrong in a call is an argument.
mod Tests
pub mod Atomic
use Prim.Native.String.{◌++◌}
use enclout.Prelude.{
  String, Bool, true, false, not, ◌&&◌, ◌||◌, Option, none, some, List, [], ◌∷◌, ◌==◌,
  if◌then◌else◌,
}
use enclout.GoMap.{GoMap, insert, delete}
use enclout.Text.Trim.{trim_space}
use enclout.Text.Parts.{has_prefix, split}
use enclout.Verify.Types.{GoError, plain}

-- One element of a path after the elements `kept`, the last of them first.
abbrev pop : Bool → List String → List String
pop rooted [] = if rooted then [] else ".." ∷ []
pop rooted (top ∷ kept) = if top == ".." then ".." ∷ top ∷ kept else kept

unfoldable pub clean_elements : Bool → List String → List String → List String
clean_elements rooted [] kept = kept
clean_elements rooted (e ∷ es) kept =
    clean_elements rooted es
      (if e == "" || e == "." then kept else if e == ".." then pop rooted kept else e ∷ kept)

-- The elements, the last first, with slashes between them.
unfoldable pub joined : List String → String
joined [] = ""
joined (e ∷ []) = e
joined (e ∷ f ∷ es) = joined (f ∷ es) ++ ("/" ++ e)

-- filepath.Clean
unfoldable pub clean : String → String
unfolding clean_elements joined split has_prefix
clean path =
    let body = joined (clean_elements (has_prefix path "/") (split path b'/') []) in
    if has_prefix path "/" then "/" ++ body else if body == "" then "." else body

-- filepath.Join of two elements
unfoldable pub join : String → String → String
unfolding clean
join a b =
    if a == "" && b == ""
    then ""
    else if a == ""
    then clean b
    else if b == ""
    then clean a
    else clean (a ++ ("/" ++ b))

pub data Fault : Type 0 where
  no_fault mkdir_fails rename_fails : Fault
  -- what a failed write leaves in the temporary file
  write_fails : String → Fault

abbrev pub final_path : String → String → String
final_path base_dir username = join (join base_dir username) "authorized_keys"

abbrev pub tmp_path : String → String → String
tmp_path base_dir username = final_path base_dir username ++ ".tmp"

abbrev pub write_key :
    Fault → String → String → String → GoMap String → Option GoError × GoMap String
write_key mkdir_fails final tmp content files = (some (plain "mkdir"), files)
write_key (write_fails torn) final tmp content files = (some (plain "write"), insert tmp torn files)
write_key rename_fails final tmp content files = (some (plain "rename"), insert tmp content files)
write_key no_fault final tmp content files = (none, delete tmp (insert final content files))

-- Manager.Install
unfoldable pub install :
    String → Fault → String → String → GoMap String → Option GoError × GoMap String
install base_dir fault username pub_key files =
    if username == "" || trim_space pub_key == ""
    then (some (plain "username and public key are required"), files)
    else write_key fault (final_path base_dir username) (tmp_path base_dir username)
        (trim_space pub_key ++ "\n") files
