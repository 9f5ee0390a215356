-- ===== src/SshKeys/Atomic.antt =====
-- A key file is never torn, and a key that is reported as installed is the whole file.
use Prim.Native.String.{◌++◌}
use enclout.Prelude.{
  String, Bool, true, false, ◌&&◌, Option, none, some, ◌≡◌, ◌≢◌, ◌||◌, refl, arith, inl, inr, ◌==◌,
  eq_iff, Bool-cases, if◌then◌else◌,
}
use enclout.GoMap.{GoMap, lookup, insert}
use enclout.GoMap.Laws.{lookup-insert, lookup-delete}
use enclout.Text.Trim.{trim_space}
use enclout.Verify.Types.{GoError}
use enclout.SshKeys.{
  Fault, no_fault, mkdir_fails, rename_fails, write_fails, final_path, tmp_path, write_key, install,
}

abbrev pub succeeds : Option GoError → Bool
succeeds none = true
succeeds (some e) = false

lookup-write_key :
    (fault : Fault) (final tmp content path : String) (files : GoMap String)
    → (path == tmp) ≡ false
    → lookup path (write_key fault final tmp content files).1 ≡ (
        if succeeds (write_key fault final tmp content files).0 && final == path
        then some content
        else lookup path files)
lookup-write_key mkdir_fails final tmp content path files other = refl
lookup-write_key (write_fails torn) final tmp content path files other =
    ground (arith, lookup-insert tmp path torn files, eq_iff tmp path, eq_iff path tmp)
lookup-write_key rename_fails final tmp content path files other =
    ground (arith, lookup-insert tmp path content files, eq_iff tmp path, eq_iff path tmp)
lookup-write_key no_fault final tmp content path files other = ground (
  arith,
  lookup-delete tmp path (insert final content files),
  lookup-insert final path content files,
  eq_iff tmp path,
  eq_iff path tmp,
)

-- Whatever goes wrong, every file but the temporary one is as it was, save the user's key file where
-- the call returns no error: this then holds exactly the trimmed key and a line feed.
pub install-lookup :
    (base_dir username pub_key path : String) (fault : Fault) (files : GoMap String)
    → path ≢ tmp_path base_dir username
    → lookup path (install base_dir fault username pub_key files).1 ≡ (
        if succeeds (install base_dir fault username pub_key files).0
          && final_path base_dir username == path
        then some (trim_space pub_key ++ "\n")
        else lookup path files)
unfolding install
install-lookup base_dir username pub_key path fault files other =
    elim (Bool-cases (username == "" || trim_space pub_key == "")) [
      | inl missing ↦ rw missing
      | inr given ↦ rw given (
          lookup-write_key fault (final_path base_dir username) (tmp_path base_dir username)
            (trim_space pub_key ++ "\n") path files
            (ground (arith, eq_iff path (tmp_path base_dir username))))
    ]
