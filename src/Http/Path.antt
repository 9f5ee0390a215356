-- ===== src/Http/Path.antt =====
-- `parseIDFromPath` of services/control-plane/internal/http/handler.go
use Prim.Native.String.{◌++◌}
use text.Mathlib.TextLemmas.{append_assoc}
use enclout.Prelude.{
  String, false, not, Option, none, some, ◌≡◌, ◌≢◌, arith, ◌||◌, ◌==◌, eq_iff, if◌then◌else◌,
}
use enclout.Text.Prefix.{trim_prefix}
use enclout.Text.Parts.{
  has_prefix, has_suffix, trim_suffix, contains, cut_prefix-append, cut_suffix-append,
}

unfoldable pub parse_id_from_path : String → String → String → Option String
unfolding has_prefix has_suffix trim_prefix trim_suffix contains
parse_id_from_path path prefix suffix =
    if not (has_prefix path prefix) || not (has_suffix path suffix)
    then none
    else let s = trim_suffix (trim_prefix path prefix) suffix in
      if s == "" || contains s b'/' then none else some s

-- The identifier is read back from a path that is put together around it, if it is not empty and
-- has no slash.
pub parse_id_from_path-append :
    (prefix id suffix : String)
    → id ≢ ""
    → contains id b'/' ≡ false
    → parse_id_from_path (prefix ++ (id ++ suffix)) prefix suffix ≡ some id
unfolding parse_id_from_path
parse_id_from_path-append prefix id suffix filled plain_id =
    let behind = cut_prefix-append prefix (id ++ suffix) in
    let before = cut_suffix-append suffix id in
    let whole = cut_suffix-append suffix (prefix ++ id) in
    ground (arith, append_assoc prefix id suffix, eq_iff id "")
