-- ===== src/Services/Units.antt =====
-- The environment that a unit of the installer sets, as an independent reader finds it line by line.
use Prim.Native.String.{◌++◌}
use text.Mathlib.TextLemmas.{nil-append, cons-append, append_assoc}
use enclout.Prelude.{
  Bool-cases, inl, inr, eqb, ap, ◌∙◌, All, ℕ, String, code, false, Option, none, some, List, [],
  ◌∷◌, ◌≡◌, refl, arith, All,
}
use enclout.GoMap.{GoMap}
use enclout.Text.Prefix.{cut_prefix}
use enclout.Text.Parts.{
  contains, split, split-append, split_once, split_once-append, cut_prefix-append,
}
use enclout.Installer.{ServiceConfig, get_env}
use enclout.Services.{sorted_keys, unlines}
use enclout.Services.Escapes.{replace_char, systemd_escape}
use enclout.Services.Quoting.{unquote, unquote-systemd_escape}
use enclout.Services.Systemd.{
  environment_line, environment_lines, install_lines, unit_lines, render_systemd_unit,
}

-- The assignment in the quotes that `s` begins with.
unfoldable pub quoted_assignment : String → Option (String × String)
quoted_assignment s = elim (cut_prefix "\"" s) [
  | none ↦ none
  | some inside ↦ elim (unquote false inside) [
    | none ↦ none
    | some (assignment, rest) ↦ split_once assignment b'='
  ]
]

abbrev with_variable : Option (String × String) → List (String × String) → List (String × String)
with_variable none rest = rest
with_variable (some v) rest = v ∷ rest

-- The variables that the lines set.
unfoldable pub variables_of : List String → List (String × String)
unfolding quoted_assignment
variables_of [] = []
variables_of (line ∷ lines) = elim (cut_prefix "Environment=" line) [
  | none ↦ variables_of lines
  | some value ↦ with_variable (quoted_assignment value) (variables_of lines)
]

-- The variables of a map, at some of its keys.
unfoldable pub assigned : GoMap String → List String → List (String × String)
assigned env [] = []
assigned env (key ∷ keys) = (key, get_env env key) ∷ assigned env keys

-- A variable that a unit can hold: no line feed, and no equals sign in its name.
pub record IsVariable (env : GoMap String) (key : String) : Type 0 where
  pub no_equals_sign : contains key b'=' ≡ false
  pub key_flat : contains key b'\n' ≡ false
  pub value_flat : contains (get_env env key) b'\n' ≡ false

equals-append : (v : String) → "=" ++ v ≡ String.◌∷◌ "=" v
equals-append v = rw (cons-append "=" "" v) (ap (λ s. String.◌∷◌ "=" s) (nil-append v))

quoted_assignment-line :
    (env : GoMap String) (key : String)
    → contains key b'=' ≡ false
    → quoted_assignment ("\"" ++ (systemd_escape (key ++ ("=" ++ get_env env key)) ++ "\""))
      ≡ some (key, get_env env key)
unfolding quoted_assignment
quoted_assignment-line env key h =
    let opened =
      cut_prefix-append "\"" (systemd_escape (key ++ ("=" ++ get_env env key)) ++ "\"") in
    let closed = unquote-systemd_escape (key ++ ("=" ++ get_env env key)) "" in
    let parts = split_once-append key (get_env env key) "=" b'=' h refl in
    rw (quoted_assignment, opened, closed) (rw (equals-append (get_env env key)) parts)

environment_line-parts :
    (env : GoMap String) (key : String)
    → environment_line env key
      ≡ "Environment=" ++ ("\"" ++ (systemd_escape (key ++ ("=" ++ get_env env key)) ++ "\""))
environment_line-parts env key =
    append_assoc "Environment=" "\"" (systemd_escape (key ++ ("=" ++ get_env env key)) ++ "\"")

variables_of-environment_lines :
    (env : GoMap String) (keys rest : List String)
    → All (IsVariable env) keys
    → variables_of rest ≡ []
    → variables_of (environment_lines env keys rest) ≡ assigned env keys
unfolding variables_of environment_lines assigned
variables_of-environment_lines env [] rest h none_after = none_after
variables_of-environment_lines env (key ∷ keys) rest h none_after =
    let later = variables_of-environment_lines env keys rest h.1 none_after in
    let value =
      cut_prefix-append "Environment="
        ("\"" ++ (systemd_escape (key ++ ("=" ++ get_env env key)) ++ "\"")) in
    let read = quoted_assignment-line env key h.0.no_equals_sign in
    rw (environment_line-parts env key)
      (rw (variables_of, value, read) (ap (λ l. (key, get_env env key) ∷ l) later))

contains-append :
    (p s : String) (c : ℕ)
    → contains p c ≡ false
    → contains s c ≡ false
    → contains (p ++ s) c ≡ false
unfolding contains
contains-append String.[] s c hp hs = rw (nil-append s) hs
contains-append (String.◌∷◌ d p) s c hp hs =
    rw (cons-append d p s) (ground (arith, contains-append p s c))

contains-replace_char :
    (d : ℕ) (new s : String) (c : ℕ)
    → contains new c ≡ false
    → contains s c ≡ false
    → contains (replace_char d new s) c ≡ false
unfolding contains replace_char
contains-replace_char d new String.[] c hn hs = refl
contains-replace_char d new (String.◌∷◌ e s) c hn hs =
    let rest = contains-replace_char d new s c hn (ground arith) in
    elim (Bool-cases (eqb (code e) d)) [
      | inl h ↦ rw h (contains-append new (replace_char d new s) c hn rest)
      | inr h ↦ rw h (ground arith)
    ]

environment_line-IsFlat :
    (env : GoMap String) (key : String)
    → IsVariable env key
    → contains (environment_line env key) b'\n' ≡ false
unfolding contains systemd_escape
environment_line-IsFlat env key h =
    let whole =
      contains-append key ("=" ++ get_env env key) b'\n' h.key_flat
        (contains-append "=" (get_env env key) b'\n' refl h.value_flat) in
    let slashes =
      contains-replace_char b'\\' "\\\\" (key ++ ("=" ++ get_env env key)) b'\n' refl whole in
    let quotes =
      contains-replace_char b'"' "\\\""
        (replace_char b'\\' "\\\\" (key ++ ("=" ++ get_env env key))) b'\n' refl slashes in
    contains-append "Environment=\"" (systemd_escape (key ++ ("=" ++ get_env env key)) ++ "\"")
      b'\n' refl
      (contains-append (systemd_escape (key ++ ("=" ++ get_env env key))) "\"" b'\n' quotes refl)

abbrev pub IsFlat : String → Type 0
IsFlat line = contains line b'\n' ≡ false

environment_lines-IsFlat :
    (env : GoMap String) (keys rest : List String)
    → All (IsVariable env) keys
    → All IsFlat rest
    → All IsFlat (environment_lines env keys rest)
unfolding environment_lines
environment_lines-IsFlat env [] rest h hr = hr
environment_lines-IsFlat env (key ∷ keys) rest h hr =
    (environment_line-IsFlat env key h.0, environment_lines-IsFlat env keys rest h.1 hr)

variables_of-cons :
    (line : String) (a b : List String)
    → variables_of a ≡ variables_of b
    → variables_of (line ∷ a) ≡ variables_of (line ∷ b)
unfolding variables_of
variables_of-cons line a b e =
    ap
      (λ l. elim (cut_prefix "Environment=" line) [
        | none ↦ l
        | some value ↦ with_variable (quoted_assignment value) l
      ])
      e

variables_of_nothing : variables_of (split "" b'\n') ≡ []
unfolding variables_of split cut_prefix
variables_of_nothing = refl

variables_of-split :
    (lines : List String)
    → All IsFlat lines
    → variables_of (split (unlines lines) b'\n') ≡ variables_of lines
unfolding unlines variables_of
variables_of-split [] h = variables_of_nothing
variables_of-split (line ∷ lines) h =
    rw (split-append line (unlines lines) "\n" b'\n' h.0 refl)
      (variables_of-cons line (split (unlines lines) b'\n') lines (variables_of-split lines h.1))

variables_of-exec :
    (binary : String) (rest : List String)
    → variables_of (("ExecStart=" ++ binary) ∷ rest) ≡ variables_of rest
unfolding variables_of cut_prefix
variables_of-exec binary rest =
    rw (cons-append "E" "xecStart=" binary) (rw (cons-append "x" "ecStart=" binary) refl)

variables_of-unit :
    (cfg : ServiceConfig)
    → variables_of (unit_lines cfg)
      ≡ variables_of (environment_lines cfg.env (sorted_keys cfg.env) install_lines)
unfolding variables_of cut_prefix
variables_of-unit cfg = variables_of-exec cfg.agent_binary (
    "Restart=always"
    ∷ "RestartSec=2"
    ∷ environment_lines cfg.env (sorted_keys cfg.env) install_lines)

variables_of_install : variables_of install_lines ≡ []
unfolding variables_of cut_prefix
variables_of_install = refl

unit_lines-IsFlat :
    (cfg : ServiceConfig)
    → IsFlat cfg.agent_binary
    → All (IsVariable cfg.env) (sorted_keys cfg.env)
    → All IsFlat (unit_lines cfg)
unfolding contains
unit_lines-IsFlat cfg binary h = (
  refl,
  (
    refl,
    (
      refl,
      (
        refl,
        (
          refl,
          (
            refl,
            (
              contains-append "ExecStart=" cfg.agent_binary b'\n' refl binary,
              (
                refl,
                (
                  refl,
                  environment_lines-IsFlat cfg.env (sorted_keys cfg.env) install_lines h
                      (refl, (refl, (refl, tt))),
                ),
              ),
            ),
          ),
        ),
      ),
    ),
  ),
)

-- The unit that the installer writes sets exactly the variables of the service, sorted by name and
-- with their values as they are, whatever backslashes, quotes and other characters these contain; but
-- no name or value may have a line feed, nor the path of the program, and no name an equals sign.
pub variables_of-render_systemd_unit :
    (cfg : ServiceConfig)
    → IsFlat cfg.agent_binary
    → All (IsVariable cfg.env) (sorted_keys cfg.env)
    → variables_of (split (render_systemd_unit cfg) b'\n') ≡ assigned cfg.env (sorted_keys cfg.env)
unfolding render_systemd_unit
variables_of-render_systemd_unit cfg binary h =
    variables_of-split (unit_lines cfg) (unit_lines-IsFlat cfg binary h)
    ∙ variables_of-unit cfg
    ∙ variables_of-environment_lines cfg.env (sorted_keys cfg.env) install_lines h
        variables_of_install
