-- ===== src/InstallCommand/Flags.antt =====
-- `flag.FlagSet` on flags that take a text, as services/local-agent/cmd/install/main.go uses it.
use enclout.Prelude.{String, none, some, List, [], ◌∷◌, ◌||◌, ◌==◌, if◌then◌else◌}
use enclout.GoMap.{GoMap, lookup, insert}
use enclout.Text.Prefix.{cut_prefix}
use enclout.Text.Parts.{has_prefix, split_once}
use enclout.Verify.Types.{plain, Answer, ok, err}

-- An argument of the command line: the end of the flags, `-name`, `-name=value`, or one that is
-- not in the form of a flag.
pub data Argument : Type 0 where
  ends malformed : Argument
  named : String → Argument
  valued : String → String → Argument

-- What stands behind the dashes. The value begins behind the first `=`.
abbrev behind_dashes : String → Argument
behind_dashes s =
    if s == "" || has_prefix s "-" || has_prefix s "="
    then malformed
    else elim (split_once s b'=') [ none ↦ named s | some (name, value) ↦ valued name value ]

-- A single dash, two dashes and a word without a dash end the flags.
unfoldable pub argument_of : String → Argument
unfolding cut_prefix has_prefix split_once
argument_of s = elim (cut_prefix "-" s) [
  | none ↦ ends
  | some one ↦
      if one == "" || one == "-"
      then ends
      else elim (cut_prefix "-" one) [ none ↦ behind_dashes one | some two ↦ behind_dashes two ]
]

abbrev pub Values : Type 0
Values = GoMap String

-- A flag that is not defined is refused, as `-h` and `-help` are.
abbrev pub set_flag : String → String → Values → (Values → Answer Values) → Answer Values
set_flag name value values next = elim (lookup name values) [
  | none ↦ err (plain "flag provided but not defined")
  | some old ↦ next (insert name value values)
]

-- FlagSet.Parse, on the defined flags with the values that they have so far
unfoldable pub parse : List String → Values → Answer Values
unfolding argument_of
parse [] values = ok values
parse (s ∷ []) values = elim (argument_of s) [
  | ends ↦ ok values
  | malformed ↦ err (plain "bad flag syntax")
  | named name ↦ elim (lookup name values) [
    | none ↦ err (plain "flag provided but not defined")
    | some old ↦ err (plain "flag needs an argument")
  ]
  | valued name value ↦ set_flag name value values ok
]
parse (s ∷ next ∷ args) values = elim (argument_of s) [
  | ends ↦ ok values
  | malformed ↦ err (plain "bad flag syntax")
  | named name ↦ set_flag name next values (parse args)
  | valued name value ↦ set_flag name value values (parse (next ∷ args))
]
