-- ===== src/Approval.antt =====
-- services/local-agent/internal/approval: how the user is asked.
--
-- What the dialog programs and the terminal answer is an argument of each source.
mod Tests
pub mod Laws
use enclout.Prelude.{String, Bool, true, false, not, ◌||◌, Option, none, some, ◌==◌, if◌then◌else◌}
use enclout.Text.Trim.{trim_space}
use enclout.Text.Prefix.{to_lower}
use enclout.Verify.Types.{GoError, plain, Answer, ok, err}

pub record RequestSummary : Type 0 where
  pub id : String
  pub connector_id : String

-- The interface `DecisionSource`.
abbrev pub DecisionSource : Type 0
DecisionSource = RequestSummary → Answer Bool

abbrev pub err_no_prompt_available : GoError
err_no_prompt_available = plain "no prompt source available"

pub record Prompter : Type 0 where
  pub native : Option DecisionSource
  pub cli : Option DecisionSource

abbrev pub ask_cli : Option DecisionSource → RequestSummary → Answer Bool
ask_cli none req = err err_no_prompt_available
ask_cli (some cli) req = cli req

-- Prompter.Confirm
unfoldable pub confirm : Prompter → RequestSummary → Answer Bool
confirm p req = elim p.native [
  | none ↦ ask_cli p.cli req
  | some native ↦ elim (native req) [ ok approved ↦ ok approved | err e ↦ ask_cli p.cli req ]
]

-- What `ReadString` gives: a line, the text before the end of the input, or another error.
pub data Line : Type 0 where
  line eof : String → Line
  broken : GoError → Line

abbrev agrees : String → Answer Bool
agrees text = let answer = trim_space (to_lower text) in ok (answer == "y" || answer == "yes")

-- CLIPrompter.Confirm
unfoldable pub cli_confirm : Line → Answer Bool
cli_confirm (line text) = agrees text
cli_confirm (eof text) = agrees text
cli_confirm (broken e) = err e

-- How `cmd.Run` ends: by a zero exit code, another one, or without a start of the program.
pub data Exit : Type 0 where
  zero_exit : Exit
  other_exit exec_error : GoError → Exit

-- NativePrompter.Confirm of native_linux.go, by `zenity`
unfoldable pub linux_confirm : Exit → Answer Bool
linux_confirm zero_exit = ok true
linux_confirm (other_exit e) = ok false
linux_confirm (exec_error e) = err e

-- NativePrompter.Confirm of native_darwin.go, by `osascript`, on the output and the exit of the
-- program
unfoldable pub darwin_confirm : String → Exit → Answer Bool
darwin_confirm out zero_exit = ok (not (out == ""))
darwin_confirm out (other_exit e) = err e
darwin_confirm out (exec_error e) = err e
