-- ===== src/Approval/Tests.antt =====
-- Runs of the prompts, and their theorems at concrete answers.
use enclout.Prelude.{String, true, some, ◌≡◌, ◌≢◌, ◌↔◌, ◌⊎◌, refl}
use enclout.Text.Trim.{trim_space}
use enclout.Text.Prefix.{to_lower}
use enclout.Verify.Types.{plain, ok, err}
use enclout.Approval.{
  RequestSummary, Prompter, confirm, line, cli_confirm, zero_exit, darwin_confirm,
}
use enclout.Approval.Laws.{Approves, Fails, confirm_iff, darwin_confirm_iff}

abbrev req : RequestSummary
req = record { id = "01"; connector_id = "conn_1" }

-- The dialog fails, and the terminal approves.
abbrev fallback : Prompter
fallback = record {
  native = some (λ r. err (plain "no display"));
  cli = some (λ r. cli_confirm (line " YES\n"));
}

fallback_run : confirm fallback req ≡ ok true
unfolding confirm cli_confirm trim_space to_lower
fallback_run = refl

abbrev denied_out : String
denied_out = "button returned:Deny\n"

deny_run : darwin_confirm denied_out zero_exit ≡ ok true
unfolding darwin_confirm
deny_run = refl

confirm_iff_example :
    (confirm fallback req ≡ ok true)
    ↔ (Approves fallback.native req ⊎ (Fails fallback.native req × Approves fallback.cli req))
confirm_iff_example = confirm_iff fallback req

darwin_confirm_iff_example :
    (darwin_confirm denied_out zero_exit ≡ ok true) ↔ ((zero_exit ≡ zero_exit) × (denied_out ≢ ""))
darwin_confirm_iff_example = darwin_confirm_iff denied_out zero_exit
