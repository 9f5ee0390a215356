-- ===== src/Approval/Laws.antt =====
-- When an answer counts as an approval.
use enclout.Prelude.{
  String, true, Option, none, some, ◌≡◌, ◌≢◌, ◌↔◌, ◌⊎◌, arith, eq_iff, refl, inl, inr,
}
use enclout.Text.Trim.{trim_space}
use enclout.Text.Prefix.{to_lower}
use enclout.Verify.Types.{GoError, Answer-cases, ok, err}
use enclout.Approval.{
  RequestSummary, DecisionSource, Prompter, ask_cli, confirm, Line, line, eof, broken, cli_confirm,
  Exit, zero_exit, other_exit, exec_error, darwin_confirm,
}

-- The native dialog, if there is one, approves.
abbrev pub Approves : Option DecisionSource → RequestSummary → Type 0
Approves none req = ⊥
Approves (some source) req = source req ≡ ok true

-- The source is not there, or fails.
abbrev pub Fails : Option DecisionSource → RequestSummary → Type 0
Fails none req = Unit
Fails (some source) req = (e : GoError) × (source req ≡ err e)

ask_cli_iff :
    (cli : Option DecisionSource) (req : RequestSummary)
    → (ask_cli cli req ≡ ok true) ↔ Approves cli req
ask_cli_iff none req = (λ h. cc, λ h. elim h [ ])
ask_cli_iff (some cli) req = (λ h. h, λ h. h)

confirm_with_iff :
    (native cli : Option DecisionSource) (req : RequestSummary)
    → (confirm (record { native = native; cli = cli }) req ≡ ok true)
      ↔ (Approves native req ⊎ (Fails native req × Approves cli req))
unfolding confirm
confirm_with_iff none cli req = (
  λ h. inr (tt, (ask_cli_iff cli req).0 h),
  λ a. elim a [ inl n ↦ elim n [ ] | inr (f, c) ↦ (ask_cli_iff cli req).1 c ],
)
confirm_with_iff (some native) cli req = elim (Answer-cases (native req)) [
  | inl (approved, answered) ↦ (
    λ h. inl (ground arith),
    λ a. elim a [ inl n ↦ ground arith | inr ((e, failed), c) ↦ absurd (ground arith) ],
  )
  | inr (e, failed) ↦ (
    λ h. inr ((e, failed), (ask_cli_iff cli req).0 (ground arith)),
    λ a. elim a [
      | inl n ↦ absurd (ground arith)
      | inr (f, c) ↦ let asked = (ask_cli_iff cli req).1 c in ground arith
    ],
  )
]

-- A request is approved exactly when the native dialog approves it, or when there is no dialog or
-- it fails and the terminal approves it: no failure counts as an approval.
pub confirm_iff :
    (p : Prompter) (req : RequestSummary)
    → (confirm p req ≡ ok true)
      ↔ (Approves p.native req ⊎ (Fails p.native req × Approves p.cli req))
confirm_iff p req = confirm_with_iff p.native p.cli req

-- The terminal approves exactly when the text that was read, with its case and its white space at
-- the ends put aside, is `y` or `yes`. An error that is not the end of the input never does.
pub cli_confirm_iff :
    (l : Line)
    → (cli_confirm l ≡ ok true) ↔ (
        (text : String) × ((l ≡ line text) ⊎ (l ≡ eof text))
        × ((trim_space (to_lower text) ≡ "y") ⊎ (trim_space (to_lower text) ≡ "yes")))
unfolding cli_confirm
cli_confirm_iff (line text) = (
  λ h. (
    text,
    inl refl,
    ground
        (arith, eq_iff (trim_space (to_lower text)) "y", eq_iff (trim_space (to_lower text)) "yes"),
  ),
  λ (t, at_end, answer).
      ground (arith, eq_iff (trim_space (to_lower t)) "y", eq_iff (trim_space (to_lower t)) "yes"),
)
cli_confirm_iff (eof text) = (
  λ h. (
    text,
    inr refl,
    ground
        (arith, eq_iff (trim_space (to_lower text)) "y", eq_iff (trim_space (to_lower text)) "yes"),
  ),
  λ (t, at_end, answer).
      ground (arith, eq_iff (trim_space (to_lower t)) "y", eq_iff (trim_space (to_lower t)) "yes"),
)
cli_confirm_iff (broken e) = (λ h. cc, λ (t, at_end, answer). absurd (ground arith))

-- On macOS the dialog approves exactly when `osascript` ends well and prints anything at all: which
-- button it names in its output plays no part.
pub darwin_confirm_iff :
    (out : String) (exit : Exit)
    → (darwin_confirm out exit ≡ ok true) ↔ ((exit ≡ zero_exit) × (out ≢ ""))
unfolding darwin_confirm
darwin_confirm_iff out zero_exit =
    (λ h. (refl, ground (arith, eq_iff out "")), λ h. ground (arith, eq_iff out ""))
darwin_confirm_iff out (other_exit e) = (λ h. cc, λ h. cc)
darwin_confirm_iff out (exec_error e) = (λ h. cc, λ h. cc)
