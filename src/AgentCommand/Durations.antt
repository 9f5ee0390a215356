-- ===== src/AgentCommand/Durations.antt =====
-- Durations in the agent's settings (services/local-agent/cmd/agent/main.go): `strconv.Atoi` and
-- parseDurationOrDefault. `time.ParseDuration` is an argument.
use Prim.Native.String.{[], ◌∷◌}
use enclout.Prelude.{
  ℕ, zero, suc, ◌+◌, ◌-◌, ◌*◌, ◌%◌, ◌^◌, ◌<◌, ◌≤◌, String, code, false, ◌&&◌, Option, none, some,
  ◌≡◌, arith, ◌≢◌, leb, ltb, ◌==◌, eq_iff, ℤ, pos, negsuc, is_positive, if◌then◌else◌,
}
use enclout.Text.Trim.{trim_space}
use enclout.Text.Prefix.{cut_prefix}

-- The number of the decimal digits of `s`, behind those that make `n`.
unfoldable pub digits_from : ℕ → String → Option ℕ
digits_from n [] = some n
digits_from n (c ∷ s) =
    let rest = digits_from (10 * n + (code c - b'0')) s in
    if leb b'0' (code c) && leb (code c) b'9' then rest else none

unfoldable pub digits : String → Option ℕ
unfolding digits_from
digits [] = none
digits (c ∷ s) = digits_from 0 (c ∷ s)

abbrev opposite : ℕ → ℤ
opposite zero = pos 0
opposite (suc n) = negsuc n

abbrev in_range : ℕ → ℕ → ℤ → Option ℤ
in_range bound n value = if ltb n bound then some value else none

abbrev non_negative : Option ℕ → Option ℤ
non_negative none = none
non_negative (some n) = in_range (2 ^ 63) n (pos n)

abbrev non_positive : Option ℕ → Option ℤ
non_positive none = none
non_positive (some n) = in_range (2 ^ 63 + 1) n (opposite n)

-- strconv.Atoi, into 64 bits
unfoldable pub atoi : String → Option ℤ
unfolding digits cut_prefix
atoi s = elim (cut_prefix "-" s) [
  | some rest ↦ non_positive (digits rest)
  | none ↦ elim (cut_prefix "+" s) [
    | some rest ↦ non_negative (digits rest)
    | none ↦ non_negative (digits s)
  ]
]

-- The signed number of 64 bits that a product of two positive ones wraps to.
unfoldable pub wrap64 : ℕ → ℤ
wrap64 n = if ltb (n % 2 ^ 64) (2 ^ 63) then pos (n % 2 ^ 64) else negsuc (2 ^ 64 - 1 - n % 2 ^ 64)

-- time.Second, in nanoseconds
abbrev pub second : ℕ
second = 1000000000

abbrev pub positive_or : ℤ → Option ℤ → ℤ
positive_or fallback none = fallback
positive_or fallback (some d) = if is_positive d then d else fallback

-- The number of seconds of a whole number, if it is positive.
abbrev pub seconds_of : Option ℤ → Option ℕ
seconds_of none = none
seconds_of (some (pos zero)) = none
seconds_of (some (pos (suc n))) = some (suc n)
seconds_of (some (negsuc n)) = none

-- parseDurationOrDefault
unfoldable pub parse_duration_or_default : (String → Option ℤ) → String → ℤ → ℤ
parse_duration_or_default parse_duration raw fallback =
    if trim_space raw == "" then fallback else elim (seconds_of (atoi (trim_space raw))) [
      | some seconds ↦ wrap64 (seconds * second)
      | none ↦ positive_or fallback (parse_duration (trim_space raw))
    ]

wrap64-exact : (n : ℕ) → n < 2 ^ 63 → wrap64 n ≡ pos n
unfolding wrap64
wrap64-exact n small = ground arith

wrap64-wrapped : (n : ℕ) → 2 ^ 63 ≤ n → n < 2 ^ 64 → is_positive (wrap64 n) ≡ false
unfolding wrap64
wrap64-wrapped n large bounded = ground arith

whole_seconds :
    (parse_duration : String → Option ℤ) (raw : String) (fallback : ℤ) (n : ℕ)
    → trim_space raw ≢ ""
    → atoi (trim_space raw) ≡ some (pos (suc n))
    → parse_duration_or_default parse_duration raw fallback ≡ wrap64 (suc n * second)
unfolding parse_duration_or_default
whole_seconds parse_duration raw fallback n filled read =
    rw read (ground (arith, eq_iff (trim_space raw) ""))

-- A setting that is a whole number counts seconds as long as these are at most 9223372036. From
-- the next number up to 18446744073 the product wraps in 64 bits to a duration that is not positive,
-- although the number is.
pub parse_duration_or_default-seconds :
    (parse_duration : String → Option ℤ) (raw : String) (fallback : ℤ) (n : ℕ)
    → trim_space raw ≢ ""
    → atoi (trim_space raw) ≡ some (pos (suc n))
    → (n < 9223372036
        → parse_duration_or_default parse_duration raw fallback ≡ pos (suc n * second))
      × (9223372036 ≤ n
          → n < 18446744073
          → is_positive (parse_duration_or_default parse_duration raw fallback) ≡ false)
parse_duration_or_default-seconds parse_duration raw fallback n filled read =
    let whole = whole_seconds parse_duration raw fallback n filled read in
    (
      λ small. rw whole (wrap64-exact (suc n * second) (omega arith)),
      λ large bounded. rw whole (wrap64-wrapped (suc n * second) (omega arith) (omega arith)),
    )
