-- ===== src/Verify/Policy.antt =====
-- services/local-agent/internal/verify/policy.go
use mathlib.Core.List.{Memᴰ}
use enclout.Prelude.{
  String, Bool, true, false, Option, none, some, List, [], ◌∷◌, ◌||◌, ◌≡◌, ◌≢◌, ◌⊎◌, ◌↔◌, inl, inr,
  refl, sym, arith, ◌==◌, eq_iff, Bool-cases, Memᴰ-cases, if◌then◌else◌,
}
use enclout.GoMap.{GoMap, lookup, insert}
use enclout.GoMap.Laws.{lookup-insert}
use enclout.Verify.Types.{
  GoError, verification_error, plain, code_of, reason_measurement_mismatch, Bundle,
}

-- map[string]struct{}
abbrev pub Set : Type 0
Set = GoMap (Unit {0})

pub record StaticPolicy : Type 0 where
  pub allowed_mrtd : Set
  pub allowed_rtmr3 : Set

-- for _, v := range values { m[v] = struct{}{} }
unfoldable pub add_all : List String → Set → Set
add_all [] m = m
add_all (v ∷ vs) m = add_all vs (insert v tt m)

unfoldable pub new_static_policy : List String → List String → StaticPolicy
unfolding add_all
new_static_policy mrtd rtmr3 = record {
  allowed_mrtd = add_all mrtd [];
  allowed_rtmr3 = add_all rtmr3 [];
}

-- len(m) > 0, and no entry at `v`
unfoldable pub forbids : Set → String → Bool
forbids [] v = false
forbids (e ∷ m) v = elim (lookup v (e ∷ m)) [ none ↦ true | some _ ↦ false ]

unfoldable pub check_measurements : StaticPolicy → Bundle → Option GoError
check_measurements p bundle =
    if forbids p.allowed_mrtd bundle.mrtd
    then some (verification_error reason_measurement_mismatch (plain "mrtd not allowed"))
    else if forbids p.allowed_rtmr3 bundle.rtmr3
    then some (verification_error reason_measurement_mismatch (plain "rtmr3 not allowed"))
    else if bundle.rtmr0 == "" || bundle.rtmr1 == "" || bundle.rtmr2 == ""
    then some
        (verification_error reason_measurement_mismatch (plain "missing runtime measurements"))
    else none

-- The list allows everything if it is empty, and its members otherwise.
abbrev pub Allows : List String → String → Type 0
Allows values v = (values ≡ []) ⊎ Memᴰ v values

lookup-add_all :
    (vs : List String) (m : Set) (v : String)
    → (Memᴰ v vs → lookup v (add_all vs m) ≡ some tt)
      × (lookup v m ≡ some tt → lookup v (add_all vs m) ≡ some tt)
      × (lookup v (add_all vs m) ≡ some tt → Memᴰ v vs ⊎ (lookup v m ≡ some tt))
unfolding add_all
lookup-add_all [] m v = (λ h. elim h [ ], λ h. h, λ h. inr h)
lookup-add_all (w ∷ vs) m v =
    let (listed, held, back) = lookup-add_all vs (insert w tt m) v in
    (
      λ h. elim (Memᴰ-cases h) [
        | inl e ↦ held (ground (arith, lookup-insert w v tt m, eq_iff w v))
        | inr rest ↦ listed rest
      ],
      λ h. held (ground (arith, lookup-insert w v tt m)),
      λ h. elim (back h) [
        | inl rest ↦ inl (Memᴰ.tail rest)
        | inr there ↦ elim (Bool-cases (w == v)) [
          | inl e ↦ inl (Memᴰ.head (sym ((eq_iff w v).0 e)))
          | inr n ↦ inr (ground (arith, lookup-insert w v tt m))
        ]
      ],
    )

add_all-nil : (vs : List String) → add_all vs [] ≡ [] → vs ≡ []
unfolding lookup
add_all-nil [] h = refl
add_all-nil (w ∷ vs) h =
    let there = (lookup-add_all (w ∷ vs) [] w).0 (Memᴰ.head refl) in ground (arith, there)

forbids-false : (m : Set) (v : String) → forbids m v ≡ false → (m ≡ []) ⊎ (lookup v m ≡ some tt)
unfolding forbids
forbids-false [] v h = inl refl
forbids-false (e ∷ m) v h = inr (ground arith)

forbids-some : (m : Set) (v : String) → lookup v m ≡ some tt → forbids m v ≡ false
unfolding forbids
forbids-some [] v h = refl
forbids-some (e ∷ m) v h = ground arith

forbids_iff : (vs : List String) (v : String) → (forbids (add_all vs []) v ≡ false) ↔ Allows vs v
unfolding lookup
forbids_iff vs v = (
  λ h. elim (forbids-false (add_all vs []) v h) [
    | inl empty ↦ inl (add_all-nil vs empty)
    | inr there ↦ elim ((lookup-add_all vs [] v).2 there) [
      | inl listed ↦ inr listed
      | inr absent ↦ cc
    ]
  ],
  λ a. elim a [
    | inl empty ↦ rw empty (unfold add_all forbids in refl)
    | inr listed ↦ forbids-some _ v ((lookup-add_all vs [] v).0 listed)
  ],
)

-- The runtime measurements 0 to 2 are there.
abbrev pub HasRuntime : Bundle → Type 0
HasRuntime b = (b.rtmr0 ≢ "") × (b.rtmr1 ≢ "") × (b.rtmr2 ≢ "")

-- The policy of two lists accepts a bundle exactly when each list is empty or holds the bundle's
-- measurement, and the runtime measurements 0 to 2 are there. An empty list allows every value.
pub check_measurements_iff :
    (mrtd rtmr3 : List String) (b : Bundle)
    → (check_measurements (new_static_policy mrtd rtmr3) b ≡ none)
      ↔ (Allows mrtd b.mrtd × Allows rtmr3 b.rtmr3 × HasRuntime b)
unfolding check_measurements new_static_policy
check_measurements_iff mrtd rtmr3 b =
    let (m, m') = forbids_iff mrtd b.mrtd in
    let (r, r') = forbids_iff rtmr3 b.rtmr3 in
    (
      λ h. (
        m (ground arith),
        r (ground arith),
        (
          ground (arith, eq_iff b.rtmr0 ""),
          ground (arith, eq_iff b.rtmr1 ""),
          ground (arith, eq_iff b.rtmr2 ""),
        ),
      ),
      λ (am, ar, rt).
          let fm = m' am in
          let fr = r' ar in
          ground (arith, fm, fr, rt, eq_iff b.rtmr0 "", eq_iff b.rtmr1 "", eq_iff b.rtmr2 ""),
    )

-- Every refusal of a policy is a measurement mismatch.
pub check_measurements-code :
    (p : StaticPolicy) (b : Bundle) (e : GoError)
    → check_measurements p b ≡ some e
    → code_of e ≡ some reason_measurement_mismatch
unfolding check_measurements
check_measurements-code p b e h = ground arith
