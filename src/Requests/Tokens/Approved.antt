-- ===== src/Requests/Tokens/Approved.antt =====
-- No redemption without an approval of that session.
use enclout.Prelude.{
  String, Option, some, List, [], ◌∷◌, ◌≡◌, ◌⊎◌, inl, inr, ap, arith, ◌==◌, eq_iff, Bool-cases,
}
use enclout.GoMap.{lookup}
use enclout.GoMap.Laws.{lookup-insert}
use enclout.Requests.Model.{InstallStatus, Time, InstallSession, ok}
use enclout.Requests.Store.{Store, new_store}
use enclout.Requests.Install.{redeem_install_token}
use enclout.Requests.Calls.{Call, after, run}
use enclout.Requests.Lifecycle.Approval.{Some, here, there}
use enclout.Requests.Tokens.Changes.{
  Change, keep, rewrite, amend, finish, spend, add, approving, after-Change,
}
use enclout.Requests.Tokens.Invariant.{run-IsWellFormed}
use enclout.Requests.Tokens.OneTime.{redeemed_iff}

abbrev IsApproved : String → Store → Type 0
IsApproved k s =
    (x : InstallSession) × (lookup k s.install_sessions ≡ some x)
    × (x.status ≡ InstallStatus.approved)

IsApproved-step :
    (t a : Option String) (s s' : Store) (k : String)
    → Change t a s s'
    → IsApproved k s'
    → IsApproved k s ⊎ (a ≡ some k)
IsApproved-step t a s s' k (keep sessions tokens) (y, found, st) = inl (y, rw sessions at found, st)
IsApproved-step t a s s' k (rewrite id x at_id e) (y, found, st) = inl (
  y,
  ground
      (arith, ap (λ t. t.install_sessions) e, lookup-insert id k x s.install_sessions, eq_iff id k),
  st,
)
IsApproved-step t a s s' k (amend id x x' at_id f fits why e) (y, found, st) =
    elim (Bool-cases (id == k)) [
      | inl here_k ↦ elim why [
        | inl same ↦ inl (
          x,
          ground (arith, eq_iff id k),
          ground (arith, ap (λ t. t.install_sessions) e, lookup-insert id k x' s.install_sessions),
        )
        | inr approves ↦ inr (ground (arith, eq_iff id k))
      ]
      | inr elsewhere ↦ inl (
        y,
        ground (arith, ap (λ t. t.install_sessions) e, lookup-insert id k x' s.install_sessions),
        st,
      )
    ]
IsApproved-step t a s s' k (finish id x x' at_id f closed e) (y, found, st) = inl (
  y,
  ground (arith, ap (λ t. t.install_sessions) e, lookup-insert id k x' s.install_sessions),
  st,
)
IsApproved-step t a s s' k (spend id x at_id e) (y, found, st) =
    inl (y, rw (ap (λ t. t.install_sessions) e) at found, st)
IsApproved-step t a s s' k (add x d issues new e) (y, found, st) = inl (
  y,
  ground (arith, ap (λ t. t.install_sessions) e, lookup-insert x.id k x s.install_sessions),
  st,
)

module _ (sha256_hex : String → String) where
  run-IsApproved :
      (cs : List Call) (s : Store) (k : String)
      → IsApproved k (run sha256_hex cs s)
      → IsApproved k s ⊎ Some (λ c. approving c ≡ some k) cs
  unfolding run
  run-IsApproved [] s k h = inl h
  run-IsApproved (c ∷ cs) s k h = elim (run-IsApproved cs (after sha256_hex c s) k h) [
    | inl approved ↦ elim (IsApproved-step _ _ s _ k (after-Change sha256_hex c s) approved) [
      | inl before ↦ inl before
      | inr now ↦ inr (here now)
    ]
    | inr later ↦ inr (there later)
  ]

  -- If a token is redeemed after some calls on an empty store, then one of these calls approved the
  -- session that is returned.
  pub redeemed-approved :
      (cs : List Call) (now : Time) (token : String) (x : InstallSession)
      → (redeem_install_token sha256_hex now token (run sha256_hex cs new_store)).0 ≡ ok x
      → Some (λ c. approving c ≡ some x.id) cs
  unfolding lookup
  redeemed-approved cs now token x h =
      let (k, known, found, approved, early) = (redeemed_iff sha256_hex now token _ x).0 h in
      let same = (run-IsWellFormed sha256_hex cs).keyed k x found in
      elim (run-IsApproved cs new_store k (x, found, approved)) [
        | inl (y, absent, st) ↦ cc
        | inr approves ↦ rw same approves
      ]
