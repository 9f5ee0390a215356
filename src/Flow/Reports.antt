-- ===== src/Flow/Reports.antt =====
-- What the agent reports to the control plane, and when it succeeds.
use mathlib.Core.List.{Memᴰ}
use enclout.Prelude.{
  ℕ, suc, String, Bool, true, false, Option, none, some, List, [], ◌∷◌, ◌≡◌, ◌↔◌, refl, subst,
  arith, inl, inr, eq_iff, ◌≢◌, ◌⊎◌, Memᴰ-cases,
}
use enclout.Verify.Types.{GoError, Answer, ok, err, Bundle, Crypto}
use enclout.Flow.{
  SignedBundle, Request, Runner, Action, asks, posts_decision, fetches_bundle, installs,
  posts_result, summary_of, with_answer, with_posted, process, finish,
}
use enclout.Flow.Installs.{IsCleared, process_induction, verification_induction, process_of_cleared}

-- How many results are posted.
unfoldable pub count_results : List Action → ℕ
count_results [] = 0
count_results (posts_result id status reason ∷ l) = suc (count_results l)
count_results (asks req ∷ l) = count_results l
count_results (posts_decision id approved ∷ l) = count_results l
count_results (fetches_bundle id ∷ l) = count_results l
count_results (installs user key ∷ l) = count_results l

module _ (crypto : Crypto) (r : Runner) (req : Request) where
  -- Every check has passed, the key is installed, and the control plane has taken the report.
  pub record IsConnected : Type 0 where
    pub bundle : Bundle
    pub cleared : IsCleared crypto r req bundle
    pub installed : r.install req.local_user bundle.ssh_public_key ≡ none

  finish-connected :
      (bundle : Bundle) (o : Option GoError) (id reason : String)
      → IsCleared crypto r req bundle
      → r.install req.local_user bundle.ssh_public_key ≡ o
      → Memᴰ (posts_result id "connected" reason) (finish crypto r req o).1
      → IsConnected × (id ≡ req.id)
  finish-connected bundle (some e) id reason c i h = elim (Memᴰ-cases h) [
    | inl e' ↦ absurd (ground (arith, eq_iff "connected" "verification_failed"))
    | inr rest ↦ elim rest [ ]
  ]
  finish-connected bundle none id reason c i h = elim (Memᴰ-cases h) [
    | inl e' ↦ (record { bundle = bundle; cleared = c; installed = i }, ground arith)
    | inr rest ↦ elim rest [ ]
  ]

  -- The agent reports that a request is connected only if every check has passed and the key of the
  -- bundle has been installed; it then reports on this request.
  pub connected_report :
      (id reason : String)
      → Memᴰ (posts_result id "connected" reason) (process crypto r req).1
      → IsConnected × (id ≡ req.id)
  connected_report id reason =
      process_induction crypto r req
        (λ run. Memᴰ (posts_result id "connected" reason) run.1 → IsConnected × (id ≡ req.id))
        (λ reason' e h. elim (Memᴰ-cases h) [
          | inl e' ↦ absurd (ground (arith, eq_iff "connected" "verification_failed"))
          | inr rest ↦ elim rest [ ]
        ])
        (λ bundle c h. elim (Memᴰ-cases h) [
          | inl e ↦ absurd (ground arith)
          | inr rest ↦ finish-connected bundle _ id reason c refl rest
        ])
        (λ e h. elim h [ ])
        (λ run p h. elim (Memᴰ-cases h) [ inl e ↦ absurd (ground arith) | inr rest ↦ p rest ])
        (λ approved run p h. elim (Memᴰ-cases h) [
          | inl e ↦ absurd (ground arith)
          | inr rest ↦ p rest
        ])
        (λ run p h. elim (Memᴰ-cases h) [ inl e ↦ absurd (ground arith) | inr rest ↦ p rest ])

  finish-none :
      (bundle : Bundle) (o : Option GoError)
      → IsCleared crypto r req bundle
      → r.install req.local_user bundle.ssh_public_key ≡ o
      → (finish crypto r req o).0 ≡ none
      → IsConnected × (r.post_result req.id "connected" "" ≡ none)
  finish-none bundle (some e) c i h = absurd (ground arith)
  finish-none bundle none c i h = (record { bundle = bundle; cleared = c; installed = i }, h)

  process_success :
      (process crypto r req).0 ≡ none → IsConnected × (r.post_result req.id "connected" "" ≡ none)
  process_success =
      process_induction crypto r req
        (λ run. run.0 ≡ none → IsConnected × (r.post_result req.id "connected" "" ≡ none))
        (λ reason e h. absurd (ground arith)) (λ bundle c h. finish-none bundle _ c refl h)
        (λ e h. absurd (ground arith)) (λ run p h. p h) (λ approved run p h. p h) (λ run p h. p h)

  -- `Process` returns no error exactly when every check has passed, the key of the bundle has been
  -- installed, and the control plane has taken the report that the request is connected.
  pub process_iff :
      ((process crypto r req).0 ≡ none)
      ↔ (IsConnected × (r.post_result req.id "connected" "" ≡ none))
  process_iff = (
    process_success,
    λ (c, reported).
        let shape = process_of_cleared crypto r req c.bundle c.cleared in
        let done = c.installed in ground arith,
  )

  count_results-finish : (o : Option GoError) → count_results (finish crypto r req o).1 ≡ 1
  unfolding count_results
  count_results-finish none = refl
  count_results-finish (some e) = refl

  -- Once the user has approved, the control plane has taken the decision, and the bundle is there,
  -- the agent reports exactly one result, however the verification and the installation end.
  pub results_once :
      (signed : SignedBundle)
      → r.confirm (summary_of req) ≡ ok true
      → r.post_local_decision req.id true ≡ none
      → r.get_attestation_bundle req.id ≡ ok signed
      → count_results (process crypto r req).1 ≡ 1
  unfolding count_results process
  results_once signed confirmed posted got =
      let verified =
        verification_induction crypto r req (λ run. count_results run.1 ≡ 1) (λ reason e. refl)
          (λ bundle c. count_results-finish _) signed confirmed posted got in
      rw (confirmed, posted, got) verified

  denied-calls :
      (answer : Answer Bool) (o : Option GoError) (a : Action)
      → r.confirm (summary_of req) ≡ answer
      → r.post_local_decision req.id false ≡ o
      → answer ≢ ok true
      → Memᴰ a (with_answer crypto r req answer).1
      → a ≡ posts_decision req.id false
  denied-calls (err e) o a c p denied h = elim h [ ]
  denied-calls (ok true) o a c p denied h = absurd (denied refl)
  denied-calls (ok false) (some e) a c p denied h = elim (Memᴰ-cases h) [
    | inl same ↦ same
    | inr rest ↦ elim (subst (λ o. Memᴰ a (with_posted crypto r req false o).1) p rest) [ ]
  ]
  denied-calls (ok false) none a c p denied h = elim (Memᴰ-cases h) [
    | inl same ↦ same
    | inr rest ↦ elim (subst (λ o. Memᴰ a (with_posted crypto r req false o).1) p rest) [ ]
  ]

  -- Unless the user approves the request, the agent does no more than ask and post the denial: no
  -- bundle is fetched, no key installed and no result reported.
  pub unapproved-calls :
      (a : Action)
      → r.confirm (summary_of req) ≢ ok true
      → Memᴰ a (process crypto r req).1
      → (a ≡ asks (summary_of req)) ⊎ (a ≡ posts_decision req.id false)
  unfolding process
  unapproved-calls a denied h = elim (Memᴰ-cases h) [
    | inl first ↦ inl first
    | inr rest ↦ inr (denied-calls (r.confirm (summary_of req)) _ a refl refl denied rest)
  ]
