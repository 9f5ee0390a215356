-- ===== src/Requests/Tokens/Invariant.antt =====
-- The invariant of the sessions and their tokens, kept by every call.
use enclout.Prelude.{
  String, true, false, some, List, [], ◌∷◌, ◌≡◌, ◌⊎◌, inl, inr, refl, sym, ap, Option, ◌∙◌, arith,
  ◌==◌, eq_iff, eq_refl, Bool-cases,
}
use enclout.GoMap.{lookup, insert, delete_where}
use enclout.GoMap.Laws.{lookup-insert, lookup-delete_where, keep_unless}
use enclout.Requests.Model.{InstallStatus, InstallSession}
use enclout.Requests.Store.{Store, new_store}
use enclout.Requests.Calls.{Call, after, run}
use enclout.Requests.Tokens.Changes.{
  is_open, HasIdentity, Move, stay, approve, deny, lapse, install, give_up, Change, keep, rewrite,
  amend, finish, spend, add, after-Change,
}

pub record IsWellFormed (s : Store) : Type 0 where
  -- A session stands at its own identifier.
  pub keyed : (k : String) (x : InstallSession) → lookup k s.install_sessions ≡ some x → x.id ≡ k
  -- A token leads to a session that can still be installed.
  pub live :
      (d k : String)
      → lookup d s.install_tokens ≡ some k
      → (x : InstallSession) × (lookup k s.install_sessions ≡ some x) × (is_open x.status ≡ true)
  -- An installed session has both identifiers.
  pub identified :
      (k : String) (x : InstallSession)
      → lookup k s.install_sessions ≡ some x
      → x.status ≡ InstallStatus.installed
      → HasIdentity x

-- An entry that is written in place of the one at its key.
module _ (s : Store) (w : IsWellFormed s) (id : String) (x x' : InstallSession)
    (found : lookup id s.install_sessions ≡ some x) (same_id : x'.id ≡ x.id) (s' : Store)
    (written : s'.install_sessions ≡ insert id x' s.install_sessions) where
  -- Tokens that stay lead elsewhere, or to a session that is still open.
  abbrev KeepsTokens : Type 0
  KeepsTokens =
      (d k : String)
      → lookup d s'.install_tokens ≡ some k
      → (lookup d s.install_tokens ≡ some k) × (((id == k) ≡ false) ⊎ (is_open x'.status ≡ true))

  put-live :
      KeepsTokens
      → (d k : String) → lookup d s'.install_tokens ≡ some k
      → (y : InstallSession) × (lookup k s'.install_sessions ≡ some y) × (is_open y.status ≡ true)
  put-live tokens d k e =
      let (kept, fits) = tokens d k e in
      let (y, known, fine) = w.live d k kept in
      elim (Bool-cases (id == k)) [
        | inl here ↦ (
          x',
          ground (arith, written, lookup-insert id k x' s.install_sessions),
          ground (arith, fits),
        )
        | inr there ↦
            (y, ground (arith, written, lookup-insert id k x' s.install_sessions, known), fine)
      ]

  put-IsWellFormed :
      KeepsTokens → (x'.status ≡ InstallStatus.installed → HasIdentity x') → IsWellFormed s'
  put-IsWellFormed tokens identity = record {
    keyed = λ k y e. ground (
      arith,
      written,
      lookup-insert id k x' s.install_sessions,
      w.keyed k y,
      w.keyed id x,
      eq_iff id k,
    );
    live = put-live tokens;
    identified = λ k y e st.
        ground
          (arith, written, lookup-insert id k x' s.install_sessions, w.identified k y, identity);
  }

-- What a deletion by session leaves was there, and belongs to another session.
keep_unless-some :
    (id k : String) (o : Option String)
    → keep_unless (λ sid. sid == id) o ≡ some k
    → (o ≡ some k) × ((k == id) ≡ false)
keep_unless-some id k o h = ground arith

eq_comm : (a b : String) → (a == b) ≡ false → (b == a) ≡ false
eq_comm a b h = ground (arith, eq_iff a b, eq_iff b a)

-- Only `install` leads to an installed session.
Move-HasIdentity :
    (x x' : InstallSession)
    → Move x x'
    → is_open x'.status ≡ false
    → x'.status ≡ InstallStatus.installed
    → HasIdentity x'
Move-HasIdentity x x' (install e e' p) c i = p
Move-HasIdentity x x' (stay e o) c i = ground arith
Move-HasIdentity x x' (approve e e') c i = cc
Move-HasIdentity x x' (deny e e') c i = cc
Move-HasIdentity x x' (lapse t l o e') c i = cc
Move-HasIdentity x x' (give_up e e') c i = cc

module _ (s : Store) (w : IsWellFormed s) where
  deleted_tokens :
      (id d k : String) (s' : Store)
      → s'.install_tokens ≡ delete_where (λ sid. sid == id) s.install_tokens
      → lookup d s'.install_tokens ≡ some k
      → (lookup d s.install_tokens ≡ some k) × ((k == id) ≡ false)
  deleted_tokens id d k s' e h =
      keep_unless-some id k (lookup d s.install_tokens) (
        sym (lookup-delete_where (λ sid. sid == id) d s.install_tokens) ∙ ap (lookup d) (sym e) ∙ h)

  rewritten :
      (id : String) (x : InstallSession)
      → lookup id s.install_sessions ≡ some x
      → (d k : String) → lookup d s.install_tokens ≡ some k
      → (lookup d s.install_tokens ≡ some k) × (((id == k) ≡ false) ⊎ (is_open x.status ≡ true))
  rewritten id x found d k h =
      let (y, known, fine) = w.live d k h in
      (
        h,
        elim (Bool-cases (id == k)) [
          | inl here ↦ inr (ground (arith, eq_iff id k, known, fine))
          | inr there ↦ inl there
        ],
      )

  added-live :
      (s' : Store) (x : InstallSession) (d : String)
      → x.status ≡ InstallStatus.requested
      → s' ≡ record s {
        install_sessions = insert x.id x s.install_sessions;
        install_tokens = insert d x.id s.install_tokens;
      }
      → (j k : String) → lookup j s'.install_tokens ≡ some k
      → (y : InstallSession) × (lookup k s'.install_sessions ≡ some y) × (is_open y.status ≡ true)
  added-live s' x d new e j k h = elim (Bool-cases (x.id == k)) [
    | inl here ↦ (
      x,
      ground (arith, ap (λ t. t.install_sessions) e, lookup-insert x.id k x s.install_sessions),
      ground arith,
    )
    | inr there ↦
        let old : lookup j s.install_tokens ≡ some k = ground (
          arith,
          ap (λ t. t.install_tokens) e,
          lookup-insert d j x.id s.install_tokens,
          eq_refl k,
        ) in
        let (y, known, fine) = w.live j k old in
        (
          y,
          ground (
            arith,
            ap (λ t. t.install_sessions) e,
            lookup-insert x.id k x s.install_sessions,
            known,
          ),
          fine,
        )
  ]

  Change-IsWellFormed : (t a : Option String) (s' : Store) → Change t a s s' → IsWellFormed s'
  Change-IsWellFormed t a s' (keep sessions tokens) = record {
    keyed = λ k x e. w.keyed k x (ground (arith, sessions));
    live = λ d k e. rw sessions (w.live d k (rw tokens at e));
    identified = λ k x e. w.identified k x (rw sessions at e);
  }
  Change-IsWellFormed t a s' (rewrite id x found e) =
      put-IsWellFormed s w id x x found refl s' (ap (λ t. t.install_sessions) e)
        (λ d k h. rewritten id x found d k (rw (ap (λ t. t.install_tokens) e) at h))
        (w.identified id x found)
  Change-IsWellFormed t a s' (amend id x x' found f fits why e) =
      put-IsWellFormed s w id x x' found f.id s' (ap (λ t. t.install_sessions) e)
        (λ d k h. (rw (ap (λ t. t.install_tokens) e) at h, inr fits)) (λ i. ground arith)
  Change-IsWellFormed t a s' (finish id x x' found f closed e) =
      put-IsWellFormed s w id x x' found f.id s' (ap (λ t. t.install_sessions) e)
        (λ d k h.
          let (kept, other) = deleted_tokens x.id d k s' (ap (λ t. t.install_tokens) e) h in
          (kept, inl (ground (arith, w.keyed id x found, eq_iff k x.id, eq_iff id k))))
        (Move-HasIdentity x x' f.move closed)
  Change-IsWellFormed t a s' (spend id x found e) = record {
    keyed = λ k y h. w.keyed k y (rw (ap (λ t. t.install_sessions) e) at h);
    live = λ d k h.
        let (kept, other) = deleted_tokens x.id d k s' (ap (λ t. t.install_tokens) e) h in
        rw (ap (λ t. t.install_sessions) e) (w.live d k kept);
    identified = λ k y h. w.identified k y (rw (ap (λ t. t.install_sessions) e) at h);
  }
  Change-IsWellFormed t a s' (add x d issued new e) = record {
    keyed = λ k y h. ground (
      arith,
      ap (λ t. t.install_sessions) e,
      lookup-insert x.id k x s.install_sessions,
      w.keyed k y,
      eq_iff x.id k,
    );
    live = added-live s' x d new e;
    identified = λ k y h i. ground (
      arith,
      ap (λ t. t.install_sessions) e,
      lookup-insert x.id k x s.install_sessions,
      w.identified k y,
    );
  }

new_store-IsWellFormed : IsWellFormed new_store
unfolding lookup
new_store-IsWellFormed = record {
  keyed = λ k x e. cc;
  live = λ d k e. cc;
  identified = λ k x e i. cc;
}

module _ (sha256_hex : String → String) where
  pub after-IsWellFormed :
      (c : Call) (s : Store) → IsWellFormed s → IsWellFormed (after sha256_hex c s)
  after-IsWellFormed c s w = Change-IsWellFormed s w _ _ _ (after-Change sha256_hex c s)

  run_from-IsWellFormed :
      (cs : List Call) (s : Store) → IsWellFormed s → IsWellFormed (run sha256_hex cs s)
  unfolding run
  run_from-IsWellFormed [] s w = w
  run_from-IsWellFormed (c ∷ cs) s w =
      run_from-IsWellFormed cs (after sha256_hex c s) (after-IsWellFormed c s w)

  -- After any calls on an empty store, each session stands at its own identifier, each token leads
  -- to a session that is requested or approved, and each installed session has a connector and a
  -- device that are more than white space.
  pub run-IsWellFormed : (cs : List Call) → IsWellFormed (run sha256_hex cs new_store)
  run-IsWellFormed cs = run_from-IsWellFormed cs new_store new_store-IsWellFormed
