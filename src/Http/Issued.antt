-- ===== src/Http/Issued.antt =====
-- A request to the control plane makes at most one call of the store, and only if it bears the token.
use enclout.Prelude.{
  String, Bool, true, false, Option, none, some, ◌≡◌, inl, inr, refl, ◌==◌, Bool-cases,
  if◌then◌else◌,
}
use enclout.Requests.Model.{Error, Result, ok, fail, status_of}
use enclout.Requests.Store.{Store}
use enclout.Requests.Calls.{Call, decides, results, after}
use enclout.Http.{Response, ResultBody, Server, Handler, with_id, with_body, reply}
use enclout.Http.Path.{parse_id_from_path}
use enclout.Http.Auth.{bears}
use enclout.Http.Routes.{require_auth, method_only}
use enclout.Http.Memory.{Event, memory}

module _ (srv : Server) (e : Event) where
  -- The request bears the token, and says what the call is: a decision or a result is posted to the
  -- path of its request.
  abbrev pub Issued : Call → Type 0
  Issued (decides now id approved) =
      (bears srv.api_token e.request.authorization ≡ true)
      × (e.request.method ≡ "POST")
      × (parse_id_from_path e.request.path "/v1/connection-requests/" "/local-decision" ≡ some id)
      × (srv.decoders.local_decision_body e.request.body ≡ some approved)
  Issued (results now id status reason) =
      (bears srv.api_token e.request.authorization ≡ true)
      × (e.request.method ≡ "POST")
      × (parse_id_from_path e.request.path "/v1/connection-requests/" "/result" ≡ some id)
      × ((body : ResultBody) × (srv.decoders.result_body e.request.body ≡ some body)
          × (status ≡ status_of body.status)
          × (reason ≡ body.reason_code))
  Issued _ = bears srv.api_token e.request.authorization ≡ true

  -- The store is as before, or as after one call that the request issues.
  pub data Advances (s : Store) (r : Response × Store) : Type 0 where
    unchanged : r.1 ≡ s → Advances s r
    calls : (c : Call) → Issued c → r.1 ≡ after srv.sha256_hex c s → Advances s r

  module _ (s : Store) where
    pub with_id-Advances :
        (o : Option String) (h : String → Handler Store)
        → ((id : String) → o ≡ some id → Advances s (h id s))
        → Advances s (with_id o h s)
    with_id-Advances none h k = unchanged refl
    with_id-Advances (some id) h k = k id refl

    pub with_body-Advances :
        {B : Type 0} (o : Option B) (h : B → Handler Store)
        → ((body : B) → o ≡ some body → Advances s (h body s))
        → Advances s (with_body o h s)
    with_body-Advances none h k = unchanged refl
    with_body-Advances (some body) h k = k body refl

    pub reply-Advances :
        {A : Type 0} (done : A → Response) (failed : Error → Response) (p : Result A × Store)
        (c : Call)
        → Issued c
        → p.1 ≡ after srv.sha256_hex c s
        → Advances s (reply done failed p)
    reply-Advances done failed (ok a, s') c i h = calls c i h
    reply-Advances done failed (fail e' a, s') c i h = calls c i h

    pub if-Advances :
        (b : Bool) (x y : Response × Store)
        → (b ≡ true → Advances s x)
        → (b ≡ false → Advances s y)
        → Advances s (if b then x else y)
    if-Advances true x y p q = p refl
    if-Advances false x y p q = q refl

    pub require_auth-Advances :
        (h : Handler Store)
        → (bears srv.api_token e.request.authorization ≡ true → Advances s (h s))
        → Advances s (require_auth srv (memory srv.sha256_hex e) e.request e.handler_now h s)
    unfolding require_auth
    require_auth-Advances h k = elim (Bool-cases (bears srv.api_token e.request.authorization)) [
      | inl bearing ↦ rw bearing (k bearing)
      | inr strange ↦ rw strange (unchanged refl)
    ]

    pub method_only-Advances :
        (method : String) (h : Handler Store)
        → Advances s (h s)
        → Advances s (method_only srv (memory srv.sha256_hex e) e.request e.handler_now method h s)
    unfolding method_only
    method_only-Advances method h k = elim (Bool-cases (e.request.method == method)) [
      | inl fits ↦ rw fits k
      | inr other ↦ rw other (unchanged refl)
    ]
