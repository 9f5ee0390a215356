-- ===== src/Http/Advances.antt =====
-- Every route makes at most one call of the store, one that the request issues.
use enclout.Prelude.{
  Bool, true, not, ◌&&◌, ◌≡◌, inl, inr, refl, arith, ◌==◌, eq_iff, Bool-cases, Option-cases,
}
use enclout.Requests.Model.{status_of, install_status_of}
use enclout.Text.Prefix.{trim_prefix}
use enclout.Text.Parts.{has_prefix, has_suffix, contains}
use enclout.Requests.Store.{Store}
use enclout.Requests.Calls.{
  creates, gets, lists, decides, results, creates_session, gets_session, identifies, approves,
  installs, redeems, after,
}
use enclout.Http.{IntentBody, Server, Handler, failure, answer}
use enclout.Http.Path.{parse_id_from_path}
use enclout.Http.Auth.{bears}
use enclout.Http.Handlers.{
  create_request, list_pending_requests_for_device, local_decision, result, create_install_session,
  install_session_approval, redeem_install_token, get_install_session, install_session_result,
  install_session_registration, input_of, install_input_of, request_reply, session_reply,
  created_session, create_failed, get_failure,
}
use enclout.Http.Bundles.{attestation_bundle, signing_keys}
use enclout.Http.Intents.{
  handle, on_intent, install_reply, update_failed, intent_input, install_intent_input,
  connect_intent_input,
}
use enclout.Http.Routes.{
  method_only, connection_requests, install_sessions, exact_routes, prefix_routes, is_clean_path,
  serve, serve_install_landing,
}
use enclout.Http.Memory.{Event, memory, serve_event}
use enclout.Http.Issued.{
  Advances, unchanged, calls, reply-Advances, require_auth-Advances, method_only-Advances,
}

module _ (srv : Server) (e : Event) (s : Store) where
  module _ (b : bears srv.api_token e.request.authorization ≡ true) where
    local_decision-Advances :
        e.request.method ≡ "POST"
        → Advances srv e s (local_decision srv (memory srv.sha256_hex e) e.request s)
    unfolding local_decision after
    local_decision-Advances m =
        elim (Option-cases
          (parse_id_from_path e.request.path "/v1/connection-requests/" "/local-decision")) [
            | inl absent ↦ rw absent (unchanged refl)
            | inr (id, named) ↦
                elim (Option-cases (srv.decoders.local_decision_body e.request.body)) [
                  | inl absent ↦ rw (named, absent) (unchanged refl)
                  | inr (approved, said) ↦
                      rw (named, said)
                        (reply-Advances srv e s (request_reply 200)
                          (failure "request_expired" 500 "decision_failed")
                          ((memory srv.sha256_hex e).set_local_decision id approved s)
                          (decides e.now id approved) (b, m, named, said) refl)
                ]
          ]

    result-Advances :
        e.request.method ≡ "POST"
        → Advances srv e s (result srv (memory srv.sha256_hex e) e.request s)
    unfolding result after
    result-Advances m =
        elim (Option-cases
          (parse_id_from_path e.request.path "/v1/connection-requests/" "/result")) [
            | inl absent ↦ rw absent (unchanged refl)
            | inr (id, named) ↦ elim (Option-cases (srv.decoders.result_body e.request.body)) [
              | inl absent ↦ rw (named, absent) (unchanged refl)
              | inr (body, said) ↦
                  rw (named, said)
                    (reply-Advances srv e s (request_reply 200)
                      (failure "request_expired" 500 "result_failed")
                      ((memory srv.sha256_hex e).set_result id (status_of body.status)
                        body.reason_code s)
                      (results e.now id (status_of body.status) body.reason_code)
                      (b, m, named, (body, said, refl, refl)) refl)
            ]
          ]

    install_session_approval-Advances :
        Advances srv e s (install_session_approval srv (memory srv.sha256_hex e) e.request s)
    unfolding install_session_approval after
    install_session_approval-Advances =
        elim (Option-cases
          (parse_id_from_path e.request.path "/v1/install-sessions/" "/approval")) [
            | inl absent ↦ rw absent (unchanged refl)
            | inr (id, named) ↦
                elim (Option-cases (srv.decoders.install_approval_body e.request.body)) [
                  | inl absent ↦ rw (named, absent) (unchanged refl)
                  | inr (approved, said) ↦
                      rw (named, said)
                        (reply-Advances srv e s session_reply
                          (failure "install_session_expired" 500 "approval_failed")
                          ((memory srv.sha256_hex e).set_install_approval id approved s)
                          (approves e.now id approved) b refl)
                ]
          ]

    install_session_result-Advances :
        Advances srv e s (install_session_result srv (memory srv.sha256_hex e) e.request s)
    unfolding install_session_result after
    install_session_result-Advances =
        elim (Option-cases (parse_id_from_path e.request.path "/v1/install-sessions/" "/result")) [
          | inl absent ↦ rw absent (unchanged refl)
          | inr (id, named) ↦
              elim (Option-cases (srv.decoders.install_result_body e.request.body)) [
                | inl absent ↦ rw (named, absent) (unchanged refl)
                | inr (body, said) ↦
                    rw (named, said)
                      (reply-Advances srv e s session_reply
                        (failure "install_session_expired" 500 "result_failed")
                        ((memory srv.sha256_hex e).set_install_result id
                          (install_status_of body.status) body.reason_code s)
                        (installs e.now id (install_status_of body.status) body.reason_code) b refl)
              ]
        ]

    install_session_registration-Advances :
        Advances srv e s (install_session_registration srv (memory srv.sha256_hex e) e.request s)
    unfolding install_session_registration after
    install_session_registration-Advances =
        elim (Option-cases
          (parse_id_from_path e.request.path "/v1/install-sessions/" "/registration")) [
            | inl absent ↦ rw absent (unchanged refl)
            | inr (id, named) ↦
                elim (Option-cases (srv.decoders.registration_body e.request.body)) [
                  | inl absent ↦ rw (named, absent) (unchanged refl)
                  | inr (body, said) ↦
                      rw (named, said)
                        (reply-Advances srv e s session_reply
                          (failure "install_session_expired" 400 "registration_failed")
                          ((memory srv.sha256_hex e).set_install_identity id body.connector_id
                            body.device_id s)
                          (identifies e.now id body.connector_id body.device_id) b refl)
                ]
          ]

    get_install_session-Advances :
        Advances srv e s (get_install_session srv (memory srv.sha256_hex e) e.request s)
    unfolding get_install_session after
    get_install_session-Advances =
        elim (Option-cases (parse_id_from_path e.request.path "/v1/install-sessions/" "")) [
          | inl absent ↦ rw absent (unchanged refl)
          | inr (id, named) ↦ rw named (
              reply-Advances srv e s session_reply get_failure
                ((memory srv.sha256_hex e).get_install_session id s) (gets_session e.now id) b refl)
        ]

    create_request-Advances :
        Advances srv e s (create_request srv (memory srv.sha256_hex e) e.request s)
    unfolding create_request after
    create_request-Advances = elim (Option-cases (srv.decoders.create_body e.request.body)) [
      | inl absent ↦ rw absent (unchanged refl)
      | inr (in_, said) ↦ rw said (
          reply-Advances srv e s (request_reply 201) create_failed
            ((memory srv.sha256_hex e).create (input_of srv in_) s)
            (creates e.now e.first_draw e.second_draw (input_of srv in_)) b refl)
    ]

    create_install_session-Advances :
        Advances srv e s (create_install_session srv (memory srv.sha256_hex e) e.request s)
    unfolding create_install_session after
    create_install_session-Advances =
        elim (Option-cases (srv.decoders.create_install_body e.request.body)) [
          | inl absent ↦ rw absent (unchanged refl)
          | inr (in_, said) ↦ rw said (
              reply-Advances srv e s created_session create_failed
                ((memory srv.sha256_hex e).create_install_session (install_input_of srv in_) s)
                (creates_session e.now e.first_draw e.second_draw (install_input_of srv in_)) b
                refl)
        ]

    redeem_install_token-Advances :
        Advances srv e s (redeem_install_token srv (memory srv.sha256_hex e) e.request s)
    unfolding redeem_install_token after
    redeem_install_token-Advances = elim (Option-cases (srv.decoders.redeem_body e.request.body)) [
      | inl absent ↦ rw absent (unchanged refl)
      | inr (token, said) ↦ rw said (
          reply-Advances srv e s session_reply
            (failure "install_session_expired" 500 "redeem_failed")
            ((memory srv.sha256_hex e).redeem_install_token token s) (redeems e.now token) b refl)
    ]

    list_pending_requests_for_device-Advances :
        Advances srv e s
          (list_pending_requests_for_device srv (memory srv.sha256_hex e) e.request s)
    unfolding list_pending_requests_for_device after
    list_pending_requests_for_device-Advances =
        elim (Option-cases (parse_id_from_path e.request.path "/v1/devices/" "/pending-requests")) [
          | inl absent ↦ rw absent (unchanged refl)
          | inr (device_id, named) ↦ rw named (calls (lists e.clock device_id) b refl)
        ]

    attestation_bundle-Advances :
        Advances srv e s
          (attestation_bundle srv (memory srv.sha256_hex e) e.request e.handler_now s)
    unfolding attestation_bundle after
    attestation_bundle-Advances =
        elim (Option-cases
          (parse_id_from_path e.request.path "/v1/connection-requests/" "/attestation-bundle")) [
            | inl absent ↦ rw absent (unchanged refl)
            | inr (id, named) ↦ rw named (calls (gets e.now id) b refl)
          ]

    on_intent-Advances :
        (p : IntentBody) → Advances srv e s (on_intent srv (memory srv.sha256_hex e) e.request p s)
    unfolding after
    on_intent-Advances p = elim (Bool-cases (p.intent == "request_connector_access")) [
      | inl h ↦ rw h (
          reply-Advances srv e s (request_reply 201) create_failed
            ((memory srv.sha256_hex e).create (intent_input p) s)
            (creates e.now e.first_draw e.second_draw (intent_input p)) b refl)
      | inr h0 ↦ rw h0 (elim (Bool-cases (p.intent == "request_connector_install")) [
        | inl h ↦ rw h (
            reply-Advances srv e s (install_reply srv e.request) create_failed
              ((memory srv.sha256_hex e).create_install_session (install_intent_input p) s)
              (creates_session e.now e.first_draw e.second_draw (install_intent_input p)) b refl)
        | inr h1 ↦ rw h1 (elim (Bool-cases (p.intent == "request_connector_connect")) [
          | inl h ↦ rw h (
              reply-Advances srv e s (install_reply srv e.request) create_failed
                ((memory srv.sha256_hex e).create_install_session (connect_intent_input p) s)
                (creates_session e.now e.first_draw e.second_draw (connect_intent_input p)) b refl)
          | inr h2 ↦ rw h2 (elim (Bool-cases (p.intent == "approve_install_session")) [
            | inl h ↦ rw h (
                reply-Advances srv e s session_reply update_failed
                  ((memory srv.sha256_hex e).set_install_approval p.install_session_id p.approved s)
                  (approves e.now p.install_session_id p.approved) b refl)
            | inr h3 ↦ rw h3 (elim (Bool-cases (p.intent == "install_session_result")) [
              | inl h ↦ rw h (
                  reply-Advances srv e s session_reply update_failed
                    ((memory srv.sha256_hex e).set_install_result p.install_session_id
                      (install_status_of p.status) p.reason_code s)
                    (installs e.now p.install_session_id (install_status_of p.status) p.reason_code)
                    b refl)
              | inr h4 ↦ rw h4 (unchanged refl)
            ])
          ])
        ])
      ])
    ]

    handle-Advances : Advances srv e s (handle srv (memory srv.sha256_hex e) e.request s)
    unfolding handle
    handle-Advances = elim (Option-cases (srv.decoders.intent_body e.request.body)) [
      | inl absent ↦ rw absent (unchanged refl)
      | inr (p, said) ↦ rw said (on_intent-Advances p)
    ]

  is_post : (b : Bool) → (b && (e.request.method == "POST")) ≡ true → e.request.method ≡ "POST"
  is_post b h = ground (arith, eq_iff e.request.method "POST")

  connection_requests-Advances :
      Advances srv e s (connection_requests srv (memory srv.sha256_hex e) e.request e.handler_now s)
  unfolding connection_requests
  connection_requests-Advances =
      elim (Bool-cases
        (has_suffix e.request.path "/local-decision" && e.request.method == "POST")) [
          | inl h ↦ rw h (
              require_auth-Advances srv e s (local_decision srv (memory srv.sha256_hex e) e.request)
                λ b. local_decision-Advances b (is_post _ h))
          | inr h0 ↦
              rw h0
                (elim (Bool-cases
                  (has_suffix e.request.path "/result" && e.request.method == "POST")) [
                    | inl h ↦ rw h (
                        require_auth-Advances srv e s
                          (result srv (memory srv.sha256_hex e) e.request)
                          λ b. result-Advances b (is_post _ h))
                    | inr h1 ↦
                        rw h1
                          (elim (Bool-cases (
                            has_suffix e.request.path "/attestation-bundle"
                            && e.request.method == "GET")) [
                              | inl h ↦ rw h (
                                  require_auth-Advances srv e s
                                    (attestation_bundle srv (memory srv.sha256_hex e) e.request
                                      e.handler_now)
                                    λ b. attestation_bundle-Advances b)
                              | inr h2 ↦ rw h2 (unchanged refl)
                            ])
                  ])
        ]

  install_sessions-Advances :
      Advances srv e s (install_sessions srv (memory srv.sha256_hex e) e.request e.handler_now s)
  unfolding install_sessions
  install_sessions-Advances =
      elim (Bool-cases (
        e.request.method == "GET"
        && not (contains (trim_prefix e.request.path "/v1/install-sessions/") b'/'))) [
          | inl h ↦ rw h (
              require_auth-Advances srv e s
                (get_install_session srv (memory srv.sha256_hex e) e.request)
                λ b. get_install_session-Advances b)
          | inr h0 ↦
              rw h0
                (elim (Bool-cases
                  (has_suffix e.request.path "/approval" && e.request.method == "POST")) [
                    | inl h ↦ rw h (
                        require_auth-Advances srv e s
                          (install_session_approval srv (memory srv.sha256_hex e) e.request)
                          λ b. install_session_approval-Advances b)
                    | inr h1 ↦
                        rw h1
                          (elim (Bool-cases (
                            has_suffix e.request.path "/registration"
                            && e.request.method == "POST")) [
                              | inl h ↦ rw h (
                                  require_auth-Advances srv e s
                                    (install_session_registration srv (memory srv.sha256_hex e)
                                      e.request)
                                    λ b. install_session_registration-Advances b)
                              | inr h2 ↦
                                  rw h2
                                    (elim (Bool-cases (
                                      has_suffix e.request.path "/result"
                                      && e.request.method == "POST")) [
                                        | inl h ↦ rw h (
                                            require_auth-Advances srv e s
                                              (install_session_result srv (memory srv.sha256_hex e)
                                                e.request)
                                              λ b. install_session_result-Advances b)
                                        | inr h3 ↦ rw h3 (unchanged refl)
                                      ])
                            ])
                  ])
        ]

  prefix_routes-Advances :
      Advances srv e s (prefix_routes srv (memory srv.sha256_hex e) e.request e.handler_now s)
  prefix_routes-Advances =
      elim (Bool-cases (has_prefix e.request.path "/v1/connection-requests/")) [
        | inl h ↦ rw h (connection_requests-Advances)
        | inr h0 ↦ rw h0 (elim (Bool-cases (has_prefix e.request.path "/v1/install-sessions/")) [
          | inl h ↦ rw h (install_sessions-Advances)
          | inr h1 ↦ rw h1 (elim (Bool-cases (has_prefix e.request.path "/v1/devices/")) [
            | inl h ↦ rw h (
                require_auth-Advances srv e s
                  (method_only srv (memory srv.sha256_hex e) e.request e.handler_now "GET"
                    (list_pending_requests_for_device srv (memory srv.sha256_hex e) e.request))
                  λ b.
                    method_only-Advances srv e s "GET"
                      (list_pending_requests_for_device srv (memory srv.sha256_hex e) e.request)
                      (list_pending_requests_for_device-Advances b))
            | inr h2 ↦ rw h2 (elim (Bool-cases (e.request.path == "/v1/devices")) [
              | inl h ↦ rw h (unchanged refl)
              | inr h3 ↦ rw h3 (unchanged refl)
            ])
          ])
        ])
      ]

  exact_routes-Advances :
      (h : Handler Store)
      → Advances srv e s (h s)
      → Advances srv e s (exact_routes srv (memory srv.sha256_hex e) e.request e.handler_now h s)
  unfolding signing_keys
  exact_routes-Advances h k = elim (Bool-cases (e.request.path == "/v1/connection-requests")) [
    | inl fits ↦ rw fits (
        require_auth-Advances srv e s
          (method_only srv (memory srv.sha256_hex e) e.request e.handler_now "POST"
            (create_request srv (memory srv.sha256_hex e) e.request))
          λ b.
            method_only-Advances srv e s "POST"
              (create_request srv (memory srv.sha256_hex e) e.request) (create_request-Advances b))
    | inr h0 ↦ rw h0 (elim (Bool-cases (e.request.path == "/v1/install-sessions")) [
      | inl fits ↦ rw fits (
          require_auth-Advances srv e s
            (method_only srv (memory srv.sha256_hex e) e.request e.handler_now "POST"
              (create_install_session srv (memory srv.sha256_hex e) e.request))
            λ b.
              method_only-Advances srv e s "POST"
                (create_install_session srv (memory srv.sha256_hex e) e.request)
                (create_install_session-Advances b))
      | inr h1 ↦ rw h1 (elim (Bool-cases (e.request.path == "/v1/install-sessions/redeem")) [
        | inl fits ↦ rw fits (
            require_auth-Advances srv e s
              (method_only srv (memory srv.sha256_hex e) e.request e.handler_now "POST"
                (redeem_install_token srv (memory srv.sha256_hex e) e.request))
              λ b.
                method_only-Advances srv e s "POST"
                  (redeem_install_token srv (memory srv.sha256_hex e) e.request)
                  (redeem_install_token-Advances b))
        | inr h2 ↦ rw h2 (elim (Bool-cases (e.request.path == "/v1/openclaw/intents")) [
          | inl fits ↦ rw fits (
              require_auth-Advances srv e s
                (method_only srv (memory srv.sha256_hex e) e.request e.handler_now "POST"
                  (handle srv (memory srv.sha256_hex e) e.request))
                λ b.
                  method_only-Advances srv e s "POST"
                    (handle srv (memory srv.sha256_hex e) e.request) (handle-Advances b))
          | inr h3 ↦ rw h3 (elim (Bool-cases (e.request.path == "/v1/signing-keys")) [
            | inl fits ↦ rw fits (
                require_auth-Advances srv e s
                  (method_only srv (memory srv.sha256_hex e) e.request e.handler_now "GET"
                    (signing_keys srv (memory srv.sha256_hex e) e.request e.handler_now))
                  λ b.
                    method_only-Advances srv e s "GET"
                      (signing_keys srv (memory srv.sha256_hex e) e.request e.handler_now)
                      (unchanged refl))
            | inr h4 ↦ rw h4 (elim (Bool-cases (e.request.path == "/install")) [
              | inl fits ↦ rw fits (
                  method_only-Advances srv e s "GET" (answer (serve_install_landing srv e.request))
                    (unchanged refl))
              | inr h5 ↦ rw h5 (elim (Bool-cases (e.request.path == "/healthz")) [
                | inl fits ↦ rw fits (unchanged refl)
                | inr h6 ↦ rw h6 (k)
              ])
            ])
          ])
        ])
      ])
    ])
  ]

  -- Serving a request leaves the store as it was, or makes one call of it: then the request bears
  -- the token, and a decision or a result is posted to the path of the request that it is about,
  -- with the body that says so.
  pub serve_event-Advances : Advances srv e s (serve_event srv e s)
  unfolding serve_event serve
  serve_event-Advances = elim (Bool-cases (not (is_clean_path e.request.path))) [
    | inl h ↦ rw h (unchanged refl)
    | inr h0 ↦ rw h0 (
        exact_routes-Advances (prefix_routes srv (memory srv.sha256_hex e) e.request e.handler_now)
          prefix_routes-Advances)
  ]
