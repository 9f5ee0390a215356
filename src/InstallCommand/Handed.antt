-- ===== src/InstallCommand/Handed.antt =====
-- What the service that the command installs has in its environment.
use enclout.Prelude.{
  String, Bool, false, not, Option, none, some, List, [], ◌∷◌, ◌||◌, ◌&&◌, ◌≡◌, ◌≢◌, refl, arith,
  ◌==◌, eq_iff, inl, inr, Bool-cases, Option-cases, sym, ◌∙◌, subst,
}
use enclout.GoMap.{GoMap, lookup}
use enclout.GoMap.Laws.{lookup-insert, lookup-insert_self}
use enclout.Text.Trim.{trim_space}
use enclout.Verify.Types.{bind_ok, value_or, ok}
use enclout.Installer.{get_env}
use enclout.InstallCommand.{
  Environment, env_or_empty, passed_keys, put_filled, pass_env, build_install_env, service_env,
  Plan, plan_of, required, check_required, when_parsed, named_user, resolve_username,
  resolve_service_path, defined_flags, run_with_deps,
}
use enclout.InstallCommand.Flags.{Values, parse}

get_env-put_filled :
    (key v k : String) (out : GoMap String)
    → (key == k) ≡ false
    → get_env (put_filled key v out) k ≡ get_env out k
get_env-put_filled key v k out other = elim (Bool-cases (v == "")) [
  | inl blank ↦ rw blank refl
  | inr filled ↦ let found = lookup-insert key k v out in ground arith
]

get_env-put_filled_self :
    (k v : String) (out : GoMap String) → get_env out k ≡ "" → get_env (put_filled k v out) k ≡ v
get_env-put_filled_self k v out fresh = elim (Bool-cases (v == "")) [
  | inl blank ↦ rw blank (fresh ∙ sym ((eq_iff v "").0 blank))
  | inr filled ↦ let found = lookup-insert_self k v out in ground arith
]

unfoldable mentions : String → List String → Bool
mentions k [] = false
mentions k (key ∷ keys) = key == k || mentions k keys

get_env-pass_env :
    (keys : List String) (getenv : String → String) (k : String) (out : GoMap String)
    → mentions k keys ≡ false
    → get_env (pass_env keys getenv out) k ≡ get_env out k
unfolding pass_env mentions
get_env-pass_env [] getenv k out absent = refl
get_env-pass_env (key ∷ keys) getenv k out absent =
    get_env-pass_env keys getenv k (put_filled key (trim_space (getenv key)) out) (ground arith)
    ∙ get_env-put_filled key (trim_space (getenv key)) k out (ground arith)

module _ (lookup_env : Environment) (username : String) (values : Values) where
  abbrev given : GoMap String
  given =
      ("CONTROL_PLANE_URL", get_env values "control-plane-url")
      ∷ ("LOCAL_USERNAME", username)
      ∷ ("DCAP_VERIFIER_URL", get_env values "dcap-verifier-url")
      ∷ []

  service_env-pass_env :
      (k : String)
      → ("DEVICE_ID" == k) ≡ false
      → ("CONNECTOR_ID" == k) ≡ false
      → get_env (service_env lookup_env username values) k
        ≡ get_env (pass_env passed_keys (env_or_empty lookup_env) given) k
  unfolding service_env build_install_env
  service_env-pass_env k device connector =
      let passed = pass_env passed_keys (env_or_empty lookup_env) given in
      get_env-put_filled "DEVICE_ID" (trim_space (get_env values "device-id")) k
        (put_filled "CONNECTOR_ID" (trim_space (get_env values "connector-id")) passed) device
      ∙ get_env-put_filled "CONNECTOR_ID" (trim_space (get_env values "connector-id")) k passed
          connector

  pass_env-agent_token :
      get_env (pass_env passed_keys (env_or_empty lookup_env) given) "AGENT_TOKEN"
      ≡ trim_space (env_or_empty lookup_env "AGENT_TOKEN")
  unfolding pass_env mentions lookup
  pass_env-agent_token =
      let token = trim_space (env_or_empty lookup_env "AGENT_TOKEN") in
      get_env-pass_env
        ("DCAP_VERIFIER_TOKEN" ∷ "DCAP_VERIFIER_TIMEOUT" ∷ "MANAGED_KEYS_DIR" ∷ "ALLOW_MRTD"
          ∷ "ALLOW_RTMR3" ∷ "CONNECTOR_ID" ∷ "DEVICE_ID" ∷ "CONTROL_PLANE_SIGNING_KEYS_JSON"
          ∷ "CONTROL_PLANE_SIGNING_PUBKEY_B64" ∷ "CONTROL_PLANE_SIGNING_KID"
          ∷ "SIGNING_KEYSET_CACHE_TTL" ∷ [])
        (env_or_empty lookup_env) "AGENT_TOKEN" (put_filled "AGENT_TOKEN" token given) refl
      ∙ get_env-put_filled_self "AGENT_TOKEN" token given refl

  -- The variables that every service has.
  service_env-given :
      (get_env (service_env lookup_env username values) "CONTROL_PLANE_URL"
        ≡ get_env values "control-plane-url")
      × (get_env (service_env lookup_env username values) "LOCAL_USERNAME" ≡ username)
      × (get_env (service_env lookup_env username values) "DCAP_VERIFIER_URL"
          ≡ get_env values "dcap-verifier-url")
  unfolding mentions lookup
  service_env-given = (
    service_env-pass_env "CONTROL_PLANE_URL" refl refl
        ∙ get_env-pass_env passed_keys (env_or_empty lookup_env) "CONTROL_PLANE_URL" given refl,
    service_env-pass_env "LOCAL_USERNAME" refl refl
        ∙ get_env-pass_env passed_keys (env_or_empty lookup_env) "LOCAL_USERNAME" given refl,
    service_env-pass_env "DCAP_VERIFIER_URL" refl refl
        ∙ get_env-pass_env passed_keys (env_or_empty lookup_env) "DCAP_VERIFIER_URL" given refl,
  )

check_required-filled :
    (values : Values)
    → check_required required values ≡ none
    → (trim_space (get_env values "control-plane-url") ≢ "")
      × (trim_space (get_env values "dcap-verifier-url") ≢ "")
check_required-filled values h = ground (
  arith,
  eq_iff (trim_space (get_env values "control-plane-url")) "",
  eq_iff (trim_space (get_env values "dcap-verifier-url")) "",
)

named_user-filled :
    (o : Option String) (name : String) → named_user o ≡ ok name → trim_space name ≢ ""
named_user-filled none name h = absurd (ground arith)
named_user-filled (some user) name h = ground (arith, eq_iff (trim_space user) "")

resolve_username-filled :
    (o : Option String) (values : Values) (name : String)
    → resolve_username o values ≡ ok name
    → trim_space name ≢ ""
resolve_username-filled o values name h =
    elim (Bool-cases (trim_space (get_env values "local-username") == "")) [
      | inl blank ↦ named_user-filled o name (rw blank at h)
      | inr filled ↦ ground (arith, eq_iff (trim_space (get_env values "local-username")) "")
    ]

-- What holds of the environment of the service.
pub record IsHanded (lookup_env : Environment) (plan : Plan) : Type 0 where
  pub agent_token :
      get_env plan.config.env "AGENT_TOKEN" ≡ trim_space (env_or_empty lookup_env "AGENT_TOKEN")
  pub control_plane_url : get_env plan.config.env "CONTROL_PLANE_URL" ≡ plan.control_plane_url
  pub url_filled : trim_space (get_env plan.config.env "CONTROL_PLANE_URL") ≢ ""
  pub user_filled : trim_space (get_env plan.config.env "LOCAL_USERNAME") ≢ ""
  pub dcap_filled : trim_space (get_env plan.config.env "DCAP_VERIFIER_URL") ≢ ""

plan_of-IsHanded :
    (goos : String) (lookup_env : Environment) (values : Values) (username path : String)
    → check_required required values ≡ none
    → trim_space username ≢ ""
    → IsHanded lookup_env (plan_of goos lookup_env values username path)
plan_of-IsHanded goos lookup_env values username path checked filled =
    let (url, user, dcap) = service_env-given lookup_env username values in
    let (url_filled, dcap_filled) = check_required-filled values checked in
    record {
      agent_token =
          service_env-pass_env lookup_env username values "AGENT_TOKEN" refl refl
          ∙ pass_env-agent_token lookup_env username values;
      control_plane_url = url;
      url_filled = subst (λ v. trim_space v ≢ "") (sym url) url_filled;
      user_filled = subst (λ v. trim_space v ≢ "") (sym user) filled;
      dcap_filled = subst (λ v. trim_space v ≢ "") (sym dcap) dcap_filled;
    }

when_parsed-IsHanded :
    (goos : String) (lookup_env : Environment) (user : Option String) (values : Values)
    (plan : Plan)
    → when_parsed goos lookup_env user values ≡ ok plan
    → IsHanded lookup_env plan
when_parsed-IsHanded goos lookup_env user values plan h =
    elim (Option-cases (check_required required values)) [
      | inr (e, failed) ↦ absurd (ground arith)
      | inl checked ↦
          let h' = rw (when_parsed, checked) at h in
          let (username, e1, h1) = bind_ok (resolve_username user values) _ plan h' in
          let (path, e2, h2) =
            bind_ok (resolve_service_path goos (env_or_empty lookup_env "HOME") values) _ plan h1 in
          subst (λ a. IsHanded lookup_env (value_or plan a)) h2
            (plan_of-IsHanded goos lookup_env values username path checked
              (resolve_username-filled user values username e1))
    ]

-- The command gives the service the address of the control plane that it uses itself, a user and an
-- address of the DCAP verifier that are more than white space, and the AGENT_TOKEN of its own
-- environment: a token from the flag -agent-token does not reach the service.
pub run_with_deps-hands_on :
    (goos : String) (args : List String) (lookup_env : Environment) (user : Option String)
    (plan : Plan)
    → run_with_deps goos args lookup_env user ≡ ok plan
    → IsHanded lookup_env plan
unfolding run_with_deps
run_with_deps-hands_on goos args lookup_env user plan h =
    elim (Bool-cases (not (goos == "darwin") && not (goos == "linux"))) [
      | inl other ↦ absurd (ground arith)
      | inr known ↦
          let h' = rw known at h in
          let (values, parsed, rest) =
            bind_ok (parse args (defined_flags lookup_env)) (when_parsed goos lookup_env user) plan
              h' in
          when_parsed-IsHanded goos lookup_env user values plan rest
    ]
