-- ===== src/Installer/Checks.antt =====
-- What the installer requires of its settings, and which identity it resolves.
use enclout.Prelude.{String, false, none, ◌≡◌, ◌≢◌, inl, inr, refl, arith, ◌==◌, eq_iff, Bool-cases}
use enclout.GoMap.{GoMap}
use enclout.Text.Trim.{trim_space}
use enclout.Installer.{Config, get_env, first_of, check_env, validate_config}

-- The settings are complete: these texts are more than white space.
pub record IsComplete (cfg : Config) (env : GoMap String) : Type 0 where
  pub label : trim_space cfg.label ≢ ""
  pub agent_binary : trim_space cfg.agent_binary ≢ ""
  pub plist_path : trim_space cfg.plist_path ≢ ""
  pub control_plane_url : trim_space (get_env env "CONTROL_PLANE_URL") ≢ ""
  pub device_id : trim_space (get_env env "DEVICE_ID") ≢ ""
  pub local_user : trim_space (get_env env "LOCAL_USERNAME") ≢ ""
  pub dcap_url : trim_space (get_env env "DCAP_VERIFIER_URL") ≢ ""

pub validate_config-IsComplete :
    (cfg : Config) (env : GoMap String) → validate_config cfg env ≡ none → IsComplete cfg env
unfolding validate_config check_env
validate_config-IsComplete cfg env h = record {
  label = ground (arith, eq_iff (trim_space cfg.label) "");
  agent_binary = ground (arith, eq_iff (trim_space cfg.agent_binary) "");
  plist_path = ground (arith, eq_iff (trim_space cfg.plist_path) "");
  control_plane_url = ground (arith, eq_iff (trim_space (get_env env "CONTROL_PLANE_URL")) "");
  device_id = ground (arith, eq_iff (trim_space (get_env env "DEVICE_ID")) "");
  local_user = ground (arith, eq_iff (trim_space (get_env env "LOCAL_USERNAME")) "");
  dcap_url = ground (arith, eq_iff (trim_space (get_env env "DCAP_VERIFIER_URL")) "");
}

ne_blank : (s : String) → trim_space s ≢ "" → (trim_space s == "") ≡ false
ne_blank s h = ground (arith, eq_iff (trim_space s) "")

pub validate_config_of_IsComplete :
    (cfg : Config) (env : GoMap String) → IsComplete cfg env → validate_config cfg env ≡ none
unfolding validate_config check_env
validate_config_of_IsComplete cfg env c =
    rw
      (
        ne_blank cfg.label c.label,
        ne_blank cfg.agent_binary c.agent_binary,
        ne_blank cfg.plist_path c.plist_path,
        ne_blank (get_env env "CONTROL_PLANE_URL") c.control_plane_url,
        ne_blank (get_env env "DEVICE_ID") c.device_id,
        ne_blank (get_env env "LOCAL_USERNAME") c.local_user,
        ne_blank (get_env env "DCAP_VERIFIER_URL") c.dcap_url,
      )
      refl

-- The first of the texts that is more than white space, trimmed, or else the third as it is.
pub record IsFirst (a b c chosen : String) : Type 0 where
  pub first : trim_space a ≢ "" → chosen ≡ trim_space a
  pub second : trim_space a ≡ "" → trim_space b ≢ "" → chosen ≡ trim_space b
  pub third : trim_space a ≡ "" → trim_space b ≡ "" → chosen ≡ c

pub first_of-IsFirst : (a b c : String) → IsFirst a b c (first_of a b c)
first_of-IsFirst a b c = record {
  first = λ h. ground (arith, eq_iff (trim_space a) "");
  second = λ h k. ground (arith, eq_iff (trim_space a) "", eq_iff (trim_space b) "");
  third = λ h k. ground (arith, eq_iff (trim_space a) "", eq_iff (trim_space b) "");
}

pub first_of-IsFirst' : (a b c chosen : String) → IsFirst a b c chosen → chosen ≡ first_of a b c
first_of-IsFirst' a b c chosen f = elim (Bool-cases (trim_space a == "")) [
  | inr filled ↦ rw filled (f.first (λ e. ground (arith, eq_iff (trim_space a) "")))
  | inl blank ↦
      let none_first = (eq_iff (trim_space a) "").0 blank in
      elim (Bool-cases (trim_space b == "")) [
        | inr filled ↦
            rw (blank, filled) (f.second none_first (λ e. ground (arith, eq_iff (trim_space b) "")))
        | inl blank' ↦ rw (blank, blank') (f.third none_first ((eq_iff (trim_space b) "").0 blank'))
      ]
]
