-- ===== src/Settings/Env/Tests.antt =====
-- The defaults, a production environment, and words for a truth value.
use saa_s_governance_layer_r.Common.{
  ◌*◌, ◌≡◌, refl, true, false, [], ◌∷◌, Option, none, some, Text, codes, text_eq, text_beq, ℤ, pos,
  lookup, strip, lower, split, read, is_digit, all, err, Result, if◌then◌else◌, read_from,
}
use saa_s_governance_layer_r.Settings.{
  AppSettings, model_validate, within_bounds, reject_mock_auth_outside_local, is_local,
}
use saa_s_governance_layer_r.Settings.Env.{
  Env, LoadError, value_error, invalid_configuration, parse_bool, getenv_or_none, read_list,
}
use saa_s_governance_layer_r.Settings.Env.Load.{
  read_numbers, typed_settings, load_settings_from_env,
}

abbrev whole : Text → Option ℤ
whole s = if all is_digit s then some (pos (read s)) else none

abbrev seconds : Text → Option ℤ
seconds s = if all is_digit s then some (pos (read s * 1000)) else none

abbrev load_env : Env → Result LoadError AppSettings
load_env env = load_settings_from_env whole seconds (λ p. p) env

env_tests :
    (load_env ((codes "APP_ENVIRONMENT", codes "prod") ∷ []) ≡ err invalid_configuration)
    × (load_env ((codes "APP_QUOTA_WINDOW_SECONDS", codes "soon") ∷ []) ≡ err value_error)
    × (load_env ((codes "APP_QUOTA_WINDOW_SECONDS", codes "0") ∷ []) ≡ err invalid_configuration)
    × (parse_bool (some (codes " Yes ")) false ≡ true)
    × (parse_bool (some (codes "enabled")) true ≡ false)
    × (read_list (codes "a, b,,") ≡ codes "a" ∷ codes "b" ∷ [])
unfolding load_settings_from_env read_numbers typed_settings model_validate within_bounds parse_bool
    getenv_or_none read_list lookup text_beq strip lower split read_from is_local
    reject_mock_auth_outside_local
env_tests = (refl, refl, refl, refl, refl, refl)
