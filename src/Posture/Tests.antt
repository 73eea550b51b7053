-- ===== src/Posture/Tests.antt =====
-- The posture at the sample settings, which mock their authentication.
use saa_s_governance_layer_r.Common.{
  ◌≡◌, refl, ◌↔◌, [], ◌∷◌, none, some, codes, text_beq, lower, strip, contains_text,
}
use saa_s_governance_layer_r.Settings.{AppSettings, SecurityPostureMode}
use saa_s_governance_layer_r.Examples.{settings}
use saa_s_governance_layer_r.Posture.{
  mock_auth_enabled, upstream_not_private, evaluate_security_posture, enforce_security_posture,
  looks_private_upstream, is_production_like,
}
use saa_s_governance_layer_r.Posture.Enforced.{IsSecure, enforce_security_posture_iff}

abbrev enforced : AppSettings
enforced = record settings {
  security_posture_mode = SecurityPostureMode.enforce;
  upstream_base_url = codes "https://api.example.com";
}

blocked :
    enforce_security_posture enforced (evaluate_security_posture enforced)
    ≡ some (mock_auth_enabled ∷ upstream_not_private ∷ [])
unfolding enforce_security_posture evaluate_security_posture looks_private_upstream
    is_production_like lower strip contains_text text_beq
blocked = refl

enforce_security_posture_iff_example :
    (enforce_security_posture enforced (evaluate_security_posture enforced) ≡ none)
    ↔ IsSecure enforced
enforce_security_posture_iff_example = enforce_security_posture_iff enforced refl
