-- ===== src/Gateway/Events.antt =====
-- What the handler reports of a request.
use saa_s_governance_layer_r.Common.{Option, ℤ}
use saa_s_governance_layer_r.Auth.{JwtLibrary}
use saa_s_governance_layer_r.Policy.{Schema}
use saa_s_governance_layer_r.Quota.{QuotaEnforcer}
use saa_s_governance_layer_r.Gateway.Handler.{State}

module _ (schema : Schema) (jwt : JwtLibrary) (enforcer : QuotaEnforcer)
    (estimate_input_tokens : schema.Body → Option ℤ) where
  open schema use {Body}

  abbrev S : Type 0
  S = State schema jwt enforcer estimate_input_tokens
