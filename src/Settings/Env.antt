-- ===== src/Settings/Env.antt =====
-- config.py: `_parse_bool` and `load_settings_from_env`. The environment is a dictionary. Python's
-- `int`, its `float` in whole milliseconds, and `Path.expanduser` are parameters.
pub mod Load
mod Tests
use saa_s_governance_layer_r.Common.{
  ℕ, ◌≡◌, ◌↔◌, ◌⊎◌, inl, inr, refl, ap, Bool, true, false, not, ◌&&◌, ◌||◌, List, [], ◌∷◌, ◌++◌,
  Option, none, some, Text, codes, text_eq, ◌==◌, strip, lower, split, contains, ℤ, pos, negsuc,
  Dict, lookup, get_or, Result, ok, err, ◌>>=◌, >>=-eq-ok, is_empty, filter, map, if◌then◌else◌,
  Result-cases, arith, ok-injective, subst, is_some, ◌≤◌,
}
use saa_s_governance_layer_r.Settings.{
  SettingsError, AppSettings, AuthMode, QuotaMode, BillingMode, AuditSinkMode,
  AdapterGovernanceMode, SecurityPostureMode, TokenizerMode, model_validate, is_local, is_given,
}
use saa_s_governance_layer_r.Settings.Guards.{model_validate-guards}

-- The `ValueError` of `int` or `float`, and the `RuntimeError` of a failed validation.
pub data LoadError : Type 0 where
  value_error invalid_configuration : LoadError

-- `_parse_bool`
unfoldable pub parse_bool : Option Text → Bool → Bool
parse_bool none default_value = default_value
parse_bool (some value) default_value =
    contains (codes "1" ∷ codes "true" ∷ codes "yes" ∷ codes "y" ∷ codes "on" ∷ [])
      (lower (strip value))

abbrev pub Env : Type 0
Env = Dict Text Text

-- `os.getenv(name, default)`
abbrev pub getenv : Env → (name default_value : Text) → Text
getenv env name default_value = get_or (lookup name env) default_value

-- `os.getenv(name) or None`
unfoldable pub getenv_or_none : Env → Text → Option Text
getenv_or_none env name = elim (lookup name env) [
  | none ↦ none
  | some value ↦ if is_empty value then none else some value
]

-- `[item.strip() for item in value.split(",") if item.strip()]`
unfoldable pub read_list : Text → List Text
read_list value = filter (λ s. not (is_empty s)) (map strip (split b',' value))

-- A member of an enumeration by its value.
abbrev pub Parser : Type 0 → Type 0
Parser A = List (Text × A)

abbrev pub parse_value : {A : Type 0} → Parser A → Text → Result LoadError A
parse_value members value = elim (lookup value members) [
  | none ↦ err invalid_configuration
  | some member ↦ ok member
]

abbrev pub auth_modes : Parser AuthMode
auth_modes = (codes "mock", AuthMode.mock) ∷ (codes "oidc", AuthMode.oidc) ∷ []

abbrev pub quota_modes : Parser QuotaMode
quota_modes =
    (codes "disabled", QuotaMode.disabled)
    ∷ (codes "in_memory", QuotaMode.in_memory)
    ∷ (codes "redis", QuotaMode.redis)
    ∷ []

abbrev pub billing_modes : Parser BillingMode
billing_modes =
    (codes "disabled", BillingMode.disabled)
    ∷ (codes "observability", BillingMode.observability)
    ∷ (codes "ledger_required", BillingMode.ledger_required)
    ∷ (codes "aws_native_reference", BillingMode.aws_native_reference)
    ∷ []

abbrev pub audit_sink_modes : Parser AuditSinkMode
audit_sink_modes =
    (codes "disabled", AuditSinkMode.disabled)
    ∷ (codes "stdout", AuditSinkMode.stdout)
    ∷ (codes "jsonl", AuditSinkMode.jsonl)
    ∷ []

abbrev pub adapter_governance_modes : Parser AdapterGovernanceMode
adapter_governance_modes =
    (codes "allowlist_only", AdapterGovernanceMode.allowlist_only)
    ∷ (codes "catalog_enforced", AdapterGovernanceMode.catalog_enforced)
    ∷ []

abbrev pub security_posture_modes : Parser SecurityPostureMode
security_posture_modes =
    (codes "audit", SecurityPostureMode.audit) ∷ (codes "enforce", SecurityPostureMode.enforce) ∷ []

abbrev pub tokenizer_modes : Parser TokenizerMode
tokenizer_modes =
    (codes "tiktoken", TokenizerMode.tiktoken)
    ∷ (codes "hf_local", TokenizerMode.hf_local)
    ∷ (codes "utf8_bytes", TokenizerMode.utf8_bytes)
    ∷ []

-- A number that must not be negative; the other bounds are those of `model_validate`.
abbrev pub not_negative : ℤ → Result LoadError ℕ
not_negative (pos n) = ok n
not_negative (negsuc n) = err invalid_configuration
