-- ===== src/Auth/Mock.antt =====
-- The mock credentials of local runs, written and read.
use saa_s_governance_layer_r.Common.{
  ◌≡◌, false, ◌&&◌, ◌∷◌, ◌++◌, Option, some, Text, codes, ok, arith, is_empty, strip, lower,
  text_beq, partition, partition-first, count, starts_with,
}
use saa_s_governance_layer_r.Settings.{AppSettings, is_given}
use saa_s_governance_layer_r.Registry.{TenantConfig}
use saa_s_governance_layer_r.Auth.{
  extract_bearer_token, parse_mock_token, validate_mock_auth, mock_principal,
}

-- `mock:<tenant_id>:<user_id>`
abbrev pub mock_token : Text → Text → Text
mock_token tenant_id user_id = codes "mock:" ++ (tenant_id ++ b':' ∷ user_id)

parse_mock_token-roundtrip :
    (tid uid : Text)
    → is_empty tid ≡ false
    → is_empty uid ≡ false
    → count b':' tid ≡ 0
    → parse_mock_token (mock_token tid uid) ≡ ok (tid, uid)
unfolding parse_mock_token starts_with partition
parse_mock_token-roundtrip tid uid t u plain = ground (arith, partition-first b':' tid uid plain)

extract_bearer_token-roundtrip :
    (tid uid : Text)
    → strip (mock_token tid uid) ≡ mock_token tid uid
    → extract_bearer_token (some (codes "Bearer " ++ mock_token tid uid)) ≡ ok (mock_token tid uid)
unfolding extract_bearer_token partition lower text_beq
extract_bearer_token-roundtrip tid uid trimmed = rw trimmed

-- Without a mock header that the settings accept, the header `Bearer mock:<tenant>:<user>`
-- authenticates as that tenant and user, if neither is empty, the tenant has no colon and the token
-- has no blanks at its ends.
pub validate_mock_auth-roundtrip :
    (tid uid : Text) (header : Option Text) (t : TenantConfig) (s : AppSettings)
    → (is_given header && s.allow_mock_auth_header) ≡ false
    → is_empty tid ≡ false
    → is_empty uid ≡ false
    → count b':' tid ≡ 0
    → strip (mock_token tid uid) ≡ mock_token tid uid
    → validate_mock_auth (some (codes "Bearer " ++ mock_token tid uid)) header t s
      ≡ ok (mock_principal t tid uid)
unfolding validate_mock_auth
validate_mock_auth-roundtrip tid uid header t s unused given_tenant given_user plain trimmed = rw (
  unused,
  extract_bearer_token-roundtrip tid uid trimmed,
  parse_mock_token-roundtrip tid uid given_tenant given_user plain,
)
