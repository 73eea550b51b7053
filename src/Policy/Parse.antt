-- ===== src/Policy/Parse.antt =====
-- What a parsed request carries on from the body.
use saa_s_governance_layer_r.Common.{
  ◌≡◌, refl, inl, inr, false, Option, some, none, Text, text_eq, codes, strip, ok, arith, is_empty,
  ends_with, >>=-eq-ok, ok-injective, Option-cases, subst,
}
use saa_s_governance_layer_r.Policy.{
  Schema, ParsedGatewayRequest, Endpoint, chat, completion, normalize_non_empty_string,
  normalize_optional, endpoint_from_path, validate_fields, parse_gateway_request_body,
}

-- The text after validation: stripped, and not blank.
abbrev pub IsNormalized : Text → Text → Type 0
IsNormalized raw value = (value ≡ strip raw) × (is_empty value ≡ false)

abbrev pub IsAdapterNormalized : Option Text → Option Text → Type 0
IsAdapterNormalized none value = value ≡ none
IsAdapterNormalized (some raw) value = (v : Text) × (value ≡ some v) × IsNormalized raw v

normalize-ok :
    (raw value : Text) → normalize_non_empty_string raw ≡ some value → IsNormalized raw value
unfolding normalize_non_empty_string
normalize-ok raw value h = ground arith

normalize_optional-ok :
    (raw value : Option Text) → normalize_optional raw ≡ some value → IsAdapterNormalized raw value
normalize_optional-ok none value h = ground arith
normalize_optional-ok (some raw) value h = elim (Option-cases (normalize_non_empty_string raw)) [
  | inl blank ↦ cc (blank, h)
  | inr (v, made) ↦ (v, ground (arith, made), normalize-ok raw v made)
]

module _ (schema : Schema) where
  open schema use {Body}

  validate_fields-ok :
      (e : Endpoint) (b : Body) (m : Text) (a : Option Text)
      → validate_fields schema e b ≡ ok (m, a)
      → (raw : Text) × (raw_adapter : Option Text) × (schema.fields e b ≡ some (raw, raw_adapter))
        × IsNormalized raw m
        × IsAdapterNormalized raw_adapter a
  unfolding validate_fields
  validate_fields-ok e b m a h = elim (Option-cases (schema.fields e b)) [
    | inl unfit ↦ cc (rw (unfit, validate_fields) at h)
    | inr ((raw, raw_adapter), read) ↦ elim (Option-cases (normalize_non_empty_string raw)) [
      | inl blank ↦ cc (rw (read, blank, validate_fields) at h)
      | inr (v, made) ↦ elim (Option-cases (normalize_optional raw_adapter)) [
        | inl refused ↦ cc (rw (read, made, refused, validate_fields) at h)
        | inr (w, also) ↦
            let same : (v ≡ m) × (w ≡ a) = ground arith in
            (
              raw,
              raw_adapter,
              read,
              subst (IsNormalized raw) same.0 (normalize-ok raw v made),
              subst (IsAdapterNormalized raw_adapter) same.1
                  (normalize_optional-ok raw_adapter w also),
            )
      ]
    ]
  ]

  -- A request that parses is checked and forwarded under the same model and adapter: the attributes
  -- hold the stripped, non-empty forms of the body's fields, an absent adapter stays absent, and the
  -- body to forward is the dump with just those values.
  pub parse_gateway_request_body-ok :
      (domain : Option Text) (b : Body) (path : Text) (parsed : ParsedGatewayRequest Body)
      → parse_gateway_request_body schema domain b path ≡ ok parsed
      → (raw model : Text) × (raw_adapter : Option Text) × (endpoint_from_path schema path b
          ≡ ok parsed.endpoint)
        × (schema.fields parsed.endpoint b ≡ some (raw, raw_adapter))
        × (parsed.attributes.model ≡ some model)
        × IsNormalized raw model
        × IsAdapterNormalized raw_adapter parsed.attributes.adapter
        × (parsed.body ≡ schema.model_dump parsed.endpoint b model parsed.attributes.adapter)
  unfolding parse_gateway_request_body
  parse_gateway_request_body-ok domain b path parsed h =
      let (e, at_path, h1) = >>=-eq-ok _ _ h in
      let ((m, a), checked, h2) = >>=-eq-ok _ _ h1 in
      let (raw, raw_adapter, read, model, adapter) = validate_fields-ok e b m a checked in
      subst
        (λ (q : ParsedGatewayRequest Body).
          (raw model : Text) × (raw_adapter : Option Text) × (endpoint_from_path schema path b
            ≡ ok q.endpoint)
          × (schema.fields q.endpoint b ≡ some (raw, raw_adapter))
          × (q.attributes.model ≡ some model)
          × IsNormalized raw model
          × IsAdapterNormalized raw_adapter q.attributes.adapter
          × (q.body ≡ schema.model_dump q.endpoint b model q.attributes.adapter))
        (ok-injective h2) (raw, m, raw_adapter, at_path, read, refl, model, adapter, refl)

  -- The path decides the endpoint before the body does.
  pub endpoint_from_path-completions :
      (b : Body)
      → (endpoint_from_path schema (codes "/v1/chat/completions") b ≡ ok chat)
        × (endpoint_from_path schema (codes "/v1/completions") b ≡ ok completion)
  unfolding endpoint_from_path ends_with
  endpoint_from_path-completions b = (refl, refl)
