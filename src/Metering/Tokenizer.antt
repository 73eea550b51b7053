-- ===== src/Metering/Tokenizer.antt =====
-- metering.py: the choice of the tokenizer, and what `initialize_tokenizer` leaves behind.
use saa_s_governance_layer_r.Common.{
  ℕ, ◌≡◌, Bool, true, false, not, ◌&&◌, Option, none, some, Text, codes, text_eq, Result, ok, err,
  ◌>>=◌, guard, ltb, ◌≤◌, ◌≢◌, refl, sym, ◌∙◌, Bool-cases, ◌⊎◌, inl, inr, Result-cases, arith,
  ok-injective,
}
use saa_s_governance_layer_r.Settings.{AppSettings, QuotaMode, TokenizerMode, is_local}
use saa_s_governance_layer_r.Metering.{
  Raised, Encoder, tokenizer_initialization_error, utf8_encoder, assertion_error,
}

-- The tokenizers of the third-party packages, which may fail to load.
pub record Tokenizers : Type 0 where
  pub tiktoken : (encoding_name : Text) → Result Raised Encoder
  pub hf_local : (tokenizer_path : Text) → Result Raised Encoder

-- `UTF8_BYTES` where a production tokenizer is required.
unfoldable pub utf8_refused : AppSettings → Bool
unfolding is_local
utf8_refused settings =
    not (is_local settings.environment)
    && not settings.unsafe_allow_mock_auth_outside_local
    && (elim settings.quota_mode [ QuotaMode.disabled ↦ false | _ ↦ true ])
    && settings.require_production_tokenizer

unfoldable pub configured_encoder : Tokenizers → AppSettings → Result Raised Encoder
unfolding utf8_refused
configured_encoder tokenizers settings = elim settings.tokenizer_mode [
  | TokenizerMode.tiktoken ↦ tokenizers.tiktoken settings.tokenizer_name
  | TokenizerMode.hf_local ↦ elim settings.tokenizer_path [
    | none ↦ err assertion_error
    | some path ↦ tokenizers.hf_local path
  ]
  | TokenizerMode.utf8_bytes ↦
      guard (not (utf8_refused settings)) tokenizer_initialization_error
      >>= (λ passed. ok utf8_encoder)
]

abbrev pub verification_text : Text
verification_text = codes "tokenizer startup verification"

-- `initialize_tokenizer` on the global `_encoder`; an encoder that counts nothing is kept, and raises.
unfoldable pub initialize_tokenizer :
    Tokenizers → Option Encoder → AppSettings → Option Encoder × Result Raised (Unit {0})
unfolding configured_encoder
initialize_tokenizer tokenizers current settings = elim (configured_encoder tokenizers settings) [
  | err raised ↦ (current, err raised)
  | ok encoder ↦ (
    some encoder,
    encoder.count verification_text >>= (λ n. guard (ltb 0 n) tokenizer_initialization_error),
  )
]

-- `_get_encoder`
unfoldable pub get_encoder : Option Encoder → Encoder
get_encoder none = utf8_encoder
get_encoder (some encoder) = encoder

-- An encoder that passed the startup verification.
abbrev pub IsVerified : Encoder → Type 0
IsVerified encoder = (n : ℕ) × (encoder.count verification_text ≡ ok n) × (1 ≤ n)

configured-allowed :
    (tokenizers : Tokenizers) (settings : AppSettings) (encoder : Encoder)
    → configured_encoder tokenizers settings ≡ ok encoder
    → utf8_refused settings ≡ true
    → settings.tokenizer_mode ≢ TokenizerMode.utf8_bytes
unfolding configured_encoder
configured-allowed tokenizers settings encoder h production mode =
    let refused : configured_encoder tokenizers settings ≡ err tokenizer_initialization_error =
      rw (mode, production) refl in
    cc (h, refused)

-- If the startup ends without an exception, the global encoder is one that counted the verification
-- text to at least one, and `UTF8_BYTES` is not the mode where a production tokenizer is required. If
-- it raises, the encoder is the old one or the one that failed the verification.
pub initialize_tokenizer-cases :
    (tokenizers : Tokenizers) (current : Option Encoder) (settings : AppSettings)
    → let (after, result) = initialize_tokenizer tokenizers current settings in
      ((result ≡ ok tt)
        × ((encoder : Encoder) × (after ≡ some encoder) × IsVerified encoder)
        × (utf8_refused settings ≡ true → settings.tokenizer_mode ≢ TokenizerMode.utf8_bytes))
      ⊎ (((raised : Raised) × (result ≡ err raised))
          × ((after ≡ current)
              ⊎ ((encoder : Encoder) × (after ≡ some encoder) × (¬ IsVerified encoder))))
unfolding initialize_tokenizer
initialize_tokenizer-cases tokenizers current settings =
    elim (Result-cases (configured_encoder tokenizers settings)) [
      | inr (raised, e) ↦
          inr ((raised, rw (e, initialize_tokenizer) refl), inl (rw (e, initialize_tokenizer) refl))
      | inl (encoder, e) ↦ elim (Result-cases (encoder.count verification_text)) [
        | inr (raised, f) ↦ inr (
          (raised, rw (e, initialize_tokenizer, f) refl),
          inr (encoder, rw (e, initialize_tokenizer) refl, (λ (n, same, least). cc (same, f))),
        )
        | inl (n, f) ↦ elim (Bool-cases (ltb 0 n)) [
          | inl counted ↦ inl (
            rw (e, initialize_tokenizer, f, counted) refl,
            (encoder, rw (e, initialize_tokenizer) refl, (n, f, ground arith)),
            configured-allowed tokenizers settings encoder e,
          )
          | inr nothing ↦ inr (
            (tokenizer_initialization_error, rw (e, initialize_tokenizer, f, nothing) refl),
            inr (
              encoder,
              rw (e, initialize_tokenizer) refl,
              (λ (m, same, least). ground (arith, ok-injective (sym same ∙ f))),
            ),
          )
        ]
      ]
    ]
