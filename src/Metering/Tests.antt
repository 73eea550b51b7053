-- ===== src/Metering/Tests.antt =====
-- Token estimates of small bodies.
use saa_s_governance_layer_r.Common.{
  lower, strip, ◌≡◌, ◌≢◌, ◌⊎◌, refl, true, false, List, [], ◌∷◌, none, some, Text, codes, text_beq,
  ok, err, pos, show,
}
use saa_s_governance_layer_r.Examples.{settings}
use saa_s_governance_layer_r.Json.{
  Value, Items, Fields, int, str, array, object, nil, item, end, field, get, show_int,
}
use saa_s_governance_layer_r.Settings.{TokenizerMode}
use saa_s_governance_layer_r.Metering.{
  Encoder, Raised, TokenEstimate, utf8_count, utf8_encoder, join_lines, text_from_prompt_list,
  messages_texts, collect_text_parts, estimate_parts, estimate_input_tokens,
}
use saa_s_governance_layer_r.Metering.Tokenizer.{utf8_refused, initialize_tokenizer, Tokenizers}
use saa_s_governance_layer_r.Metering.Tokenizer.{IsVerified, initialize_tokenizer-cases}
use saa_s_governance_layer_r.Metering.Readable.{succeeds, is_readable, collect_text_parts-succeeds}
use saa_s_governance_layer_r.Metering.Estimates.{IsWithinTexts, estimate_input_tokens-IsWithinTexts}

abbrev dumps : Value → Text
dumps v = codes "{}"

-- "hé", and then a nested prompt
abbrev chat : Fields
chat =
    field (codes "messages")
      (array (
        item
          (object (
            field (codes "role") (str (codes "user"))
              (field (codes "content") (str (b'h' ∷ 0xe9 ∷ [])) end)))
          nil))
      end

abbrev nested : Items
nested = item (str (codes "a")) (item (array (item (int (pos 7)) nil)) nil)

-- A message whose tool calls are the number 5.
abbrev odd_chat : Fields
odd_chat =
    field (codes "messages")
      (array (item (object (field (codes "tool_calls") (int (pos 5)) end)) nil)) end

abbrev estimate : TokenEstimate
estimate = record { value = pos 13; source = utf8_encoder.source; billing_grade = false }

estimate_tests :
    (estimate_input_tokens dumps dumps utf8_encoder chat ≡ ok (some estimate))
    × (estimate_input_tokens dumps dumps utf8_encoder end ≡ ok none)
    × (collect_text_parts dumps dumps odd_chat ≡ err Raised.not_iterable)
    × (utf8_count (0xd800 ∷ []) ≡ err Raised.unicode_encode_error)
    × (text_from_prompt_list dumps dumps nested ≡ codes "a" ∷ codes "token_id:7" ∷ [])
unfolding estimate_input_tokens utf8_count get collect_text_parts text_beq text_from_prompt_list
    messages_texts estimate_parts join_lines show_int show
estimate_tests = (refl, refl, refl, refl, refl)

estimate_input_tokens-IsWithinTexts_example :
    (parts : List Text) × (collect_text_parts dumps dumps chat ≡ ok parts)
    × IsWithinTexts parts estimate
unfolding estimate_input_tokens utf8_count get collect_text_parts text_beq messages_texts
    estimate_parts join_lines
estimate_input_tokens-IsWithinTexts_example =
    estimate_input_tokens-IsWithinTexts dumps dumps chat estimate refl

collect_text_parts-succeeds_example :
    succeeds (collect_text_parts dumps dumps odd_chat)
    ≡ is_readable (get (codes "messages") odd_chat)
collect_text_parts-succeeds_example = collect_text_parts-succeeds dumps dumps odd_chat

-- Neither package is installed.
abbrev bare : Tokenizers
bare = record {
  tiktoken = (λ name. err Raised.tokenizer_initialization_error);
  hf_local = (λ path. err Raised.tokenizer_initialization_error);
}

initialize_tokenizer-cases_example :
    let (after, result) = initialize_tokenizer bare none settings in
    ((result ≡ ok tt)
      × ((encoder : Encoder) × (after ≡ some encoder) × IsVerified encoder)
      × (utf8_refused settings ≡ true → settings.tokenizer_mode ≢ TokenizerMode.utf8_bytes))
    ⊎ (((raised : Raised) × (result ≡ err raised))
        × ((after ≡ none)
            ⊎ ((encoder : Encoder) × (after ≡ some encoder) × (¬ IsVerified encoder))))
initialize_tokenizer-cases_example = initialize_tokenizer-cases bare none settings

initialize_tests :
    (initialize_tokenizer bare none settings ≡ (some utf8_encoder, ok tt))
    × ((initialize_tokenizer bare none (record settings { environment = codes "prod" })).1
        ≡ err Raised.tokenizer_initialization_error)
unfolding initialize_tokenizer utf8_count text_beq lower strip
initialize_tests = (refl, refl)
