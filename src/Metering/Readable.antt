-- ===== src/Metering/Readable.antt =====
-- metering.py, `_collect_text_parts`: the bodies that it reads without an exception.
use saa_s_governance_layer_r.Common.{
  ◌≡◌, refl, ◌∙◌, Bool, true, false, not, ◌&&◌, ◌∷◌, ◌++◌, Text, codes, Result, ok, err, ◌>>=◌,
  arith,
}
use saa_s_governance_layer_r.Json.{
  Value, Items, Fields, null, bool, int, float, str, array, object, nil, item, get, truth,
}
use saa_s_governance_layer_r.Metering.{
  text_from_content_part, text_from_content_parts, text_from_message_content, tool_calls_texts,
  message_texts, messages_texts, collect_text_parts, texts_of_messages,
}

abbrev pub succeeds {ℓ μ} : {E : Type μ} {A : Type ℓ} → Result E A → Bool
succeeds (ok a) = true
succeeds (err e) = false

succeeds-map {ℓ κ μ} :
    {E : Type μ} {A : Type ℓ} {B : Type κ} (m : Result E A) (f : A → B)
    → succeeds (m >>= (λ a. ok (f a))) ≡ succeeds m
succeeds-map (ok a) f = refl
succeeds-map (err e) f = refl

succeeds-both {ℓ κ λ' μ} :
    {E : Type μ} {A : Type ℓ} {B : Type κ} {C : Type λ'} (m : Result E A) (n : Result E B)
    (f : A → B → C)
    → succeeds (m >>= (λ a. n >>= (λ b. ok (f a b)))) ≡ (succeeds m && succeeds n)
succeeds-both (ok a) n f = succeeds-map n (f a)
succeeds-both (err e) n f = refl

-- A content part whose `type` is neither a list nor an object.
abbrev pub is_typed : Value → Bool
is_typed (object fs) = elim (get (codes "type") fs) [
  | array vs ↦ false
  | object gs ↦ false
  | _ ↦ true
]
is_typed v = true

unfoldable pub all_items : (Value → Bool) → Items → Bool
all_items p nil = true
all_items p (item v vs) = p v && all_items p vs

abbrev pub is_readable_content : Value → Bool
is_readable_content (array vs) = all_items is_typed vs
is_readable_content v = true

-- Tool calls that are false, or that a `for` goes through: a list, a text or an object.
abbrev pub is_iterable_or_false : Value → Bool
is_iterable_or_false (array vs) = true
is_iterable_or_false (str s) = true
is_iterable_or_false (object fs) = true
is_iterable_or_false v = not (truth v)

abbrev pub is_readable_message : Value → Bool
is_readable_message (object fs) =
    is_readable_content (get (codes "content") fs)
    && is_iterable_or_false (get (codes "tool_calls") fs)
is_readable_message v = true

abbrev pub is_readable : Value → Bool
is_readable (array vs) = all_items is_readable_message vs
is_readable v = true

module _ (dumps str_of : Value → Text) where
  succeeds-content_part :
      (v : Value) → succeeds (text_from_content_part dumps str_of v) ≡ is_typed v
  unfolding text_from_content_part
  succeeds-content_part (object fs) = ground arith
  succeeds-content_part (array vs) = refl
  succeeds-content_part (str s) = refl
  succeeds-content_part (float s) = refl
  succeeds-content_part (int n) = refl
  succeeds-content_part (bool b) = refl
  succeeds-content_part null = refl

  succeeds-content_parts :
      (vs : Items) → succeeds (text_from_content_parts dumps str_of vs) ≡ all_items is_typed vs
  unfolding text_from_content_parts all_items
  succeeds-content_parts nil = refl
  succeeds-content_parts (item v vs) =
      succeeds-both (text_from_content_part dumps str_of v)
        (text_from_content_parts dumps str_of vs) (λ t ts. t ∷ ts)
      ∙ rw (succeeds-content_part v, succeeds-content_parts vs) refl

  succeeds-message_content :
      (v : Value) → succeeds (text_from_message_content dumps str_of v) ≡ is_readable_content v
  unfolding text_from_message_content
  succeeds-message_content (array vs) = succeeds-content_parts vs
  succeeds-message_content (object fs) = refl
  succeeds-message_content (str s) = refl
  succeeds-message_content (float s) = refl
  succeeds-message_content (int n) = refl
  succeeds-message_content (bool b) = refl
  succeeds-message_content null = refl

  succeeds-tool_calls :
      (v : Value) → succeeds (tool_calls_texts dumps str_of v) ≡ is_iterable_or_false v
  unfolding tool_calls_texts
  succeeds-tool_calls (array vs) = refl
  succeeds-tool_calls (object fs) = refl
  succeeds-tool_calls (str s) = refl
  succeeds-tool_calls (float s) = ground arith
  succeeds-tool_calls (int n) = ground arith
  succeeds-tool_calls (bool b) = ground arith
  succeeds-tool_calls null = refl

  succeeds-message : (v : Value) → succeeds (message_texts dumps str_of v) ≡ is_readable_message v
  unfolding message_texts
  succeeds-message (object fs) =
      succeeds-both (text_from_message_content dumps str_of (get (codes "content") fs))
        (tool_calls_texts dumps str_of (get (codes "tool_calls") fs)) _
      ∙ rw
          (
            succeeds-message_content (get (codes "content") fs),
            succeeds-tool_calls (get (codes "tool_calls") fs),
          )
          refl
  succeeds-message (array vs) = refl
  succeeds-message (str s) = refl
  succeeds-message (float s) = refl
  succeeds-message (int n) = refl
  succeeds-message (bool b) = refl
  succeeds-message null = refl

  succeeds-messages :
      (vs : Items) → succeeds (messages_texts dumps str_of vs) ≡ all_items is_readable_message vs
  unfolding messages_texts all_items
  succeeds-messages nil = refl
  succeeds-messages (item v vs) =
      succeeds-both (message_texts dumps str_of v) (messages_texts dumps str_of vs)
        (λ t ts. t ++ ts)
      ∙ rw (succeeds-message v, succeeds-messages vs) refl

  succeeds-texts : (v : Value) → succeeds (texts_of_messages dumps str_of v) ≡ is_readable v
  succeeds-texts (array vs) = succeeds-messages vs
  succeeds-texts (object fs) = refl
  succeeds-texts (str s) = refl
  succeeds-texts (float s) = refl
  succeeds-texts (int n) = refl
  succeeds-texts (bool b) = refl
  succeeds-texts null = refl

  -- The texts of a body are collected without an exception exactly if in every message that is an
  -- object the tool calls are false or can be gone through, and no part of a content list is an
  -- object with a list or an object as its `type`. Nothing else in a body raises.
  pub collect_text_parts-succeeds :
      (request_body : Fields)
      → succeeds (collect_text_parts dumps str_of request_body)
        ≡ is_readable (get (codes "messages") request_body)
  unfolding collect_text_parts
  collect_text_parts-succeeds request_body =
      succeeds-map (texts_of_messages dumps str_of (get (codes "messages") request_body)) _
      ∙ succeeds-texts (get (codes "messages") request_body)
