-- ===== src/Metering.antt =====
-- metering.py: the texts of a request, the token estimates and the choice of the tokenizer.
-- `json.dumps`, Python's `str` of a value that is no text, and the two third-party tokenizers are
-- parameters. Reading a text as UTF-8 and taking apart a request may raise, so these have a result.
pub mod Prompts
pub mod Readable
pub mod Estimates
pub mod Tokenizer
mod Tests
use saa_s_governance_layer_r.Common.{
  ℕ, ◌+◌, ◌≡◌, Bool, true, false, not, ◌&&◌, ◌||◌, List, [], ◌∷◌, ◌++◌, Option, none, some, Text,
  codes, text_eq, ◌==◌, ℤ, pos, negsuc, Result, ok, err, ◌>>=◌, guard, filter, contains, is_empty,
  leb, ltb, nat_beq, max, map, if◌then◌else◌,
}
use saa_s_governance_layer_r.Json.{
  Value, Items, Fields, null, bool, int, float, str, array, object, nil, item, end, field, get,
  get_default, truth, show_int, show_bool,
}
use saa_s_governance_layer_r.Settings.{AppSettings, QuotaMode, TokenizerMode, is_local}

-- What the code below may raise.
pub data Raised : Type 0 where
  not_iterable unhashable unicode_encode_error tokenizer_initialization_error assertion_error :
      Raised

-- `_Encoder`
pub record Encoder : Type 0 where
  pub count : Text → Result Raised ℕ
  pub source : Text
  pub billing_grade : Bool

-- The bytes of a character in UTF-8; a lone surrogate has none.
unfoldable pub utf8_width : ℕ → Option ℕ
utf8_width c =
    if ltb c 0x80
    then some 1
    else if ltb c 0x800
    then some 2
    else if leb 0xd800 c && leb c 0xdfff
    then none
    else if ltb c 0x10000
    then some 3
    else some 4

-- `len(text.encode("utf-8"))`
unfoldable pub utf8_count : Text → Result Raised ℕ
unfolding utf8_width
utf8_count [] = ok 0
utf8_count (c ∷ s) =
    utf8_count s
    >>= (λ n. elim (utf8_width c) [ none ↦ err unicode_encode_error | some w ↦ ok (w + n) ])

abbrev pub utf8_encoder : Encoder
utf8_encoder = record {
  count = utf8_count;
  source = codes "deterministic_utf8_byte_upper_bound_local_demo";
  billing_grade = false;
}

pub record TokenEstimate : Type 0 where
  pub value : ℤ
  pub source : Text
  pub billing_grade : Bool

-- `isinstance(usage.get(key), int) and usage.get(key) >= 0`, and the estimate; `True` is 1.
unfoldable pub usage_estimate : Value → Text → Option TokenEstimate
usage_estimate (int (pos n)) source =
    some (record { value = pos n; source = source; billing_grade = false })
usage_estimate (bool b) source =
    some (record { value = pos (if b then 1 else 0); source = source; billing_grade = false })
usage_estimate _ source = none

unfoldable pub estimate_from_usage : Value → (key source : Text) → Option TokenEstimate
unfolding usage_estimate get
estimate_from_usage (object response_body) key source = elim (get (codes "usage") response_body) [
  | object usage ↦ usage_estimate (get key usage) source
  | _ ↦ none
]
estimate_from_usage _ key source = none

unfoldable pub estimate_input_tokens_from_upstream : Value → Option TokenEstimate
unfolding estimate_from_usage
estimate_input_tokens_from_upstream response_body =
    estimate_from_usage response_body (codes "prompt_tokens")
      (codes "upstream_usage_prompt_tokens_unverified")

unfoldable pub estimate_output_tokens : Value → Option TokenEstimate
unfolding estimate_from_usage
estimate_output_tokens response_body =
    estimate_from_usage response_body (codes "completion_tokens")
      (codes "upstream_usage_completion_tokens_unverified")

-- `"\n".join(parts)`
unfoldable pub join_lines : List Text → Text
join_lines [] = []
join_lines (s ∷ []) = s
join_lines (s ∷ t ∷ parts) = s ++ b'\n' ∷ join_lines (t ∷ parts)

-- `[part for part in text_parts if part]`
abbrev pub non_empty : List Text → List Text
non_empty parts = filter (λ s. not (is_empty s)) parts

-- What is estimated of the texts.
unfoldable pub estimate_parts : Encoder → List Text → Result Raised (Option TokenEstimate)
unfolding join_lines
estimate_parts encoder [] = ok none
estimate_parts encoder (s ∷ parts) = encoder.count (join_lines (s ∷ parts)) >>= (λ n. ok (
    some (record {
      value = pos (max 1 n);
      source = encoder.source;
      billing_grade = encoder.billing_grade;
    })))

module _ (dumps str_of : Value → Text) where
  -- What an f-string shows of a value.
  unfoldable pub format : Value → Text
  format (str s) = s
  format v = str_of v

  unfoldable mutual
    pub prompt_item : Value → List Text
    prompt_item (str s) = s ∷ []
    prompt_item (int n) = (codes "token_id:" ++ show_int n) ∷ []
    prompt_item (bool b) = (codes "token_id:" ++ show_bool b) ∷ []
    prompt_item (array vs) = text_from_prompt_list vs
    prompt_item null = dumps null ∷ []
    prompt_item (float s) = dumps (float s) ∷ []
    prompt_item (object fs) = dumps (object fs) ∷ []

    -- `_text_from_prompt_list`
    pub text_from_prompt_list : Items → List Text
    text_from_prompt_list nil = []
    text_from_prompt_list (item v vs) = prompt_item v ++ text_from_prompt_list vs

  -- The dictionary of an image and its `url` and `detail`.
  unfoldable pub image_text : Fields → Text
  unfolding format get_default
  image_text fs =
      codes "image_url:url="
      ++ (format (get_default (codes "url") (str []) fs)
          ++ (codes ";detail=" ++ format (get_default (codes "detail") (str (codes "auto")) fs)))

  unfoldable pub text_part : Fields → Text
  unfolding get
  text_part fs = elim (get (codes "text") fs) [ str text ↦ text | _ ↦ dumps (object fs) ]

  unfoldable pub image_url_part : Fields → Text
  unfolding get image_text
  image_url_part fs = elim (get (codes "image_url") fs) [
    | object image_url ↦ image_text image_url
    | str image_url ↦ codes "image_url:url=" ++ (image_url ++ codes ";detail=auto")
    | _ ↦ dumps (object fs)
  ]

  unfoldable pub input_image_part : Fields → Text
  unfolding get
  input_image_part fs = elim (get (codes "image_url") fs) [
    | str image_url ↦ codes "input_image:url=" ++ (image_url ++ codes ";detail=auto")
    | object image_url ↦ codes "input_image:" ++ dumps (object image_url)
    | _ ↦ dumps (object fs)
  ]

  -- The parts that carry a type, by the type.
  unfoldable pub typed_part : Text → Fields → Text
  unfolding text_part image_url_part input_image_part
  typed_part part_type fs =
      if (part_type == codes "text") || (part_type == codes "input_text")
      then text_part fs
      else if part_type == codes "image_url"
      then image_url_part fs
      else if part_type == codes "input_image"
      then input_image_part fs
      else dumps (object fs)

  -- `_text_from_content_part`; it gives one text. A list or an object is in no set.
  unfoldable pub text_from_content_part : Value → Result Raised Text
  unfolding typed_part get
  text_from_content_part (str s) = ok s
  text_from_content_part (object fs) = elim (get (codes "type") fs) [
    | str part_type ↦ ok (typed_part part_type fs)
    | array vs ↦ err unhashable
    | object gs ↦ err unhashable
    | _ ↦ ok (dumps (object fs))
  ]
  text_from_content_part v = ok (dumps v)

  unfoldable pub text_from_content_parts : Items → Result Raised (List Text)
  unfolding text_from_content_part
  text_from_content_parts nil = ok []
  text_from_content_parts (item v vs) =
      text_from_content_part v
      >>= (λ text. text_from_content_parts vs >>= (λ texts. ok (text ∷ texts)))

  -- `_text_from_message_content`
  unfoldable pub text_from_message_content : Value → Result Raised (List Text)
  unfolding text_from_content_parts
  text_from_message_content (str s) = ok (s ∷ [])
  text_from_message_content null = ok []
  text_from_message_content (array vs) = text_from_content_parts vs
  text_from_message_content v = ok (dumps v ∷ [])

  -- The objects of a list of tool calls.
  unfoldable pub tool_call_texts : Items → List Text
  tool_call_texts nil = []
  tool_call_texts (item (object fs) vs) = dumps (object fs) ∷ tool_call_texts vs
  tool_call_texts (item _ vs) = tool_call_texts vs

  -- `for tool_call in item.get("tool_calls") or []`: the characters of a text and the keys of an object
  -- are no objects; what is true and neither of these nor a list cannot be iterated.
  unfoldable pub tool_calls_texts : Value → Result Raised (List Text)
  unfolding tool_call_texts truth
  tool_calls_texts (array vs) = ok (tool_call_texts vs)
  tool_calls_texts (str s) = ok []
  tool_calls_texts (object fs) = ok []
  tool_calls_texts v = if truth v then err not_iterable else ok []

  abbrev role_texts : Value → List Text
  role_texts (str role) = (codes "role:" ++ role) ∷ []
  role_texts _ = []

  abbrev function_call_texts : Value → List Text
  function_call_texts (object fs) = dumps (object fs) ∷ []
  function_call_texts _ = []

  -- The texts of one message.
  unfoldable pub message_texts : Value → Result Raised (List Text)
  unfolding get text_from_message_content tool_calls_texts
  message_texts (object fs) = text_from_message_content (get (codes "content") fs) >>= (λ content.
      tool_calls_texts (get (codes "tool_calls") fs) >>= (λ tool_calls. ok (
        role_texts (get (codes "role") fs)
        ++ (content ++ (tool_calls ++ function_call_texts (get (codes "function_call") fs))))))
  message_texts _ = ok []

  unfoldable pub messages_texts : Items → Result Raised (List Text)
  unfolding message_texts
  messages_texts nil = ok []
  messages_texts (item v vs) =
      message_texts v >>= (λ texts. messages_texts vs >>= (λ more. ok (texts ++ more)))

  abbrev pub prompt_texts : Value → List Text
  prompt_texts (str prompt) = prompt ∷ []
  prompt_texts (array vs) = text_from_prompt_list vs
  prompt_texts _ = []

  abbrev pub texts_of_messages : Value → Result Raised (List Text)
  texts_of_messages (array vs) = messages_texts vs
  texts_of_messages _ = ok []

  -- `_collect_text_parts`
  unfoldable pub collect_text_parts : Fields → Result Raised (List Text)
  unfolding get text_from_prompt_list messages_texts
  collect_text_parts request_body =
      texts_of_messages (get (codes "messages") request_body)
      >>= (λ texts. ok (non_empty (prompt_texts (get (codes "prompt") request_body) ++ texts)))

  unfoldable pub estimate_input_tokens : Encoder → Fields → Result Raised (Option TokenEstimate)
  unfolding collect_text_parts estimate_parts
  estimate_input_tokens encoder request_body =
      collect_text_parts request_body >>= estimate_parts encoder
