-- ===== src/Metering/Estimates.antt =====
-- metering.py: what a token estimate is worth. `Utf8ByteUpperBoundEncoder` counts the characters of
-- every text of a request, each as one to four.
use saa_s_governance_layer_r.Common.{
  ℕ, ◌+◌, ◌*◌, ◌≤◌, ◌≡◌, refl, sym, ap, subst, some_unique, List, [], ◌∷◌, ◌++◌, Option, none, some,
  Text, codes, length, length-append, ok, err, >>=-eq-ok, ok-injective, arith, max, pos,
}
use saa_s_governance_layer_r.Json.{Value, Fields, get}
use saa_s_governance_layer_r.Metering.{
  Raised, TokenEstimate, utf8_width, utf8_count, utf8_encoder, join_lines, non_empty,
  collect_text_parts, estimate_parts, estimate_input_tokens, prompt_texts, texts_of_messages,
}

utf8_width-bounds : (c w : ℕ) → utf8_width c ≡ some w → (1 ≤ w) × (w ≤ 4)
unfolding utf8_width
utf8_width-bounds c w h = ground arith

counted-some :
    (width : Option ℕ) (m n : ℕ)
    → (elim width [ none ↦ err Raised.unicode_encode_error | some w ↦ ok (w + m) ]) ≡ ok n
    → (w : ℕ) × (width ≡ some w) × (n ≡ w + m)
counted-some none m n h = cc
counted-some (some w) m n h = (w, refl, sym (ok-injective h))

utf8_count-bounds : (s : Text) (n : ℕ) → utf8_count s ≡ ok n → (length s ≤ n) × (n ≤ 4 * length s)
unfolding utf8_count
utf8_count-bounds [] n h = ground (arith, ok-injective h)
utf8_count-bounds (c ∷ s) n h =
    let (m, rest, last) = >>=-eq-ok (utf8_count s) _ h in
    let (w, width, sum) = counted-some (utf8_width c) m n last in
    omega (arith, utf8_width-bounds c w width, utf8_count-bounds s m rest, sum)

-- The characters of a list of texts.
unfoldable pub characters : List Text → ℕ
characters [] = 0
characters (s ∷ parts) = length s + characters parts

length-join_lines :
    (s : Text) (parts : List Text)
    → length (join_lines (s ∷ parts)) ≡ length s + characters parts + length parts
unfolding join_lines characters
length-join_lines s [] = omega arith
length-join_lines s (t ∷ parts) =
    omega (arith, length-append s (b'\n' ∷ join_lines (t ∷ parts)), length-join_lines t parts)

characters-non_empty : (parts : List Text) → length (non_empty parts) ≤ characters (non_empty parts)
unfolding characters
characters-non_empty [] = omega arith
characters-non_empty ([] ∷ parts) = characters-non_empty parts
characters-non_empty ((c ∷ s) ∷ parts) = omega (arith, characters-non_empty parts)

-- An estimate of some texts, within the characters of the texts and the line breaks between them.
abbrev pub IsWithinTexts : List Text → TokenEstimate → Type 0
IsWithinTexts parts estimate =
    (n : ℕ) × (estimate.value ≡ pos n)
    × (1 ≤ n)
    × (characters parts + length parts ≤ n + 1)
    × (n + 4 ≤ 4 * (characters parts + length parts))

estimate_parts-IsWithinTexts :
    (parts : List Text) (estimate : TokenEstimate)
    → length parts ≤ characters parts
    → estimate_parts utf8_encoder parts ≡ ok (some estimate)
    → IsWithinTexts parts estimate
unfolding estimate_parts characters
estimate_parts-IsWithinTexts [] estimate full h = cc
estimate_parts-IsWithinTexts (s ∷ parts) estimate full h =
    let (n, counted, last) = >>=-eq-ok (utf8_count (join_lines (s ∷ parts))) _ h in
    let bounds = utf8_count-bounds (join_lines (s ∷ parts)) n counted in
    let size = length-join_lines s parts in
    let shape = some_unique (ok-injective last) refl in
    (
      max 1 n,
      ap (λ e. e.value) shape,
      omega arith,
      omega (arith, bounds, size, full),
      omega (arith, bounds, size, full),
    )

module _ (dumps str_of : Value → Text) where
  collected-full :
      (request_body : Fields) (parts : List Text)
      → collect_text_parts dumps str_of request_body ≡ ok parts
      → length parts ≤ characters parts
  unfolding collect_text_parts
  collected-full request_body parts h =
      let (texts, read, filtered) =
        >>=-eq-ok (texts_of_messages dumps str_of (get (codes "messages") request_body))
          (λ texts.
            ok (non_empty (prompt_texts dumps str_of (get (codes "prompt") request_body) ++ texts)))
          h in
      subst (λ x. length x ≤ characters x) (ok-injective filtered)
        (characters-non_empty
          (prompt_texts dumps str_of (get (codes "prompt") request_body) ++ texts))

  -- The estimate of a request by UTF-8 bytes, if there is one, is that of its texts: at least one, and
  -- with the line breaks between the texts at least the number of their characters and at most four
  -- times that.
  pub estimate_input_tokens-IsWithinTexts :
      (request_body : Fields) (estimate : TokenEstimate)
      → estimate_input_tokens dumps str_of utf8_encoder request_body ≡ ok (some estimate)
      → (parts : List Text) × (collect_text_parts dumps str_of request_body ≡ ok parts)
        × IsWithinTexts parts estimate
  unfolding estimate_input_tokens
  estimate_input_tokens-IsWithinTexts request_body estimate h =
      let (parts, collected, last) =
        >>=-eq-ok (collect_text_parts dumps str_of request_body) (estimate_parts utf8_encoder) h in
      (
        parts,
        collected,
        estimate_parts-IsWithinTexts parts estimate (collected-full request_body parts collected)
            last,
      )
