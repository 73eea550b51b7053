-- ===== src/Common/Texts.antt =====
-- Python's `str` as its code points. `lower` is exact below U+0100, the range of a decoded HTTP
-- header, and `strip` removes what `str.isspace` accepts.
use Prim.Native.Nat.{ℕ, ◌+◌}
use Prim.Native.Char.{code}
use Prim.Native.String.{String}
use mathlib.Core.Path.{◌≡◌, refl, ap, subst}
use mathlib.Core.Logic.{◌↔◌, ◌≢◌, inl, inr}
use mathlib.Core.Bool.{Bool, true, false, not, ◌&&◌, ◌||◌}
use mathlib.Core.Option.{Option, none, some}
use mathlib.Core.List.{List, [], ◌∷◌, ◌++◌, reverse, reverse-cons}
use native.Mathlib.Omega.{arith}
use saa_s_governance_layer_r.Common.Tests.{
  Eq, nat_beq, nat_beq_iff, leb, if◌then◌else◌, Bool-cases, Option-cases, some_unique,
}

abbrev pub Text : Type 0
Text = List ℕ

-- The text that a literal stands for.
abbrev pub codes : String → Text
codes String.[] = []
codes (String.◌∷◌ c s) = code c ∷ codes s

unfoldable pub text_beq : Text → Text → Bool
text_beq [] [] = true
text_beq (x ∷ xs) (y ∷ ys) = nat_beq x y && text_beq xs ys
text_beq _ _ = false

pub text_beq_iff : (s t : Text) → (text_beq s t ≡ true) ↔ (s ≡ t)
unfolding text_beq
text_beq_iff [] [] = ground arith
text_beq_iff [] (y ∷ ys) = ground arith
text_beq_iff (x ∷ xs) [] = ground arith
text_beq_iff (x ∷ xs) (y ∷ ys) = ground (arith, text_beq_iff xs ys, nat_beq_iff x y)

instance abbrev pub text_eq : Eq Text
text_eq = record { test = text_beq; decides = text_beq_iff }

abbrev pub is_upper : ℕ → Bool
is_upper c = (leb b'A' c && leb c b'Z') || (leb 0xc0 c && leb c 0xde && not (nat_beq c 0xd7))

unfoldable pub lower_char : ℕ → ℕ
lower_char c = if is_upper c then c + 32 else c

-- `str.lower`
unfoldable pub lower : Text → Text
unfolding lower_char
lower [] = []
lower (c ∷ s) = lower_char c ∷ lower s

-- `str.isspace` of one character
unfoldable pub is_space : ℕ → Bool
is_space c =
    (leb 9 c && leb c 13)
    || (leb 28 c && leb c 32)
    || nat_beq c 0x85
    || nat_beq c 0xa0
    || nat_beq c 0x1680
    || (leb 0x2000 c && leb c 0x200a)
    || nat_beq c 0x2028
    || nat_beq c 0x2029
    || nat_beq c 0x202f
    || nat_beq c 0x205f
    || nat_beq c 0x3000

unfoldable pub lstrip : Text → Text
unfolding is_space
lstrip [] = []
lstrip (c ∷ s) = if is_space c then lstrip s else c ∷ s

-- `str.strip`
unfoldable pub strip : Text → Text
unfolding lstrip
strip s = reverse (lstrip (reverse (lstrip s)))

-- `str.partition` by one character; `none` when it is missing.
unfoldable pub partition : ℕ → Text → Option (Text × Text)
partition sep [] = none
partition sep (c ∷ s) =
    if nat_beq c sep
    then some ([], s)
    else elim (partition sep s) [ none ↦ none | some (a, b) ↦ some (c ∷ a, b) ]

-- `str.split` by one character; the rest is split first, so each step is one structural call.
cons_head : ℕ → List Text → List Text
cons_head c [] = (c ∷ []) ∷ []
cons_head c (p ∷ ps) = (c ∷ p) ∷ ps

unfoldable pub split : ℕ → Text → List Text
unfolding cons_head
split sep [] = [] ∷ []
split sep (c ∷ s) = let r = split sep s in if nat_beq c sep then [] ∷ r else cons_head c r

-- `str.count` of one character
unfoldable pub count : ℕ → Text → ℕ
count sep [] = 0
count sep (c ∷ s) = (if nat_beq c sep then 1 else 0) + count sep s

-- `str.startswith`
unfoldable pub starts_with : Text → Text → Bool
starts_with s [] = true
starts_with [] (p ∷ ps) = false
starts_with (c ∷ s) (p ∷ ps) = nat_beq c p && starts_with s ps

-- `str.endswith`
unfoldable pub ends_with : Text → Text → Bool
unfolding starts_with
ends_with s suffix = starts_with (reverse s) (reverse suffix)

-- `needle in s`
unfoldable pub contains_text : Text → Text → Bool
unfolding starts_with
contains_text [] needle = starts_with [] needle
contains_text (c ∷ s) needle = starts_with (c ∷ s) needle || contains_text s needle

lower_char_idem : (c : ℕ) → lower_char (lower_char c) ≡ lower_char c
unfolding lower_char
lower_char_idem c = ground arith

pub lower_idem : (s : Text) → lower (lower s) ≡ lower s
unfolding lower
lower_idem [] = refl
lower_idem (c ∷ s) = rw (lower_char_idem c, lower_idem s)

lower_char-colon : (c : ℕ) → nat_beq (lower_char c) b':' ≡ nat_beq c b':'
unfolding lower_char
lower_char-colon c = ground arith

is_space-lower_char : (c : ℕ) → is_space (lower_char c) ≡ is_space c
unfolding lower_char is_space
is_space-lower_char c = ground arith

pub lower-append : (s t : Text) → lower (s ++ t) ≡ lower s ++ lower t
unfolding lower
lower-append [] t = refl
lower-append (c ∷ s) t = rw (lower-append s t)

lower-reverse : (s : Text) → lower (reverse s) ≡ reverse (lower s)
unfolding lower
lower-reverse [] = refl
lower-reverse (c ∷ s) = simp (reverse-cons, lower-append, lower-reverse s)

lstrip-lower : (s : Text) → lstrip (lower s) ≡ lower (lstrip s)
unfolding lstrip lower
lstrip-lower [] = refl
lstrip-lower (c ∷ s) = ground (arith, is_space-lower_char c, lstrip-lower s)

pub strip-lower : (s : Text) → strip (lower s) ≡ lower (strip s)
unfolding strip
strip-lower s = simp (lstrip-lower, ← lower-reverse)

pub count-lower : (s : Text) → count b':' (lower s) ≡ count b':' s
unfolding count lower
count-lower [] = refl
count-lower (c ∷ s) = rw (lower_char-colon c, count-lower s)

pub count-append : (sep : ℕ) (s t : Text) → count sep (s ++ t) ≡ count sep s + count sep t
unfolding count
count-append sep [] t = omega arith
count-append sep (c ∷ s) t = omega (arith, count-append sep s t)

-- The first part of a split at the first separator.
pub split-first :
    (sep : ℕ) (s t : Text)
    → count sep s ≡ 0
    → (ps : List Text) × (split sep (s ++ sep ∷ t) ≡ s ∷ ps)
unfolding split count cons_head
split-first sep [] t h = (split sep t, ground arith)
split-first sep (c ∷ s) t h = let (ps, e) = split-first sep s t (ground arith) in (ps, ground arith)

-- `str.split()`: the runs of characters that are not blank; `word` is the run being read, reversed.
close_word : Text → List Text → List Text
close_word [] words = words
close_word (c ∷ w) words = reverse (c ∷ w) ∷ words

split_spaces_from : Text → Text → List Text
split_spaces_from word [] = close_word word []
split_spaces_from word (c ∷ s) =
    let next = close_word word (split_spaces_from [] s) in
    let longer = split_spaces_from (c ∷ word) s in if is_space c then next else longer

unfoldable pub split_spaces : Text → List Text
unfolding split_spaces_from close_word is_space
split_spaces s = split_spaces_from [] s

pub partition-some :
    (sep : ℕ) (s a b : Text)
    → partition sep s ≡ some (a, b)
    → (s ≡ a ++ sep ∷ b) × (count sep a ≡ 0)
unfolding partition count
partition-some sep [] a b h = cc h
partition-some sep (c ∷ s) a b h = elim (Bool-cases (nat_beq c sep)) [
  | inl found ↦ ground (arith, found, h)
  | inr other ↦ elim (Option-cases (partition sep s)) [
    | inl missing ↦ cc (rw (partition, other, missing) at h)
    | inr ((x, y), rest) ↦
        let (parts, plain) = partition-some sep s x y rest in
        let cut : (c ∷ x, y) ≡ (a, b) = some_unique (rw (partition, other, rest) refl) h in
        subst (λ p. (c ∷ s ≡ p.0 ++ sep ∷ p.1) × (count sep p.0 ≡ 0)) cut
          (ap (λ t. c ∷ t) parts, ground (arith, plain, other))
  ]
]

pub partition-first :
    (sep : ℕ) (s t : Text) → count sep s ≡ 0 → partition sep (s ++ sep ∷ t) ≡ some (s, t)
unfolding partition count
partition-first sep [] t h = ground arith
partition-first sep (c ∷ s) t h = ground (arith, partition-first sep s t)

pub text-ne : (s t : Text) → text_beq s t ≡ false → s ≢ t
text-ne s t h = ground (arith, text_beq_iff s t)
