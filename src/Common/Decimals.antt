-- ===== src/Common/Decimals.antt =====
-- Decimal numerals: `str(n)` of a natural number, and the number that digits spell.
use Prim.Native.Nat.{ℕ, zero, suc, ◌+◌, ◌-◌, ◌*◌, ◌/◌, ◌%◌, ◌<◌}
use mathlib.Core.Path.{◌≡◌, refl}
use mathlib.Core.Logic.{inl, inr}
use mathlib.Core.Bool.{Bool, true, false, ◌&&◌}
use mathlib.Core.List.{[], ◌∷◌}
use native.Mathlib.Omega.{arith}
use saa_s_governance_layer_r.Common.Tests.{leb, ltb, if◌then◌else◌, Bool-cases}
use saa_s_governance_layer_r.Common.Lists.{all, is_empty}
use saa_s_governance_layer_r.Common.Texts.{Text}

abbrev pub is_digit : ℕ → Bool
is_digit c = leb b'0' c && leb c b'9'

-- The digits of `n` before the text `rest`, on fuel.
show_from : ℕ → ℕ → Text → Text
show_from zero n rest = rest
show_from (suc fuel) n rest =
    let more = show_from fuel (n / 10) ((b'0' + n % 10) ∷ rest) in
    if ltb n 10 then (b'0' + n) ∷ rest else more

-- `str(n)`; each round divides by ten, so `n + 1` rounds are enough.
unfoldable pub show : ℕ → Text
unfolding show_from
show n = show_from (suc n) n []

-- The number that digits spell behind `n`.
unfoldable pub read_from : ℕ → Text → ℕ
read_from n [] = n
read_from n (c ∷ s) = read_from (n * 10 + (c - b'0')) s

abbrev pub read : Text → ℕ
read s = read_from 0 s

read-show_from :
    (fuel n : ℕ) (rest : Text) → n < fuel → read (show_from fuel n rest) ≡ read_from n rest
unfolding show_from read_from
read-show_from zero n rest h = elim h [ ]
read-show_from (suc fuel) n rest h = elim (Bool-cases (ltb n 10)) [
  | inl last ↦ rw last (ground arith)
  | inr more ↦ rw more (ground (arith, read-show_from fuel (n / 10) ((b'0' + n % 10) ∷ rest)))
]

show_from-digits :
    (fuel n : ℕ) (rest : Text)
    → all is_digit rest ≡ true
    → all is_digit (show_from fuel n rest) ≡ true
unfolding show_from
show_from-digits zero n rest h = h
show_from-digits (suc fuel) n rest h =
    ground (arith, show_from-digits fuel (n / 10) ((b'0' + n % 10) ∷ rest))

show_from-full :
    (fuel n : ℕ) (rest : Text) → is_empty rest ≡ false → is_empty (show_from fuel n rest) ≡ false
unfolding show_from
show_from-full zero n rest h = h
show_from-full (suc fuel) n rest h =
    ground (arith, show_from-full fuel (n / 10) ((b'0' + n % 10) ∷ rest))

-- A numeral reads back as its number.
pub read-show : (n : ℕ) → read (show n) ≡ n
unfolding show read_from
read-show n = read-show_from (suc n) n [] (omega arith)

pub show-digits : (n : ℕ) → all is_digit (show n) ≡ true
unfolding show
show-digits n = show_from-digits (suc n) n [] refl

pub show-full : (n : ℕ) → is_empty (show n) ≡ false
unfolding show show_from
show-full n = ground (arith, show_from-full n (n / 10) ((b'0' + n % 10) ∷ []))

show_tests : show 0 ≡ b'0' ∷ []
unfolding show
show_tests = refl

show_long : read (show 1203) ≡ 1203
unfolding show read_from
show_long = refl
