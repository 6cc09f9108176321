-- ===== src/Prelude/Decimal.antt =====
-- Decimal texts: /^[0-9]+$/, Number.parseInt(s, 10) on such a text, and the text of a number.
use Prim.Native.Char.{Char, code}
use Prim.Native.Nat.{ℕ, zero, suc, ◌+◌, ◌-◌, ◌*◌, ◌/◌, ◌%◌, ◌<◌}
use Prim.Native.String.{String}
use mathlib.Core.Path.{◌≡◌, refl, ap, ◌∙◌}
use mathlib.Core.Logic.{inl, inr}
use mathlib.Core.Bool.{Bool, true, false, not, ◌&&◌}
use native.Mathlib.Omega.{arith}
use history_quiz.Prelude.Tests.{leb, ltb, if◌then◌else◌, Bool-cases}
use history_quiz.Prelude.Text.{is_empty, is_blank, trim, HasNoBlank, trim_of_HasNoBlank}

unfoldable pub is_digit : ℕ → Bool
is_digit c = leb b'0' c && leb c b'9'

unfoldable pub all_digits : String → Bool
unfolding is_digit
all_digits String.[] = true
all_digits (String.◌∷◌ c s) = is_digit (code c) && all_digits s

-- /^[0-9]+$/.test(s)
unfoldable pub is_decimal : String → Bool
unfolding all_digits
is_decimal s = not (is_empty s) && all_digits s

-- The number that a run of digits stands for, behind the digits of `acc`.
unfoldable pub value_from : ℕ → String → ℕ
value_from acc String.[] = acc
value_from acc (String.◌∷◌ c s) = value_from (acc * 10 + (code c - b'0')) s

digit_char : ℕ → Char
digit_char zero = "0"
digit_char (suc zero) = "1"
digit_char (suc (suc zero)) = "2"
digit_char (suc (suc (suc zero))) = "3"
digit_char (suc (suc (suc (suc zero)))) = "4"
digit_char (suc (suc (suc (suc (suc zero))))) = "5"
digit_char (suc (suc (suc (suc (suc (suc zero)))))) = "6"
digit_char (suc (suc (suc (suc (suc (suc (suc zero))))))) = "7"
digit_char (suc (suc (suc (suc (suc (suc (suc (suc zero)))))))) = "8"
digit_char _ = "9"

decimal_onto : ℕ → ℕ → String → String
decimal_onto zero n tail = tail
decimal_onto (suc f) n tail =
    let shorter = decimal_onto f (n / 10) (String.◌∷◌ (digit_char (n % 10)) tail) in
    if ltb n 10 then String.◌∷◌ (digit_char n) tail else shorter

-- `${n}`. The number itself is fuel enough: it falls at each round.
unfoldable pub to_decimal : ℕ → String
unfolding decimal_onto digit_char
to_decimal n = decimal_onto (suc n) n ""

code-digit_char : (d : ℕ) → d < 10 → code (digit_char d) ≡ d + 48
unfolding digit_char
code-digit_char zero h = refl
code-digit_char (suc zero) h = refl
code-digit_char (suc (suc zero)) h = refl
code-digit_char (suc (suc (suc zero))) h = refl
code-digit_char (suc (suc (suc (suc zero)))) h = refl
code-digit_char (suc (suc (suc (suc (suc zero))))) h = refl
code-digit_char (suc (suc (suc (suc (suc (suc zero)))))) h = refl
code-digit_char (suc (suc (suc (suc (suc (suc (suc zero))))))) h = refl
code-digit_char (suc (suc (suc (suc (suc (suc (suc (suc zero)))))))) h = refl
code-digit_char (suc (suc (suc (suc (suc (suc (suc (suc (suc zero))))))))) h = refl
code-digit_char (suc (suc (suc (suc (suc (suc (suc (suc (suc (suc d)))))))))) h =
    absurd (omega arith)

value_from-digit :
    (acc d : ℕ) (s : String)
    → d < 10
    → value_from acc (String.◌∷◌ (digit_char d) s) ≡ value_from (acc * 10 + d) s
unfolding value_from
value_from-digit acc d s h =
    ap (λ x. value_from x s)
      (let e : code (digit_char d) - 48 ≡ d = omega (arith, code-digit_char d h) in rw e)

value_from-decimal_onto :
    (f n : ℕ) (tail : String) → n < f → value_from 0 (decimal_onto f n tail) ≡ value_from n tail
unfolding decimal_onto
value_from-decimal_onto zero n tail h = absurd (omega arith)
value_from-decimal_onto (suc f) n tail h = elim (Bool-cases (ltb n 10)) [
  | inl e ↦
      rw e (value_from-digit 0 n tail (ground arith) ∙ ap (λ x. value_from x tail) (omega arith))
  | inr e ↦ rw e (
      value_from-decimal_onto f (n / 10) (String.◌∷◌ (digit_char (n % 10)) tail) (ground arith)
      ∙ (value_from-digit (n / 10) (n % 10) tail (omega arith)
          ∙ ap (λ x. value_from x tail) (omega arith)))
]

is_digit-digit_char : (d : ℕ) → d < 10 → is_digit (code (digit_char d)) ≡ true
unfolding is_digit
is_digit-digit_char d h = ground (arith, code-digit_char d h)

all_digits-decimal_onto :
    (f n : ℕ) (tail : String) → all_digits tail ≡ true → all_digits (decimal_onto f n tail) ≡ true
unfolding decimal_onto all_digits
all_digits-decimal_onto zero n tail h = h
all_digits-decimal_onto (suc f) n tail h = elim (Bool-cases (ltb n 10)) [
  | inl e ↦ rw e (rw (is_digit-digit_char n (ground arith)) h)
  | inr e ↦ rw e (
      all_digits-decimal_onto f (n / 10) (String.◌∷◌ (digit_char (n % 10)) tail)
        (rw (is_digit-digit_char (n % 10) (omega arith)) h))
]

is_empty-decimal_onto :
    (f n : ℕ) (tail : String) → is_empty tail ≡ false → is_empty (decimal_onto f n tail) ≡ false
unfolding decimal_onto
is_empty-decimal_onto zero n tail h = h
is_empty-decimal_onto (suc f) n tail h = elim (Bool-cases (ltb n 10)) [
  | inl e ↦ rw e
  | inr e ↦ rw e (is_empty-decimal_onto f (n / 10) (String.◌∷◌ (digit_char (n % 10)) tail) refl)
]

pub is_empty-to_decimal : (n : ℕ) → is_empty (to_decimal n) ≡ false
unfolding to_decimal
is_empty-to_decimal n = elim (Bool-cases (ltb n 10)) [
  | inl e ↦ rw e
  | inr e ↦ rw e (is_empty-decimal_onto n (n / 10) (String.◌∷◌ (digit_char (n % 10)) "") refl)
]

all_digits-to_decimal : (n : ℕ) → all_digits (to_decimal n) ≡ true
unfolding to_decimal
all_digits-to_decimal n = all_digits-decimal_onto (suc n) n "" (unfold all_digits in refl)

pub is_decimal-to_decimal : (n : ℕ) → is_decimal (to_decimal n) ≡ true
unfolding is_decimal
is_decimal-to_decimal n = rw (is_empty-to_decimal n, all_digits-to_decimal n)

pub value_from-to_decimal : (n : ℕ) → value_from 0 (to_decimal n) ≡ n
unfolding to_decimal
value_from-to_decimal n =
    value_from-decimal_onto (suc n) n "" (omega arith) ∙ (unfold value_from in refl)

is_blank_of_is_digit : (c : ℕ) → is_digit c ≡ true → is_blank c ≡ false
unfolding is_digit is_blank
is_blank_of_is_digit c h = ground arith

all_digits-HasNoBlank : (s : String) → all_digits s ≡ true → HasNoBlank s
unfolding all_digits
all_digits-HasNoBlank String.[] h = tt
all_digits-HasNoBlank (String.◌∷◌ c s) h =
    (is_blank_of_is_digit (code c) (ground arith), all_digits-HasNoBlank s (ground arith))

pub trim-to_decimal : (n : ℕ) → trim (to_decimal n) ≡ to_decimal n
trim-to_decimal n =
    trim_of_HasNoBlank (to_decimal n)
      (all_digits-HasNoBlank (to_decimal n) (all_digits-to_decimal n))
