-- ===== src/Session/Tokens.antt =====
-- Buffer.toString("hex"), of which CSRF tokens and fallback request ids are made.
use Prim.Native.Char.{Char, code}
use history_quiz.Prelude.{ℕ, zero, suc, ◌/◌, ◌%◌, ◌≡◌, String, false, List, [], ◌∷◌, refl}
use history_quiz.Prelude.Text.{is_empty, is_blank, HasNoBlank}

digit_at : ℕ → String → Char
digit_at n String.[] = "0"
digit_at zero (String.◌∷◌ c s) = c
digit_at (suc n) (String.◌∷◌ c s) = digit_at n s

-- bytes.toString("hex")
unfoldable pub to_hex : List ℕ → String
unfolding digit_at
to_hex [] = ""
to_hex (b ∷ bs) =
    String.◌∷◌ (digit_at (b / 16) "0123456789abcdef")
      (String.◌∷◌ (digit_at (b % 16) "0123456789abcdef") (to_hex bs))

digit_at-solid : (n : ℕ) (s : String) → HasNoBlank s → is_blank (code (digit_at n s)) ≡ false
unfolding digit_at is_blank
digit_at-solid n String.[] h = refl
digit_at-solid zero (String.◌∷◌ c s) h = h.0
digit_at-solid (suc n) (String.◌∷◌ c s) h = digit_at-solid n s h.1

HasNoBlank-digits : HasNoBlank "0123456789abcdef"
unfolding is_blank
HasNoBlank-digits = (
  refl,
  (
    refl,
    (
      refl,
      (
        refl,
        (
          refl,
          (
            refl,
            (refl, (refl, (refl, (refl, (refl, (refl, (refl, (refl, (refl, (refl, tt)))))))))),
          ),
        ),
      ),
    ),
  ),
)

pub HasNoBlank-to_hex : (bs : List ℕ) → HasNoBlank (to_hex bs)
unfolding to_hex
HasNoBlank-to_hex [] = tt
HasNoBlank-to_hex (b ∷ bs) = (
  digit_at-solid (b / 16) "0123456789abcdef" HasNoBlank-digits,
  (digit_at-solid (b % 16) "0123456789abcdef" HasNoBlank-digits, HasNoBlank-to_hex bs),
)

pub is_empty-to_hex : (b : ℕ) (bs : List ℕ) → is_empty (to_hex (b ∷ bs)) ≡ false
unfolding to_hex
is_empty-to_hex b bs = refl
