-- ===== src/Prelude/ParseInt.antt =====
-- Number.parseInt(s, 10).
use Prim.Native.Char.{code}
use Prim.Native.Nat.{ℕ, ◌+◌, ◌-◌, ◌*◌}
use Prim.Native.String.{String}
use mathlib.Core.Bool.{Bool, true, false}
use mathlib.Core.Option.{Option, none, some}
use history_quiz.Prelude.Tests.{nat_eq, if◌then◌else◌}
use history_quiz.Prelude.Text.{trim}
use history_quiz.Prelude.Decimal.{is_digit}

-- A parsed integer; its size is kept exact, also where a double would round it.
pub data Parsed : Type 0 where
  not_a_number : Parsed
  positive : ℕ → Parsed
  negative : ℕ → Parsed

-- The leading digits, behind those of `acc`.
digits_prefix : ℕ → String → ℕ
digits_prefix acc String.[] = acc
digits_prefix acc (String.◌∷◌ c s) =
    let rest = digits_prefix (acc * 10 + (code c - b'0')) s in
    if is_digit (code c) then rest else acc

digits_or_none : String → Option ℕ
digits_or_none String.[] = none
digits_or_none (String.◌∷◌ c s) =
    if is_digit (code c) then some (digits_prefix 0 (String.◌∷◌ c s)) else none

signed : Bool → Option ℕ → Parsed
signed sign none = not_a_number
signed true (some n) = negative n
signed false (some n) = positive n

parse_signed : String → Parsed
parse_signed String.[] = not_a_number
parse_signed (String.◌∷◌ c s) =
    if nat_eq (code c) b'-'
    then signed true (digits_or_none s)
    else if nat_eq (code c) b'+'
    then signed false (digits_or_none s)
    else signed false (digits_or_none (String.◌∷◌ c s))

unfoldable pub parse_int : String → Parsed
unfolding trim is_digit parse_signed signed digits_or_none digits_prefix
parse_int s = parse_signed (trim s)

-- A setting in an environment variable: a number above 0, or else the default.
unfoldable pub positive_setting : (raw : Option String) → (default : ℕ) → ℕ
positive_setting none default = default
positive_setting (some raw) default = elim (parse_int raw) [
  | not_a_number ↦ default
  | negative n ↦ default
  | positive n ↦ if nat_eq n 0 then default else n
]
