-- ===== src/Prelude/Letters.antt =====
-- What the program relies on of `String.prototype.toUpperCase`, whose table is Unicode's.
use Prim.Native.Char.{code}
use Prim.Native.String.{String}
use mathlib.Core.Path.{◌≡◌}
use mathlib.Core.Bool.{Bool, true, false, ◌&&◌, ◌||◌}
use history_quiz.Prelude.Tests.{leb, nat_eq}

-- Holds an ASCII small letter.
unfoldable pub has_lower : String → Bool
has_lower String.[] = false
has_lower (String.◌∷◌ c s) = leb b'a' (code c) && leb (code c) b'z' || has_lower s

-- Holds only ASCII capitals and underscores.
unfoldable pub is_capital : String → Bool
is_capital String.[] = true
is_capital (String.◌∷◌ c s) =
    (leb b'A' (code c) && leb (code c) b'Z' || nat_eq (code c) b'_') && is_capital s

-- The result has no ASCII small letter, and capitals and underscores stay.
pub record UpperCase : Type 0 where
  pub to_upper_case : String → String
  pub no_lower : (s : String) → has_lower (to_upper_case s) ≡ false
  pub keeps_capital : (s : String) → is_capital s ≡ true → to_upper_case s ≡ s
