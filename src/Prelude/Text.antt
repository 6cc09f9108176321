-- ===== src/Prelude/Text.antt =====
-- Text as the program handles it: trimming, emptiness and prefixes of JavaScript strings.
use Prim.Native.Char.{Char, code}
use Prim.Native.Nat.{ℕ}
use Prim.Native.String.{String}
use mathlib.Core.Path.{◌≡◌, refl, ap, ◌∙◌}
use mathlib.Core.Logic.{inl, inr}
use mathlib.Core.Bool.{Bool, true, false, not, ◌&&◌, ◌||◌}
use mathlib.Core.List.{List, [], ◌∷◌}
use mathlib.Core.Option.{Option, none, some}
use history_quiz.Prelude.Tests.{leb, nat_eq, if◌then◌else◌, Bool-cases}

abbrev pub is_empty : String → Bool
is_empty String.[] = true
is_empty (String.◌∷◌ c s) = false

-- WhiteSpace and LineTerminator of ECMAScript, which `trim` removes.
unfoldable pub is_blank : ℕ → Bool
is_blank c =
    leb 9 c && leb c 13
    || nat_eq c 32
    || nat_eq c 0xa0
    || nat_eq c 0x1680
    || leb 0x2000 c && leb c 0x200a
    || nat_eq c 0x2028
    || nat_eq c 0x2029
    || nat_eq c 0x202f
    || nat_eq c 0x205f
    || nat_eq c 0x3000
    || nat_eq c 0xfeff

trim_start : String → String
trim_start String.[] = ""
trim_start (String.◌∷◌ c s) = if is_blank (code c) then trim_start s else String.◌∷◌ c s

trim_end : String → String
trim_end String.[] = ""
trim_end (String.◌∷◌ c s) =
    let r = trim_end s in if is_blank (code c) && is_empty r then "" else String.◌∷◌ c r

-- s.trim()
unfoldable pub trim : String → String
unfolding trim_start trim_end is_blank
trim s = trim_end (trim_start s)

-- hasText-like test: a string is there, and it is not blank.
unfoldable pub non_blank : String → Bool
unfolding trim
non_blank s = not (is_empty (trim s))

-- The trimmed text, or nothing if that is empty.
unfoldable pub trimmed : String → Option String
unfolding trim
trimmed s = if is_empty (trim s) then none else some (trim s)

-- s.startsWith(prefix)
unfoldable pub starts_with : String → String → Bool
starts_with s String.[] = true
starts_with String.[] (String.◌∷◌ c p) = false
starts_with (String.◌∷◌ d s) (String.◌∷◌ c p) = nat_eq (code d) (code c) && starts_with s p

-- The first part continued by `c`.
abbrev pub push_first : Char → List String → List String
push_first c [] = String.◌∷◌ c "" ∷ []
push_first c (p ∷ ps) = String.◌∷◌ c p ∷ ps

-- s.split(sep) at a separator of one character.
unfoldable pub split_on : ℕ → String → List String
split_on sep String.[] = "" ∷ []
split_on sep (String.◌∷◌ c s) =
    let rest = split_on sep s in if nat_eq (code c) sep then "" ∷ rest else push_first c rest

-- No blank at the front.
abbrev IsSolid : String → Type 0
IsSolid String.[] = Unit
IsSolid (String.◌∷◌ c s) = is_blank (code c) ≡ false

IsSolid-trim_start : (s : String) → IsSolid (trim_start s)
unfolding trim_start
IsSolid-trim_start String.[] = tt
IsSolid-trim_start (String.◌∷◌ c s) = elim (Bool-cases (is_blank (code c))) [
  | inl e ↦ rw e (IsSolid-trim_start s)
  | inr e ↦ rw e e
]

trim_start_of_IsSolid : (s : String) → IsSolid s → trim_start s ≡ s
unfolding trim_start
trim_start_of_IsSolid String.[] h = refl
trim_start_of_IsSolid (String.◌∷◌ c s) h = rw h

IsSolid-trim_end : (s : String) → IsSolid s → IsSolid (trim_end s)
unfolding trim_end
IsSolid-trim_end String.[] h = tt
IsSolid-trim_end (String.◌∷◌ c s) h = rw h h

trim_end_idem : (s : String) → trim_end (trim_end s) ≡ trim_end s
unfolding trim_end
trim_end_idem String.[] = refl
trim_end_idem (String.◌∷◌ c s) = elim (Bool-cases (is_blank (code c) && is_empty (trim_end s))) [
  | inl e ↦ rw e
  | inr e ↦ rw e (rw (trim_end_idem s) (rw e))
]

pub trim_idem : (s : String) → trim (trim s) ≡ trim s
unfolding trim
trim_idem s =
    ap trim_end (
      trim_start_of_IsSolid (trim_end (trim_start s))
        (IsSolid-trim_end (trim_start s) (IsSolid-trim_start s)))
    ∙ trim_end_idem (trim_start s)

-- No blank anywhere.
abbrev pub HasNoBlank : String → Type 0
HasNoBlank String.[] = Unit
HasNoBlank (String.◌∷◌ c s) = (is_blank (code c) ≡ false) × HasNoBlank s

trim_end_of_HasNoBlank : (s : String) → HasNoBlank s → trim_end s ≡ s
unfolding trim_end
trim_end_of_HasNoBlank String.[] h = refl
trim_end_of_HasNoBlank (String.◌∷◌ c s) (p, h) = rw (p, trim_end_of_HasNoBlank s h)

pub trim_of_HasNoBlank : (s : String) → HasNoBlank s → trim s ≡ s
unfolding trim
trim_of_HasNoBlank String.[] h = refl
trim_of_HasNoBlank (String.◌∷◌ c s) h =
    ap trim_end (trim_start_of_IsSolid (String.◌∷◌ c s) h.0)
    ∙ trim_end_of_HasNoBlank (String.◌∷◌ c s) h

trim_test : trim "  a b  " ≡ "a b"
unfolding trim
trim_test = refl
