-- ===== src/Observability/Names.antt =====
-- Metric names of paths, of client/app/services/observability.server.ts.
use Prim.Native.Char.{code}
use Prim.Native.String
use history_quiz.Prelude.{
  ℕ, zero, suc, String, ◌≡◌, refl, ◌/◌, Bool, true, false, ◌&&◌, ◌||◌, List, [], ◌∷◌, nat_eq, leb,
  if◌then◌else◌,
}
use history_quiz.Prelude.Decimal.{is_decimal, to_decimal}
use history_quiz.Prelude.Text.{is_empty, split_on}

-- [0-9a-f], with the flag i.
abbrev is_hex : ℕ → Bool
is_hex c = leb b'0' c && leb c b'9' || (leb b'a' c && leb c b'f' || leb b'A' c && leb c b'F')

-- The character classes of UUID_SEGMENT_PATTERN.
pub data Class : Type 0 where
  hex dash version variant : Class

abbrev in_class : Class → ℕ → Bool
in_class hex c = is_hex c
in_class dash c = nat_eq c b'-'
in_class version c = leb b'1' c && leb c b'5'
in_class variant c =
    nat_eq c b'8'
    || nat_eq c b'9'
    || (nat_eq c b'a' || nat_eq c b'b' || (nat_eq c b'A' || nat_eq c b'B'))

abbrev hex_run : ℕ → List Class → List Class
hex_run zero rest = rest
hex_run (suc n) rest = hex ∷ hex_run n rest

abbrev uuid_segment_pattern : List Class
uuid_segment_pattern = hex_run 8 (
    dash
    ∷ hex_run 4 (dash ∷ version ∷ hex_run 3 (dash ∷ variant ∷ hex_run 3 (dash ∷ hex_run 12 []))))

matches : List Class → String → Bool
matches [] String.[] = true
matches [] (String.◌∷◌ c s) = false
matches (k ∷ ks) String.[] = false
matches (k ∷ ks) (String.◌∷◌ c s) = in_class k (code c) && matches ks s

unfoldable pub is_uuid : String → Bool
unfolding matches
is_uuid segment = matches uuid_segment_pattern segment

-- The map and filter of normalizePathname.
unfoldable pub normalized_segments : List String → List String
normalized_segments [] = []
normalized_segments (s ∷ ss) =
    let rest = normalized_segments ss in
    if is_empty s then rest else (if is_uuid s || is_decimal s then ":id" else s) ∷ rest

-- segments.join(sep)
unfoldable pub join : String → List String → String
join sep [] = ""
join sep (s ∷ []) = s
join sep (s ∷ t ∷ ss) = String.◌++◌ s (String.◌++◌ sep (join sep (t ∷ ss)))

-- normalizePathname
unfoldable pub normalize_pathname : String → String
unfolding normalized_segments join split_on is_uuid is_decimal
normalize_pathname pathname =
    String.◌++◌ "/" (join "/" (normalized_segments (split_on b'/' pathname)))

-- toHttpStatusClass, of a status that is a natural number.
unfoldable pub to_http_status_class : ℕ → String
to_http_status_class status =
    if nat_eq status 0 then "unknown" else String.◌++◌ (to_decimal (status / 100)) "xx"

normalize_pathname_test :
    normalize_pathname "//questions/0f8fad5b-d9cb-469f-a165-70867728950E/edit/42"
    ≡ "/questions/:id/edit/:id"
unfolding normalize_pathname
normalize_pathname_test = refl
