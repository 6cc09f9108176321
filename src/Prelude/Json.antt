-- ===== src/Prelude/Json.antt =====
-- Values of JSON.parse, and the properties of objects.
use Prim.Native.String.{String}
use Prim.Native.Nat.{ℕ}
use mathlib.Core.Bool.{Bool}
use mathlib.Core.Option.{Option, none, some}
use mathlib.Core.List.{List, [], ◌∷◌}
use history_quiz.Prelude.Dict.{lookup}

-- A number is natural, or lies strictly between `n` and `n + 1`, or is negative.
mutual
  pub data Json : Type 0 where
    null : Json
    bool : Bool → Json
    nat : ℕ → Json
    fraction : ℕ → Json
    negative : Json
    str : String → Json
    arr : Items → Json
    obj : Fields → Json

  pub data Items : Type 0 where
    nil : Items
    cons : Json → Items → Items

  pub data Fields : Type 0 where
    end : Fields
    field : String → Json → Fields → Fields

abbrev pub items : Items → List Json
items nil = []
items (cons v vs) = v ∷ items vs

abbrev pub fields : Fields → List (String × Json)
fields end = []
fields (field k v fs) = (k, v) ∷ fields fs

-- value.key, where `none` is undefined. An array has none of the properties that are asked for.
unfoldable pub property : String → Json → Option Json
unfolding lookup
property key (obj fs) = lookup key (fields fs)
property key _ = none

-- typeof value === "string"
abbrev pub as_text : Option Json → Option String
as_text (some (str s)) = some s
as_text _ = none

-- a ?? b
abbrev pub coalesce : Option Json → Option Json → Option Json
coalesce none b = b
coalesce (some null) b = b
coalesce (some v) b = some v
