-- ===== src/Prelude/Dict.antt =====
-- Plain JavaScript objects with text keys, used as dictionaries: own properties in insertion order.
use Prim.Native.Char.{code}
use Prim.Native.Nat.{ℕ, ◌+◌, ◌-◌, ◌*◌}
use Prim.Native.String.{String}
use mathlib.Core.Path.{◌≡◌, refl}
use mathlib.Core.Bool.{◌&&◌}
use mathlib.Core.Option.{Option, none, some}
use mathlib.Core.List.{List, [], ◌∷◌, ◌++◌}
use native.Mathlib.Omega.{arith}
use text.Mathlib.Text.{◌==◌}
use text.Mathlib.TextEquality.{eq_iff}
use history_quiz.Prelude.Tests.{leb, ltb, nat_eq, if◌then◌else◌}

module _ {ℓ} {V : Type ℓ} where
  -- o[k] for an own property.
  unfoldable pub lookup : String → List (String × V) → Option V
  lookup k [] = none
  lookup k ((j, v) ∷ m) = if j == k then some v else lookup k m

  -- An overwritten property keeps its place.
  unfoldable pub put : String → V → List (String × V) → List (String × V)
  put k v [] = (k, v) ∷ []
  put k v ((j, w) ∷ m) = if j == k then (k, v) ∷ m else (j, w) ∷ put k v m

  -- o[k] = v for a value v that is no object: a write to `__proto__` is ignored.
  unfoldable pub assign : String → V → List (String × V) → List (String × V)
  unfolding put
  assign k v m = if k == "__proto__" then m else put k v m

  pub lookup-put :
      (k j : String) (v : V) (m : List (String × V))
      → lookup j (put k v m) ≡ (if k == j then some v else lookup j m)
  unfolding lookup put
  lookup-put k j v [] = refl
  lookup-put k j v ((i, w) ∷ m) =
      ground (arith, eq_iff k j, eq_iff i k, eq_iff i j, lookup-put k j v m)

-- The value of an array index: decimal digits with no leading zero, below 2 ^ 32 - 1.
index_from : ℕ → String → Option ℕ
index_from n String.[] = if ltb n 4294967295 then some n else none
index_from n (String.◌∷◌ c s) =
    if leb b'0' (code c) && leb (code c) b'9' then index_from (n * 10 + (code c - b'0')) s else none

unfoldable pub array_index : String → Option ℕ
unfolding index_from
array_index String.[] = none
array_index (String.◌∷◌ c s) =
    if nat_eq (code c) b'0'
    then (if s == "" then some 0 else none)
    else index_from 0 (String.◌∷◌ c s)

module _ {ℓ} {V : Type ℓ} where
  insert_index : ℕ → String × V → List (ℕ × (String × V)) → List (ℕ × (String × V))
  insert_index n e [] = (n, e) ∷ []
  insert_index n e ((m, f) ∷ r) =
      if leb m n then (m, f) ∷ insert_index n e r else (n, e) ∷ (m, f) ∷ r

  indexed : List (String × V) → List (ℕ × (String × V))
  indexed [] = []
  indexed ((k, v) ∷ m) = elim (array_index k) [
    | none ↦ indexed m
    | some n ↦ insert_index n (k, v) (indexed m)
  ]

  named : List (String × V) → List (String × V)
  named [] = []
  named ((k, v) ∷ m) = elim (array_index k) [ none ↦ (k, v) ∷ named m | some n ↦ named m ]

  entries_of : List (ℕ × (String × V)) → List (String × V)
  entries_of [] = []
  entries_of ((n, e) ∷ r) = e ∷ entries_of r

  -- Object.entries: the array indices in ascending order, then the other keys as inserted.
  unfoldable pub object_entries : List (String × V) → List (String × V)
  unfolding insert_index indexed named entries_of array_index
  object_entries m = entries_of (indexed m) ++ named m

entries_order :
    object_entries {V = ℕ} (("b", 1) ∷ ("10", 2) ∷ ("9", 3) ∷ ("01", 4) ∷ [])
    ≡ ("9", 3) ∷ ("10", 2) ∷ ("b", 1) ∷ ("01", 4) ∷ []
unfolding object_entries
entries_order = refl

-- Every name that an object inherits from Object.prototype.
abbrev pub prototype_names : List String
prototype_names =
    "constructor" ∷ "__defineGetter__" ∷ "__defineSetter__" ∷ "hasOwnProperty" ∷ "__lookupGetter__"
    ∷ "__lookupSetter__" ∷ "isPrototypeOf" ∷ "propertyIsEnumerable" ∷ "toString" ∷ "valueOf"
    ∷ "__proto__" ∷ "toLocaleString" ∷ []
