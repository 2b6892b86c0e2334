-- ===== src/Prelude/Json.antt =====
-- Parsed JSON, as Python's `json` returns it, and the tests that the program makes on it.
use sicurre.Prelude.Tests.{ltb, if◌then◌else◌}
use sicurre.Prelude.Text.{Text, codes, text_eq, is_empty, lower}
use Prim.Native.Nat.{ℕ}
use Prim.Native.String.{String}
use mathlib.Core.Bool.{Bool, true, false, not, ◌||◌}
use mathlib.Core.Option.{Option, none, some}
use mathlib.Core.List.{List, [], ◌∷◌}

mutual
  pub data Json : Type 0 where
    null : Json
    bool : Bool → Json
    num : ℕ → Json
    str : Text → Json
    arr : Items → Json
    obj : Fields → Json

  pub data Items : Type 0 where
    nil : Items
    cons : Json → Items → Items

  pub data Fields : Type 0 where
    end : Fields
    field : Text → Json → Fields → Fields

abbrev pub items : Items → List Json
items nil = []
items (cons v vs) = v ∷ items vs

abbrev pub keys : Fields → List Json
keys end = []
keys (field k v fs) = str k ∷ keys fs

abbrev pub chars : Text → List Json
chars [] = []
chars (c ∷ s) = str (c ∷ []) ∷ chars s

-- The value of a key in an object; a JSON object that repeats a key keeps the last value.
abbrev pub field_of : Text → Fields → Option Json
field_of k end = none
field_of k (field j v fs) = elim (field_of k fs) [
  | some w ↦ some w
  | none ↦ if text_eq j k then some v else none
]

-- `v.get(k)`, for a value that is an object
abbrev pub get : String → Json → Json
get k (obj fs) = elim (field_of (codes k) fs) [ none ↦ null | some v ↦ v ]
get k _ = null

abbrev pub is_obj : Json → Bool
is_obj (obj _) = true
is_obj _ = false

abbrev pub is_true : Json → Bool
is_true (bool b) = b
is_true _ = false

-- `bool(v)`
abbrev pub truthy : Json → Bool
truthy null = false
truthy (bool b) = b
truthy (num n) = ltb 0 n
truthy (str s) = not (is_empty s)
truthy (arr nil) = false
truthy (arr (cons _ _)) = true
truthy (obj end) = false
truthy (obj (field _ _ _)) = true

-- `for x in v`; `none` is a TypeError.
abbrev pub iterate : Json → Option (List Json)
iterate null = none
iterate (bool _) = none
iterate (num _) = none
iterate (str s) = some (chars s)
iterate (arr vs) = some (items vs)
iterate (obj fs) = some (keys fs)

-- `str(v or "")`; `print` is Python's `str` on a value that is no string.
abbrev pub str_or_empty : (Json → Text) → Json → Text
str_or_empty print v = if truthy v then (elim v [ str s ↦ s | other ↦ print other ]) else codes ""

-- `str(v)`
abbrev pub str_of : (Json → Text) → Json → Text
str_of print v = elim v [ str s ↦ s | other ↦ print other ]

-- `text in {str(v).lower() for v in vs}`
abbrev pub lowered_among : (Json → Text) → Text → List Json → Bool
lowered_among print t [] = false
lowered_among print t (v ∷ vs) = text_eq (lower (str_of print v)) t || lowered_among print t vs

-- `v == word`
abbrev pub is_word : String → Json → Bool
is_word word v = elim v [ str s ↦ text_eq s (codes word) | _ ↦ false ]

-- `v if isinstance(v, list) else []`, and the same for an object
abbrev pub list_or_empty : Json → List Json
list_or_empty (arr vs) = items vs
list_or_empty _ = []

abbrev pub object_or_empty : Json → Json
object_or_empty (obj fs) = obj fs
object_or_empty _ = obj end
