-- ===== src/Base/Json.antt =====
-- The JSON values that Python's dicts of unknown shape hold, and what the source asks of them.
use mathlib.Core.Path.{◌≡◌, refl, ap}
use mathlib.Core.Bool.{Bool, true, false, not, ◌||◌}
use mathlib.Core.Option.{Option, none, some}
use mathlib.Core.List.{List, [], ◌∷◌}
use arango_sparql_py.Base.Eq.{◌==◌, nat_eq, list_eq}
use arango_sparql_py.Base.Lists.{is_nil}
use arango_sparql_py.Base.Dict.{Dict}
use arango_sparql_py.Base.Numbers.{ℤ, pos, negsuc}
use arango_sparql_py.Base.Str.{Str, codes}

-- A float is given by its repr.
mutual
  pub data Json : Type 0 where
    null : Json
    boolean : Bool → Json
    integer : ℤ → Json
    float : Str → Json
    text : Str → Json
    array : Items → Json
    object : Fields → Json

  pub data Items : Type 0 where
    nil : Items
    cons : Json → Items → Items

  pub data Fields : Type 0 where
    end : Fields
    field : Str → Json → Fields → Fields

unfoldable pub items : Items → List Json
items nil = []
items (cons j js) = j ∷ items js

unfoldable pub as_items : List Json → Items
as_items [] = nil
as_items (j ∷ js) = cons j (as_items js)

-- `d.items()`, and the object of a dict
unfoldable pub entries : Fields → Dict Str Json
entries end = []
entries (field k j fs) = (k, j) ∷ entries fs

unfoldable pub as_fields : Dict Str Json → Fields
as_fields [] = end
as_fields ((k, j) ∷ d) = field k j (as_fields d)

pub entries-as_fields : (d : Dict Str Json) → entries (as_fields d) ≡ d
unfolding entries as_fields
entries-as_fields [] = refl
entries-as_fields ((k, j) ∷ d) = ap (λ x. (k, j) ∷ x) (entries-as_fields d)

pub items-as_items : (js : List Json) → items (as_items js) ≡ js
unfolding items as_items
items-as_items [] = refl
items-as_items (j ∷ js) = ap (λ x. j ∷ x) (items-as_items js)

abbrev pub dict : Dict Str Json → Json
dict d = object (as_fields d)

abbrev pub optional_text : Option Str → Json
optional_text none = null
optional_text (some s) = text s

is_empty_items : Items → Bool
is_empty_items nil = true
is_empty_items (cons j js) = false

is_empty_fields : Fields → Bool
is_empty_fields end = true
is_empty_fields (field k j fs) = false

is_zero : ℤ → Bool
is_zero (pos n) = n == 0
is_zero (negsuc n) = false

-- `bool(x)`
unfoldable pub truthy : Json → Bool
unfolding is_empty_items is_empty_fields is_zero
truthy null = false
truthy (boolean b) = b
truthy (integer n) = not (is_zero n)
truthy (float s) = not (s == codes "0.0" || s == codes "-0.0")
truthy (text s) = not (is_nil s)
truthy (array js) = not (is_empty_items js)
truthy (object fs) = not (is_empty_fields fs)

-- `d.get(k)` read as JSON's null where it is missing
abbrev pub or_null : Option Json → Json
or_null none = null
or_null (some j) = j

abbrev pub is_null : Json → Bool
is_null null = true
is_null _ = false

abbrev pub as_text : Json → Option Str
as_text (text s) = some s
as_text _ = none
