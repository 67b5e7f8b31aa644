-- ===== src/Base/Json.antt =====
-- The values of a JSON or TOML document as Python reads them, with the tuples that `asdict` keeps,
-- dictionary lookup, and what JSON makes of a value.
use Prim.Native.String.{String}
use mathlib.Core.Bool.{Bool, true, false, not, ◌&&◌}
use mathlib.Core.Option.{Option, none, some}
use mathlib.Core.List.{List, [], ◌∷◌}
use text.Mathlib.Text.{◌==◌ as str_eq}
use Prim.Native.Nat.{ℕ, zero, suc}
use jpapt_v2_2_inspection.Base.Int.{ℤ, pos, eq_ℤ}
use jpapt_v2_2_inspection.Base.Tests.{if◌then◌else◌, ◌==◌}

-- A float: one that equals an integer, or another by its bit pattern.
pub data Real : Type 0 where
  whole : ℤ → Real
  other : ℕ → Real

mutual
  pub data Json : Type 0 where
    null : Json
    bool : Bool → Json
    int : ℤ → Json
    real : Real → Json
    str : String → Json
    arr : Items → Json
    tuple : Items → Json
    obj : Fields → Json

  pub data Items : Type 0 where
    nil : Items
    cons : Json → Items → Items

  pub data Fields : Type 0 where
    end : Fields
    field : String → Json → Fields → Fields

-- `d.get(key)`, with `none` where the key is missing.
unfoldable pub find : String → Fields → Option Json
find key end = none
find key (field k v rest) = if str_eq k key then some v else find key rest

-- `d.get(key)`: a missing key reads as `None`.
abbrev pub or_null : Option Json → Json
or_null none = null
or_null (some v) = v

-- `set(d)`, as a list.
unfoldable pub keys : Fields → List String
keys end = []
keys (field k v rest) = k ∷ keys rest

unfoldable pub items : Items → List Json
items nil = []
items (cons v rest) = v ∷ items rest

-- `bool(v)`
abbrev pub truthy : Json → Bool
truthy null = false
truthy (bool b) = b
truthy (int (pos zero)) = false
truthy (real (whole (pos zero))) = false
truthy (str s) = not (str_eq s "")
truthy (arr nil) = false
truthy (tuple nil) = false
truthy (obj end) = false
truthy _ = true

-- The number that a value is: a Boolean is one in Python.
abbrev pub number_of : Json → Option Real
number_of (bool true) = some (whole (pos 1))
number_of (bool false) = some (whole (pos 0))
number_of (int n) = some (whole n)
number_of (real r) = some r
number_of _ = none

abbrev pub same_real : Real → Real → Bool
same_real (whole m) (whole n) = eq_ℤ m n
same_real (other m) (other n) = m == n
same_real _ _ = false

abbrev pub same_number : Option Real → Json → Bool
same_number none b = false
same_number (some r) b = elim (number_of b) [ none ↦ false | some s ↦ same_real r s ]

unfoldable pub count_fields : Fields → ℕ
count_fields end = 0
count_fields (field k v rest) = suc (count_fields rest)

-- `a == b`: the order of an object's fields does not count.
unfoldable mutual
  pub same_json : Json → Json → Bool
  same_json null b = elim b [ null ↦ true | _ ↦ false ]
  same_json (str s) b = elim b [ str t ↦ str_eq s t | _ ↦ false ]
  same_json (arr xs) b = elim b [ arr ys ↦ same_items xs ys | _ ↦ false ]
  same_json (tuple xs) b = elim b [ tuple ys ↦ same_items xs ys | _ ↦ false ]
  same_json (obj fields) b = elim b [
    | obj others ↦ count_fields fields == count_fields others && same_fields fields others
    | _ ↦ false
  ]
  same_json (bool x) b = same_number (number_of (bool x)) b
  same_json (int n) b = same_number (number_of (int n)) b
  same_json (real r) b = same_number (number_of (real r)) b

  same_items : Items → Items → Bool
  same_items nil nil = true
  same_items nil (cons _ _) = false
  same_items (cons _ _) nil = false
  same_items (cons a as') (cons b bs) = same_json a b && same_items as' bs

  same_fields : Fields → Fields → Bool
  same_fields end others = true
  same_fields (field k v rest) others =
      elim (find k others) [ none ↦ false | some w ↦ same_json v w ] && same_fields rest others

-- `json.loads(json.dumps(v))`, in the order of the fields: a tuple is written as an array.
unfoldable mutual
  pub as_json : Json → Json
  as_json null = null
  as_json (bool b) = bool b
  as_json (int n) = int n
  as_json (real r) = real r
  as_json (str s) = str s
  as_json (arr xs) = arr (as_items xs)
  as_json (tuple xs) = arr (as_items xs)
  as_json (obj fields) = obj (as_fields fields)

  pub as_items : Items → Items
  as_items nil = nil
  as_items (cons v rest) = cons (as_json v) (as_items rest)

  pub as_fields : Fields → Fields
  as_fields end = end
  as_fields (field k v rest) = field k (as_json v) (as_fields rest)
