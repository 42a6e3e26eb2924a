-- ===== src/Common/Value.antt =====
-- The values of a decoded JSON document (a JWT's claims, a setting): Python's `Any` as the program
-- inspects it, by `isinstance`, `is True`, `in` and `dict.get`.
use Prim.Native.Nat.{ℕ}
use Prim.Native.String.{String}
use mathlib.Core.Path.{◌≡◌, refl}
use mathlib.Core.Bool.{Bool, false, ◌||◌}
use mathlib.Core.Option.{Option, none, some}
use mathlib.Core.List.{List, [], ◌∷◌}
use fastapitemplate.Common.Booleans.{if◌then◌else◌}
use fastapitemplate.Common.Equality.{◌==◌, string_eq}
use fastapitemplate.Common.Text.{strip}

-- A number is a natural one: the program writes no other into a claim, and of the values that others
-- write it only asks whether they are numbers.
mutual
  pub data Value : Type 0 where
    null : Value
    boolean : Bool → Value
    number : ℕ → Value
    text : String → Value
    array : Items → Value
    object : Fields → Value

  pub data Items : Type 0 where
    nil : Items
    cons : Value → Items → Items

  pub data Fields : Type 0 where
    empty : Fields
    field : String → Value → Fields → Fields

-- `mapping.get(name)`: Python's `None` stands for an absent key too.
unfoldable pub get : Fields → String → Value
get empty name = null
get (field k v fs) name = if k == name then v else get fs name

-- `name in mapping`
unfoldable pub has : Fields → String → Bool
has empty name = false
has (field k v fs) name = k == name || has fs name

-- `value.strip() if isinstance(value, str) else ""`
unfoldable pub stripped_text : Value → String
unfolding strip
stripped_text (text s) = strip s
stripped_text _ = ""

-- `value if isinstance(value, str) else None`
unfoldable pub as_text : Value → Option String
as_text (text s) = some s
as_text _ = none

-- `value if isinstance(value, int) else None`: Python's `bool` is a kind of `int`.
unfoldable pub as_int : Value → Option ℕ
as_int (number n) = some n
as_int (boolean b) = some (if b then 1 else 0)
as_int _ = none

-- `value is True`
unfoldable pub is_true : Value → Bool
is_true (boolean b) = b
is_true _ = false

-- `{**fields, **others}`, for other names than those of `fields`.
unfoldable pub join : Fields → Fields → Fields
join empty others = others
join (field k v fs) others = field k v (join fs others)

-- A list of texts, and the texts in a list.
unfoldable pub texts : List String → Items
texts [] = nil
texts (s ∷ ss) = cons (text s) (texts ss)

unfoldable pub texts_of : Items → List String
texts_of nil = []
texts_of (cons (text s) items) = s ∷ texts_of items
texts_of (cons _ items) = texts_of items

pub texts_of-texts : (ss : List String) → texts_of (texts ss) ≡ ss
unfolding texts texts_of
texts_of-texts [] = refl
texts_of-texts (s ∷ ss) = rw (texts_of-texts ss) refl
