-- ===== src/Base/Json.antt =====
-- JSON values, as the services answer with them and as the clients send them.
use Prim.Native.Nat.{ℕ}
use Prim.Native.String.{String}
use mathlib.Core.Bool.{Bool, true, false, not}
use mathlib.Core.List.{List, [], ◌∷◌}
use mathlib.Core.Option.{Option, none, some}
use edgekit.Base.Tests.{◌==◌, str_eq, if◌then◌else◌}
use edgekit.Base.Effects.{Outcome, ok, raised, key_error, value_error, attribute_error}
use edgekit.Base.Texts.{is_numeric, digits_value}

mutual
  pub data Json : Type 0 where
    null : Json
    flag : Bool → Json
    num : ℕ → Json
    text : String → Json
    arr : Items → Json
    obj : Fields → Json

  pub data Items : Type 0 where
    nil : Items
    cons : Json → Items → Items

  pub data Fields : Type 0 where
    end : Fields
    field : String → Json → Fields → Fields

-- `value or {}`, `if value:`. A value is false if it is null, zero or empty.
unfoldable pub truthy : Json → Bool
truthy null = false
truthy (flag b) = b
truthy (num n) = not (n == 0)
truthy (text s) = not (str_eq s "")
truthy (arr nil) = false
truthy (arr (cons x xs)) = true
truthy (obj end) = false
truthy (obj (field k v fs)) = true

abbrev field_of : String → Fields → Option Json
field_of k end = none
field_of k (field j v fs) = if str_eq j k then some v else field_of k fs

-- `value.get(key)`, with null for a missing key.
unfoldable pub get : String → Json → Json
get k (obj fs) = elim (field_of k fs) [ none ↦ null | some v ↦ v ]
get k _ = null

-- `value.get(key)` of a value that may be no object, and then has no such method.
unfoldable pub get_of : String → Json → Outcome Json
get_of k (obj fs) = ok (get k (obj fs))
get_of k _ = raised attribute_error

-- `key in value`
unfoldable pub has_key : String → Json → Bool
has_key k (obj fs) = elim (field_of k fs) [ none ↦ false | some v ↦ true ]
has_key k _ = false

-- `value[key]`
unfoldable pub item : String → Json → Outcome Json
item k (obj fs) = elim (field_of k fs) [ none ↦ raised key_error | some v ↦ ok v ]
item k _ = raised key_error

-- The entries of a list, none for another value.
unfoldable pub items_of : Items → List Json
items_of nil = []
items_of (cons x xs) = x ∷ items_of xs

unfoldable pub entries : Json → List Json
unfolding items_of
entries (arr xs) = items_of xs
entries _ = []

-- `int(value)`: numbers, truth values and texts of digits; an exception for anything else.
unfoldable pub int_of : Json → Outcome ℕ
int_of (num n) = ok n
int_of (flag b) = ok (if b then 1 else 0)
int_of (text s) = if is_numeric s then ok (digits_value 0 s) else raised value_error
int_of _ = raised value_error

-- The texts of a list of texts; anything else in it is passed over.
abbrev texts_of : List Json → List String
texts_of [] = []
texts_of (text s ∷ xs) = s ∷ texts_of xs
texts_of (_ ∷ xs) = texts_of xs

unfoldable pub texts : Json → List String
unfolding entries
texts j = texts_of (entries j)

unfoldable pub text_items : List String → Items
text_items [] = nil
text_items (s ∷ ss) = cons (text s) (text_items ss)

-- A dict display, `{k: v, …}`.
unfoldable pub fields : List (String × Json) → Fields
fields [] = end
fields ((k, v) ∷ r) = field k v (fields r)

unfoldable pub object : List (String × Json) → Json
unfolding fields
object r = obj (fields r)
