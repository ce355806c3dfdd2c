-- ===== src/Json.antt =====
-- encoding/json as the program uses it: a decoded document, and the decoding of one field of an
-- object into a Go variable. A document has its keys in the spelling of the struct tags, and each
-- key once (of two equal ones the last counts).
use jadeenvoy.Prelude.{
  String, Bool, true, false, Option, none, some, List, [], ◌∷◌, str_eq, ℤ, pos, fits_int64,
  if◌then◌else◌, ◌&&◌,
}

mutual
  pub data Value : Type 0 where
    null : Value
    bool : Bool → Value
    num : ℤ → Value
    frac : String → Value
    str : String → Value
    obj : Fields → Value
    arr : Items → Value

  pub data Fields : Type 0 where
    field : String → Value → Fields → Fields
    end : Fields

  pub data Items : Type 0 where
    cons : Value → Items → Items
    nil : Items

-- The bytes of a `json.RawMessage`: `none` when they are no JSON document (as when empty).
abbrev pub Raw : Type 0
Raw = Option Value

abbrev or_else : Option Value → Option Value → Option Value
or_else (some v) d = some v
or_else none d = d

abbrev pub find_field : String → Fields → Option Value
find_field k end = none
find_field k (field j v fs) = or_else (find_field k fs) (if str_eq j k then some v else none)

abbrev pub get : String → Value → Option Value
get k (obj fs) = find_field k fs
get k _ = none

-- What a string, an int64 or a bool variable holds after the decoding: its zero value where the
-- field is absent, null or of another type.
abbrev pub as_string : Option Value → String
as_string (some (str s)) = s
as_string _ = ""

abbrev pub as_bool : Option Value → Bool
as_bool (some (bool b)) = b
as_bool _ = false

abbrev pub as_int64 : Option Value → ℤ
as_int64 (some (num z)) = if fits_int64 z then z else pos 0
as_int64 _ = pos 0

-- Whether the field decodes without an error.
abbrev pub string_ok : Option Value → Bool
string_ok none = true
string_ok (some null) = true
string_ok (some (str s)) = true
string_ok _ = false

abbrev pub bool_ok : Option Value → Bool
bool_ok none = true
bool_ok (some null) = true
bool_ok (some (bool b)) = true
bool_ok _ = false

abbrev pub int64_ok : Option Value → Bool
int64_ok none = true
int64_ok (some null) = true
int64_ok (some (num z)) = fits_int64 z
int64_ok _ = false

-- Only an object or null decodes into a struct.
abbrev pub struct_ok : Value → Bool
struct_ok null = true
struct_ok (obj fs) = true
struct_ok _ = false

abbrev pub elements : Items → List Value
elements nil = []
elements (cons v vs) = v ∷ elements vs

-- The elements of a slice variable after the decoding of a list.
abbrev pub as_list : Option Value → List Value
as_list (some (arr vs)) = elements vs
as_list _ = []

-- A field of struct type that is absent keeps its zero value, as with null.
abbrev pub null_or : Option Value → Value
null_or none = null
null_or (some v) = v

abbrev all_ok : (Value → Bool) → List Value → Bool
all_ok ok [] = true
all_ok ok (v ∷ vs) = ok v && all_ok ok vs

-- Whether a slice variable decodes without an error, by the test of its elements.
abbrev pub list_ok : (Value → Bool) → Option Value → Bool
list_ok ok none = true
list_ok ok (some null) = true
list_ok ok (some (arr vs)) = all_ok ok (elements vs)
list_ok ok _ = false

abbrev pub as_strings : List Value → List String
as_strings [] = []
as_strings (v ∷ vs) = as_string (some v) ∷ as_strings vs

-- json.Marshal of a map[string]any and of a slice; the order of the keys is not observed.
abbrev object_fields : List (String × Value) → Fields
object_fields [] = end
object_fields ((k, v) ∷ kvs) = field k v (object_fields kvs)

abbrev pub object : List (String × Value) → Value
object kvs = obj (object_fields kvs)

abbrev array_items : List Value → Items
array_items [] = nil
array_items (v ∷ vs) = cons v (array_items vs)

abbrev pub array : List Value → Value
array vs = arr (array_items vs)
