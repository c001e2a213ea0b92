-- ===== src/Proto/Objects.antt =====
-- The functions that docs/skin/prototype.js adds to Object, on values as trees: no object contains
-- itself, so the test of the stack of `Str` is never met.
pub mod Json
use sd.Common.{
  ℕ, suc, Bool, true, false, Option, none, some, List, [], ◌∷◌, ◌++◌, if◌then◌else◌, maybe,
}
use sd.Proto.Text.{Text, codes, join}
use sd.Proto.Inspect.{inspect}

-- A number is whether it is finite, and what `String` gives for it.
pub data Primitive : Type 0 where
  boolean : Bool → Primitive
  number : Bool → Text → Primitive
  text : Text → Primitive

mutual
  -- A Number, Boolean or String object is `boxed`. An object is its own properties in order; one
  -- with a method `toJSON` has also what that method returns.
  pub data Value : Type 0 where
    undefined null function : Value
    primitive boxed : Primitive → Value
    array : Values → Value
    object : Members → Value
    converting : Members → Value → Value

  pub data Values : Type 0 where
    end : Values
    element : Value → Values → Values

  pub data Members : Type 0 where
    last : Members
    member : Text → Value → Members → Members

-- `Type`: the names that it gives.
pub data TypeName : Type 0 where
  null_type undefined_type boolean_type number_type string_type object_type : TypeName

abbrev pub type_of_primitive : Primitive → TypeName
type_of_primitive (boolean b) = boolean_type
type_of_primitive (number f s) = number_type
type_of_primitive (text s) = string_type

abbrev pub type_of : Value → TypeName
type_of undefined = undefined_type
type_of null = null_type
type_of function = object_type
type_of (primitive p) = type_of_primitive p
type_of (boxed p) = object_type
type_of (array vs) = object_type
type_of (object ms) = object_type
type_of (converting ms v) = object_type

-- `isArray`, `isFunction`, `isString`, `isNumber` and `isUndefined`, by the class of the value.
abbrev pub is_array : Value → Bool
is_array (array vs) = true
is_array undefined = false
is_array null = false
is_array function = false
is_array (primitive p) = false
is_array (boxed p) = false
is_array (object ms) = false
is_array (converting ms v) = false

abbrev pub is_function : Value → Bool
is_function function = true
is_function undefined = false
is_function null = false
is_function (primitive p) = false
is_function (boxed p) = false
is_function (array vs) = false
is_function (object ms) = false
is_function (converting ms v) = false

abbrev pub is_undefined : Value → Bool
is_undefined undefined = true
is_undefined null = false
is_undefined function = false
is_undefined (primitive p) = false
is_undefined (boxed p) = false
is_undefined (array vs) = false
is_undefined (object ms) = false
is_undefined (converting ms v) = false

abbrev pub is_text : Primitive → Bool
is_text (text s) = true
is_text (boolean b) = false
is_text (number f s) = false

abbrev pub is_string : Value → Bool
is_string (primitive p) = is_text p
is_string (boxed p) = is_text p
is_string undefined = false
is_string null = false
is_string function = false
is_string (array vs) = false
is_string (object ms) = false
is_string (converting ms v) = false

abbrev pub is_numeric : Primitive → Bool
is_numeric (number f s) = true
is_numeric (boolean b) = false
is_numeric (text s) = false

abbrev pub is_number : Value → Bool
is_number (primitive p) = is_numeric p
is_number (boxed p) = is_numeric p
is_number undefined = false
is_number null = false
is_number function = false
is_number (array vs) = false
is_number (object ms) = false
is_number (converting ms v) = false

-- The properties that `keys` and `values` go through.
abbrev pub property_names : Members → List Text
property_names last = []
property_names (member key v ms) = key ∷ property_names ms

abbrev pub property_values : Members → List Value
property_values last = []
property_values (member key v ms) = v ∷ property_values ms

abbrev pub positions : ℕ → (ℕ → Text) → Values → List Text
positions i name end = []
positions i name (element v vs) = name i ∷ positions (suc i) name vs

-- `keys`: `none` is the TypeError. `name` is how an index is written; texts and numbers in boxes have
-- no properties but the characters of the text.
abbrev pub keys : (ℕ → Text) → Value → Option (List Text)
keys name undefined = none
keys name null = none
keys name (primitive p) = none
keys name function = some []
keys name (boxed (boolean b)) = some []
keys name (boxed (number f s)) = some []
keys name (boxed (text s)) = some (characters 0 s)
  where
    characters : ℕ → Text → List Text
    characters i [] = []
    characters i (c ∷ s) = name i ∷ characters (suc i) s
keys name (array vs) = some (positions 0 name vs)
keys name (object ms) = some (property_names ms)
keys name (converting ms v) = some (property_names ms)

abbrev pub of_primitive : Primitive → Text
of_primitive (boolean true) = codes "true"
of_primitive (boolean false) = codes "false"
of_primitive (number finite s) = if finite then s else codes "null"
of_primitive (text s) = inspect true s

-- `partial.push(key.inspect(true) + ':' + str)`.
abbrev pub push_member : Text → Option Text → List Text → List Text
push_member key none partial = partial
push_member key (some str) partial = (inspect true key ++ (b':' ∷ str)) ∷ partial

mutual
  -- `Str`; `none` is undefined. The flag says that `toJSON` is still to be called.
  pub str : Bool → Value → Option Text
  str convert undefined = none
  str convert null = some (codes "null")
  str convert function = none
  str convert (primitive p) = some (of_primitive p)
  str convert (boxed p) = some (of_primitive p)
  str convert (array vs) = some (b'[' ∷ join (codes ",") (elements vs) ++ codes "]")
  str convert (object ms) = some (b'{' ∷ join (codes ",") (members ms) ++ codes "}")
  str true (converting ms v) = str false v
  str false (converting ms v) = some (b'{' ∷ join (codes ",") (members ms) ++ codes "}")

  -- The loop over an array.
  pub elements : Values → List Text
  elements end = []
  elements (element v vs) = maybe (str true v) (codes "null") (λ s. s) ∷ elements vs

  -- The loop over the own properties of an object.
  pub members : Members → List Text
  members last = []
  members (member key v ms) = push_member key (str true v) (members ms)

-- `toJSON`.
unfoldable pub to_json : Value → Option Text
unfolding str
to_json v = str true v

-- What `String` gives for a value without a method `inspect`.
abbrev pub string_of_primitive : Primitive → Text
string_of_primitive (boolean true) = codes "true"
string_of_primitive (boolean false) = codes "false"
string_of_primitive (number finite s) = s
string_of_primitive (text s) = s

abbrev pub inspect_primitive : Primitive → Text
inspect_primitive (boolean b) = string_of_primitive (boolean b)
inspect_primitive (number finite s) = string_of_primitive (number finite s)
inspect_primitive (text s) = inspect false s

-- `inspect`; `string_of` is what `String` gives for an object or a function. A tree is not deep enough
-- for a RangeError.
module _ (string_of : Value → Text) where
  unfoldable mutual
    pub inspect_value : Value → Text
    inspect_value undefined = codes "undefined"
    inspect_value null = codes "null"
    inspect_value function = string_of function
    inspect_value (primitive p) = inspect_primitive p
    inspect_value (boxed p) = inspect_primitive p
    inspect_value (array vs) = b'[' ∷ join (codes ", ") (inspect_elements vs) ++ codes "]"
    inspect_value (object ms) = string_of (object ms)
    inspect_value (converting ms v) = string_of (converting ms v)

    -- `this.map(Object.inspect)` of an array.
    pub inspect_elements : Values → List Text
    inspect_elements end = []
    inspect_elements (element v vs) = inspect_value v ∷ inspect_elements vs

abbrev pub inspect_pairs : (Value → Text) → Members → List Text
inspect_pairs inspect_item last = []
inspect_pairs inspect_item (member key v ms) =
    join (codes ": ") (inspect_item (primitive (text key)) ∷ inspect_item v ∷ [])
    ∷ inspect_pairs inspect_item ms

-- `inspect` of a hash, on its properties.
unfoldable pub inspect_hash : (Value → Text) → Members → Text
unfolding inspect_value
inspect_hash string_of ms =
    codes "#<Hash:{"
    ++ (join (codes ", ") (inspect_pairs (inspect_value string_of) ms) ++ codes "}>")
