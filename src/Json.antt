-- ===== src/Json.antt =====
-- Values of JSON documents and of the dictionaries that are stored as JSON, with Python's reading
-- of them: `d.get(k)` and the truth of a value.
use reefy_camadmiral.Prelude.{
  ℕ, String, Bool, true, false, not, Option, none, some, ltb, str_eq, if◌then◌else◌,
}

mutual
  -- The entries of an object, in their order.
  pub data Fields : Type 0 where
    no_fields : Fields
    field : String → Value → Fields → Fields

  -- The elements of an array.
  pub data Elements : Type 0 where
    empty : Elements
    first : Value → Elements → Elements

  pub data Value : Type 0 where
    object : Fields → Value
    array : Elements → Value
    text : String → Value
    flag : Bool → Value
    number : ℕ → Value
    null : Value

-- `bool(v)`
abbrev pub truthy : Value → Bool
truthy null = false
truthy (flag b) = b
truthy (number n) = ltb 0 n
truthy (text s) = not (str_eq s "")
truthy (array empty) = false
truthy (array (first v vs)) = true
truthy (object no_fields) = false
truthy (object (field k v fs)) = true

-- `bool(d.get(k))`
abbrev pub is_given : Option Value → Bool
is_given none = false
is_given (some v) = truthy v

-- `v.get(k)` of an object, and of `{}` where the value is no object.
abbrev pub get_field : Fields → String → Option Value
get_field no_fields k = none
get_field (field j v fs) k = if str_eq j k then some v else get_field fs k

abbrev pub fields : Option Value → Fields
fields (some (object fs)) = fs
fields _ = no_fields
