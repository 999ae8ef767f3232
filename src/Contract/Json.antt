-- ===== src/Contract/Json.antt =====
-- Decoded JSON, as src/usagebassoon/json_types.py names it. A number is kept as its text. Python
-- decodes an object to a dict, so the names of one object are distinct.
use Prim.Native.String.{◌++◌ as concat}
use usagebassoon.Prelude.{
  String, Bool, true, Option, none, some, ◌&&◌, ◌==◌, string_eq, if◌then◌else◌,
}

mutual
  pub data Json : Type 0 where
    null : Json
    boolean : Bool → Json
    int : String → Json
    float : String → Json
    str : String → Json
    array : Items → Json
    object : Fields → Json

  pub data Items : Type 0 where
    nil : Items
    cons : Json → Items → Items

  pub data Fields : Type 0 where
    end : Fields
    field : String → Json → Fields → Fields

-- `JsonType`: the label of a type.
abbrev pub JsonType : Type 0
JsonType = String

-- `_json_type`; every value of the data type is representable, so nothing is raised.
unfoldable pub json_type : Json → JsonType
json_type null = "null"
json_type (boolean b) = "bool"
json_type (int n) = "int"
json_type (float x) = "float"
json_type (str s) = "str"
json_type (array xs) = "array"
json_type (object fs) = "object"

-- `value[name]` where the name is in the object
unfoldable pub get_field : String → Fields → Option Json
get_field name end = none
get_field name (field n value rest) = if n == name then some value else get_field name rest

-- `all(p(member) for member in value)`
pub all_items : (Json → Bool) → Items → Bool
all_items p nil = true
all_items p (cons x xs) = p x && all_items p xs

-- `f"{current}.{name}" if current else name`
unfoldable pub join_path : String → String → String
join_path current name = if current == "" then name else concat current (concat "." name)

-- `f"{current}[]"`
pub array_path : String → String
array_path current = concat current "[]"
