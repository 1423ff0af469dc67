-- ===== src/Json.antt =====
-- JSON values, as `JSON.parse` returns them; the parser itself is a parameter of the model.
use Prim.Native.String.{String}
use text.Mathlib.Text.{◌==◌ as str_eq}
use agentis.Prelude.{Bool, Option, some, none, if◌then◌else◌}

mutual
  pub data Json : Type 0 where
    null : Json
    bool : Bool → Json
    num : (literal : String) → Json
    str : String → Json
    arr : Items → Json
    obj : Fields → Json

  pub data Items : Type 0 where
    nil : Items
    cons : Json → Items → Items

  pub data Fields : Type 0 where
    end : Fields
    field : String → Json → Fields → Fields

abbrev pub get_field : String → Fields → Option Json
get_field key Fields.end = none
get_field key (Fields.field k v rest) =
    let next = get_field key rest in if str_eq k key then some v else next

-- A property of a value; only an object has one.
abbrev pub property : String → Json → Option Json
property key (Json.obj fields) = get_field key fields
property key _ = none

-- A value that is a string.
abbrev pub as_text : Option Json → Option String
as_text (some (Json.str s)) = some s
as_text _ = none
