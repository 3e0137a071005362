-- ===== src/Core/Json.antt =====
-- The values that `JSON.parse` gives. A number is left out of account beyond its being one.
use credaryn.Base.{Bool, Option, none, some, if◌then◌else◌}
use credaryn.Base.Text.{Text, list_eq}

mutual
  pub data Json : Type 0 where
    null : Json
    boolean : Bool → Json
    number : Json
    string : Text → Json
    array : Items → Json
    object : Fields → Json

  pub data Items : Type 0 where
    nil : Items
    cons : Json → Items → Items

  -- The own properties of an object, whose names differ.
  pub data Fields : Type 0 where
    no_field : Fields
    field : Text → Json → Fields → Fields

-- `record.name`, where `none` is undefined.
unfoldable pub get_field : Text → Fields → Option Json
get_field name no_field = none
get_field name (field key value fields) =
    let rest = get_field name fields in if list_eq key name then some value else rest

-- A property that is a string.
abbrev pub as_string : Option Json → Option Text
as_string (some (string s)) = some s
as_string _ = none

-- `isRecord`
abbrev pub as_record : Option Json → Option Fields
as_record (some (object fields)) = some fields
as_record _ = none
