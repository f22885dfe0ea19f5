-- ===== src/Service/Json.antt =====
-- src/service/apfs_mount_service.cpp: the JSON documents of the mount configuration, as QJsonDocument
-- gives them, to the depth that is read. An object is its fields with their keys, an item of an array
-- that is no object is the empty object, as toObject gives it, and `other` is a value of another type.
-- The text of a document, which QJsonDocument writes and parses, is not modelled.

use apfs_for_windows.Common.{Bool, List, Option, Text, [], none, some, text_eq, ◌∷◌, if◌then◌else◌}

pub data FieldValue : Type 0 where
  string : Text → FieldValue
  boolean : Bool → FieldValue
  other : FieldValue

abbrev pub JsonObject : Type 0
JsonObject = List (Text × FieldValue)

pub data RootValue : Type 0 where
  array : List JsonObject → RootValue
  other : RootValue

-- QJsonObject::value, where `none` is undefined.
unfoldable pub field {ℓ} : {A : Type ℓ} → Text → List (Text × A) → Option A
field key [] = none
field key ((k, v) ∷ fields) = let rest = field key fields in if text_eq k key then some v else rest

-- QJsonValue::toString and toArray, with their defaults
abbrev pub to_string : Option FieldValue → Text
to_string (some (string t)) = t
to_string value = []

abbrev pub to_array : Option RootValue → List JsonObject
to_array (some (array objects)) = objects
to_array value = []

-- QJsonValue::isBool, with the value
abbrev pub as_bool : Option FieldValue → Option Bool
as_bool (some (boolean b)) = some b
as_bool value = none
