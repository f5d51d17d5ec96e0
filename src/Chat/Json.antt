-- ===== src/Chat/Json.antt =====
-- JSON values as the standard library decodes them into `any` (internal/codexonly/chat_completions.go):
-- the accessors of objects. A number is kept as what int64Value reads of it, and as none below 0.
use codex_oauth_proxy.Prelude.{
  ℕ, Bool, true, false, if◌then◌else◌, List, [], ◌∷◌, Option, none, some, Text, text_eq, trim_space,
}

mutual
  pub data Json : Type 0 where
    null : Json
    boolean : Bool → Json
    number : (natural : Option ℕ) → Json
    string : Text → Json
    array : Items → Json
    object : Fields → Json

  pub data Items : Type 0 where
    no_items : Items
    item : Json → Items → Items

  pub data Fields : Type 0 where
    no_fields : Fields
    field : Text → Json → Fields → Fields

-- values[key], with nil for a missing key.
unfoldable pub value_of : Text → Fields → Json
value_of key no_fields = null
value_of key (field k v rest) = let other = value_of key rest in if text_eq k key then v else other

abbrev pub as_string : Json → Option Text
as_string (string t) = some t
as_string _ = none

abbrev pub as_object : Json → Option Fields
as_object (object m) = some m
as_object _ = none

abbrev pub as_natural : Json → Option ℕ
as_natural (number n) = n
as_natural _ = none

abbrev pub text_or_empty : Option Text → Text
text_or_empty none = []
text_or_empty (some t) = t

-- rawStringFromMap
unfoldable pub raw_string_from_map : Text → Fields → Text
unfolding value_of
raw_string_from_map key m = text_or_empty (as_string (value_of key m))

-- stringFromMap
unfoldable pub string_from_map : Text → Fields → Text
unfolding raw_string_from_map
string_from_map key m = trim_space (raw_string_from_map key m)

-- The objects of an array.
abbrev pub objects_of : Items → List Fields
objects_of no_items = []
objects_of (item (object m) rest) = m ∷ objects_of rest
objects_of (item _ rest) = objects_of rest

-- _, exists := values[key]
unfoldable pub has_key : Text → Fields → Bool
has_key key no_fields = false
has_key key (field k v rest) = if text_eq k key then true else has_key key rest

abbrev all_objects : Option (List Fields) → Fields → Option (List Fields)
all_objects none m = none
all_objects (some rest) m = some (m ∷ rest)

-- An array of objects only.
unfoldable pub object_array : Items → Option (List Fields)
object_array no_items = some []
object_array (item (object m) rest) = all_objects (object_array rest) m
object_array (item _ rest) = none
