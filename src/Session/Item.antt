-- ===== src/Session/Item.antt =====
-- Looking up a field of an object: `stu_json_get_object_item_by` of stu_json.c.
use chatease_server.Common.{ℕ, Bool, Option, none, some, List, ◌==◌, ◌&&◌, if◌then◌else◌, length}
use chatease_server.Json.Value.{Text, Json, Items, string, object, nil, cons}
use chatease_server.Strings.Copy.{same_bytes}

-- What an item has: its key and its value.
pub record Item : Type 0 where
  pub key : Text
  pub value : Json

-- `item->key.len == key->len` and `stu_strncmp(item->key.data, key->data, key->len) == 0`.
unfoldable pub has_key : List ℕ → Text → Bool
has_key name k = k.len == length name && same_bytes (length name) k.chars name

-- `stu_json_get_object_item_by`, on the children of an object.
unfoldable pub find_item : List ℕ → Items → Option Item
unfolding has_key
find_item name nil = none
find_item name (cons k v xs) =
    let rest = find_item name xs in
    if has_key name k then some (record { key = k; value = v }) else rest

-- An item that is there and has the type STU_JSON_TYPE_STRING.
unfoldable pub as_string : Option Item → Option (Text × Text)
as_string none = none
as_string (some item) = elim item.value [ string t ↦ some (item.key, t) | _ ↦ none ]

-- An item that is there and has the type STU_JSON_TYPE_OBJECT.
unfoldable pub as_object : Option Item → Option (Text × Items)
as_object none = none
as_object (some item) = elim item.value [ object xs ↦ some (item.key, xs) | _ ↦ none ]

-- A `stu_str_t` that is initialized with `stu_string`.
abbrev pub word : List ℕ → Text
word w = record { chars = w; len = length w }
