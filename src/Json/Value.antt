-- ===== src/Json/Value.antt =====
-- Parsed values, as trees: what `item->type` and `item->value` say.
use chatease_server.Common.{ℕ, Bool, List, [], ◌∷◌, ◌==◌, if◌then◌else◌}

-- A copied string: the bytes at `data` up to their first zero, and `len`.
pub record Text : Type 0 where
  pub chars : List ℕ
  pub len : ℕ

abbrev pub no_key : Text
no_key = record { chars = []; len = 0 }

-- What `stu_strncpy` leaves at its destination in front of the zero.
unfoldable pub c_string : List ℕ → List ℕ
c_string [] = []
c_string (c ∷ cs) = let rest = c_string cs in if c == 0 then [] else c ∷ rest

-- A double is known by the number of its bits. The children of an array and of an object are one
-- kind of list; those of an array have an empty key.
mutual
  pub data Json : Type 0 where
    null : Json
    boolean : Bool → Json
    string : Text → Json
    number : ℕ → Json
    array : Items → Json
    object : Items → Json

  pub data Items : Type 0 where
    nil : Items
    cons : Text → Json → Items → Items

-- `stu_json_add_item_to_object`: at the end.
unfoldable pub add_item : Items → Text → Json → Items
add_item nil k v = cons k v nil
add_item (cons k' v' xs) k v = cons k' v' (add_item xs k v)
