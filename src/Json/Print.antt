-- ===== src/Json/Print.antt =====
-- The printer of stu_json.c. Each function gives the bytes between `dst` and the pointer that it
-- returns.
use chatease_server.Common.{ℕ, Bool, List, [], ◌∷◌, ◌++◌, if◌then◌else◌}
use chatease_server.Common.Memory.{Mem}
use chatease_server.Json.Value.{
  Text, Json, Items, null, boolean, string, number, array, object, nil, cons,
}

-- The arithmetic of doubles and the functions of the C library that stu_json.c calls on them.
pub record Doubles : Type 0 where
  -- `d == 0`
  pub is_zero : ℕ → Bool
  -- `fabs(d - (stu_double_t) i) <= DBL_EPSILON && d <= INT_MAX && d >= INT_MIN`, where `i` is
  -- `(stu_int_t) d`
  pub is_int : ℕ → Bool
  -- `d * 0 != 0`
  pub is_infinite : ℕ → Bool
  -- `fabs(floor(d) - d) <= DBL_EPSILON && fabs(d) < 1.0e60`
  pub is_whole : ℕ → Bool
  -- `fabs(d) < 1.0e-6 || fabs(d) > 1.0e9`
  pub is_extreme : ℕ → Bool
  -- `stu_sprintf` with "%d" of `i`, and with "%.0f", "%e" and "%f" of `d`
  pub print_int : ℕ → List ℕ
  pub print_whole : ℕ → List ℕ
  pub print_exp : ℕ → List ℕ
  pub print_fixed : ℕ → List ℕ
  -- `strtod` at an address: the number, and how many bytes it is written with
  pub strtod : Mem → ℕ → ℕ × ℕ

abbrev pub null_word : List ℕ
null_word = b'n' ∷ b'u' ∷ b'l' ∷ b'l' ∷ []

abbrev pub true_word : List ℕ
true_word = b't' ∷ b'r' ∷ b'u' ∷ b'e' ∷ []

abbrev pub false_word : List ℕ
false_word = b'f' ∷ b'a' ∷ b'l' ∷ b's' ∷ b'e' ∷ []

-- `stu_json_print_string`, and `stu_json_print_key` of a key.
unfoldable pub print_string : Text → List ℕ
print_string t = b'"' ∷ t.chars ++ b'"' ∷ []

module _ (doubles : Doubles) where
  open doubles use {
    is_zero, is_int, is_infinite, is_whole, is_extreme, print_int, print_whole, print_exp,
    print_fixed,
  }

  unfoldable pub print_number : ℕ → List ℕ
  print_number d =
      if is_zero d
      then b'0' ∷ []
      else if is_int d
      then print_int d
      else if is_infinite d
      then null_word
      else if is_whole d
      then print_whole d
      else if is_extreme d
      then print_exp d
      else print_fixed d

  unfoldable mutual
    pub print_value : Json → List ℕ
    print_value null = null_word
    print_value (boolean b) = if b then true_word else false_word
    print_value (string t) = print_string t
    print_value (number d) = print_number d
    print_value (array xs) = b'[' ∷ print_items xs ++ b']' ∷ []
    print_value (object xs) = b'{' ∷ print_fields xs ++ b'}' ∷ []

    pub print_items : Items → List ℕ
    print_items nil = []
    print_items (cons k v nil) = print_value v
    print_items (cons k v (cons k' v' xs)) = print_value v ++ b',' ∷ print_items (cons k' v' xs)

    pub print_fields : Items → List ℕ
    print_fields nil = []
    print_fields (cons k v nil) = print_string k ++ b':' ∷ print_value v
    print_fields (cons k v (cons k' v' xs)) =
        print_string k ++ b':' ∷ (print_value v ++ b',' ∷ print_fields (cons k' v' xs))
