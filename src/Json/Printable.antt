-- ===== src/Json/Printable.antt =====
-- The trees that the printer writes so that they are read back.
use chatease_server.Common.Memory.{Mem, Holds}
use chatease_server.Common.{ℕ, ◌+◌, ◌≡◌, ◌⊎◌, refl, ap, true, List, [], ◌∷◌, length}
use chatease_server.Json.Dispatch.{is_number_start}
use chatease_server.Json.Print.{Doubles, print_number}
use chatease_server.Json.Strings.{IsPlain}
use chatease_server.Json.Value.{
  Text, Json, Items, null, boolean, string, number, array, object, nil, cons, no_key, add_item,
}

-- The byte behind a number, where `strtod` stops.
abbrev pub EndsNumber : ℕ → Type 0
EndsNumber c = (c ≡ 0) ⊎ (c ≡ b',') ⊎ (c ≡ b']') ⊎ (c ≡ b'}')

abbrev pub StartsNumber : List ℕ → Type 0
StartsNumber [] = ⊥
StartsNumber (c ∷ cs) = is_number_start c ≡ true

-- What the C library promises of one number: it is written with a sign or a digit first, and
-- `strtod` reads it back from there.
pub record ReadsBack (doubles : Doubles) (d : ℕ) : Type 0 where
  pub starts : StartsNumber (print_number doubles d)
  pub reads :
      (m : Mem) (p : ℕ)
      → Holds m p (print_number doubles d)
      → EndsNumber (m (p + length (print_number doubles d)))
      → doubles.strtod m p ≡ (d, length (print_number doubles d))

-- Strings and keys have no quotes and zeros, the library reads the numbers back, and no array or
-- object is empty.
abbrev mutual
  pub IsPrintable : Doubles → Json → Type 0
  IsPrintable doubles null = Unit
  IsPrintable doubles (boolean b) = Unit
  IsPrintable doubles (string t) = IsPlain t
  IsPrintable doubles (number d) = ReadsBack doubles d
  IsPrintable doubles (array nil) = ⊥
  IsPrintable doubles (array (cons k v xs)) = ArePrintable doubles (cons k v xs)
  IsPrintable doubles (object nil) = ⊥
  IsPrintable doubles (object (cons k v xs)) = HavePrintable doubles (cons k v xs)

  pub ArePrintable : Doubles → Items → Type 0
  ArePrintable doubles nil = Unit
  ArePrintable doubles (cons k v xs) =
      (k ≡ no_key) × IsPrintable doubles v × ArePrintable doubles xs

  pub HavePrintable : Doubles → Items → Type 0
  HavePrintable doubles nil = Unit
  HavePrintable doubles (cons k v xs) = IsPlain k × IsPrintable doubles v × HavePrintable doubles xs

unfoldable pub append : Items → Items → Items
append nil ys = ys
append (cons k v xs) ys = cons k v (append xs ys)

pub append-add_item :
    (acc : Items) (k : Text) (v : Json) (xs : Items)
    → append (add_item acc k v) xs ≡ append acc (cons k v xs)
unfolding append add_item
append-add_item nil k v xs = refl
append-add_item (cons k' v' acc) k v xs = ap (cons k' v') (append-add_item acc k v xs)

pub append-nil : (xs : Items) → append xs nil ≡ xs
unfolding append
append-nil nil = refl
append-nil (cons k v xs) = ap (cons k v) (append-nil xs)
