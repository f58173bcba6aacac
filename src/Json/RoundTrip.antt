-- ===== src/Json/RoundTrip.antt =====
-- What the printer of stu_json.c writes, its parser reads back.
use chatease_server.Common.Memory.{Mem, Holds}
use chatease_server.Common.{ℕ, zero, suc, ◌+◌, ◌*◌, ◌^◌, ◌≤◌, ◌<◌, ◌≡◌, inl, refl, arith, length}
use chatease_server.Json.Dispatch.{value_string}
use chatease_server.Json.Arrays.{array-Reads, items_last, items_more}
use chatease_server.Json.Objects.{object-Reads, fields_last, fields_more}
use chatease_server.Json.Parse.{tree, parse}
use chatease_server.Json.Print.{Doubles, print_string, print_value}
use chatease_server.Json.Printable.{IsPrintable, ArePrintable, HavePrintable}
use chatease_server.Json.Reads.{Reads, ReadsItems, ReadsFields}
use chatease_server.Json.Strings.{length-print_string, parse_string-print_string}
use chatease_server.Json.Value.{
  Text, Json, Items, null, boolean, string, number, array, object, nil, cons,
}
use chatease_server.Json.Words.{value_number_reads, value_null_reads, value_boolean_reads}

module _ (doubles : Doubles) (m : Mem) where
  string-Reads : (t : Text) → IsPrintable doubles (string t) → Reads doubles m (string t)
  unfolding print_value print_string
  string-Reads t plain zero p len at ends room small fuel = absurd (omega arith)
  string-Reads t plain (suc f) p len at ends room small fuel =
      let size = length-print_string t in
      let (h, rest) = at in
      value_string doubles m f p len (length (print_string t)) (string t) (omega arith) small h
        (parse_string-print_string m p len t plain at room)

  abbrev ItemsRead : Items → Type 0
  ItemsRead nil = Unit
  ItemsRead (cons k v xs) = ReadsItems doubles m (cons k v xs)

  abbrev FieldsRead : Items → Type 0
  FieldsRead nil = Unit
  FieldsRead (cons k v xs) = ReadsFields doubles m (cons k v xs)

  array_of :
      (xs : Items)
      → (ArePrintable doubles xs → ItemsRead xs)
      → IsPrintable doubles (array xs)
      → Reads doubles m (array xs)
  array_of nil items ok = elim ok [ ]
  array_of (cons k v xs) items ok = array-Reads doubles m (cons k v xs) (items ok)

  object_of :
      (xs : Items)
      → (HavePrintable doubles xs → FieldsRead xs)
      → IsPrintable doubles (object xs)
      → Reads doubles m (object xs)
  object_of nil fields ok = elim ok [ ]
  object_of (cons k v xs) fields ok = object-Reads doubles m (cons k v xs) (fields ok)

  mutual
    unfolding print_value

    value-Reads : (v : Json) → IsPrintable doubles v → Reads doubles m v
    value-Reads v ok zero p len at ends room small fuel = absurd (omega arith)
    value-Reads null ok (suc f) p len at ends room small fuel =
        value_null_reads doubles m f p (omega arith) len small at
    value-Reads (boolean b) ok (suc f) p len at ends room small fuel =
        value_boolean_reads doubles m f p (omega arith) len b small at
    value-Reads (string t) ok (suc f) p len at ends room small fuel =
        string-Reads t ok (suc f) p len at ends room small fuel
    value-Reads (number d) ok (suc f) p len at ends room small fuel =
        value_number_reads doubles m f p (omega arith) len d small ok at ends
    value-Reads (array xs) ok (suc f) p len at ends room small fuel =
        array_of xs (λ h. items_reads xs h) ok (suc f) p len at ends room small fuel
    value-Reads (object xs) ok (suc f) p len at ends room small fuel =
        object_of xs (λ h. fields_reads xs h) ok (suc f) p len at ends room small fuel

    items_reads : (xs : Items) → ArePrintable doubles xs → ItemsRead xs
    items_reads nil h = tt
    items_reads (cons k v nil) (hk, hv, h) = rw hk (items_last doubles m v (value-Reads v hv))
    items_reads (cons k v (cons k' w xs)) (hk, hv, h) =
        rw hk (items_more doubles m v k' w xs (value-Reads v hv) (items_reads (cons k' w xs) h))

    fields_reads : (xs : Items) → HavePrintable doubles xs → FieldsRead xs
    fields_reads nil h = tt
    fields_reads (cons k v nil) (hk, hv, h) = fields_last doubles m k v hk (value-Reads v hv)
    fields_reads (cons k v (cons k' w xs)) (hk, hv, h) =
        fields_more doubles m k v k' w xs hk (value-Reads v hv) (fields_reads (cons k' w xs) h)

-- Printing a tree and parsing the bytes gives the tree back, when strings and keys have no quote
-- and no zero, the C library reads back the numbers of the tree, no array or object is empty, the
-- byte behind the text is a zero, the length is that of the text or more and below 2^64, and the fuel is
-- more than twice the length of the text and one.
pub parse-print_value :
    (doubles : Doubles) (m : Mem) (v : Json) (f p len : ℕ)
    → IsPrintable doubles v
    → Holds m p (print_value doubles v)
    → m (p + length (print_value doubles v)) ≡ 0
    → length (print_value doubles v) ≤ len
    → len < 2 ^ 64
    → 2 * length (print_value doubles v) + 1 < f
    → parse doubles m f p len ≡ tree v
unfolding parse
parse-print_value doubles m v f p len ok at ends room small fuel =
    rw (parse, value-Reads doubles m v ok f p len at (inl ends) room small fuel) refl
