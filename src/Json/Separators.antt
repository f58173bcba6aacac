-- ===== src/Json/Separators.antt =====
-- One item of an array or of an object, with the byte behind it.
use chatease_server.Common.Memory.{Mem}
use chatease_server.Common.{ℕ, zero, suc, ◌+◌, ◌-◌, ◌<◌, ◌≡◌, refl, ap, ◌∙◌, arith}
use chatease_server.Json.Parse.{
  done, comma, closed, sw_arr_start, sw_obj_start, sw_val, separator, parse_value, array_loop,
  object_loop,
}
use chatease_server.Json.Print.{Doubles}
use chatease_server.Json.Steps.{
  array_item, array_finished, object_item, object_finished, array_next, object_next,
}
use chatease_server.Json.Value.{Text, Json, Items, no_key, add_item}

separator_comma :
    (m : Mem) (close p left pos : ℕ)
    → 0 < left
    → m (p + pos) ≡ b','
    → separator m close p left pos ≡ comma pos
unfolding separator
separator_comma m close p zero pos lt c = absurd (omega arith)
separator_comma m close p (suc left) pos lt c = rw (separator, c) refl

separator_array :
    (m : Mem) (p left pos : ℕ)
    → 0 < left
    → m (p + pos) ≡ b']'
    → separator m b']' p left pos ≡ closed pos
unfolding separator
separator_array m p zero pos lt c = absurd (omega arith)
separator_array m p (suc left) pos lt c = rw (separator, c) refl

separator_object :
    (m : Mem) (p left pos : ℕ)
    → 0 < left
    → m (p + pos) ≡ b'}'
    → separator m b'}' p left pos ≡ closed pos
unfolding separator
separator_object m p zero pos lt c = absurd (omega arith)
separator_object m p (suc left) pos lt c = rw (separator, c) refl

module _ (doubles : Doubles) (m : Mem) (f p len pos n : ℕ) (xs : Items) (v : Json)
    (room : pos + n < len) (e : parse_value doubles m f (p + pos) (len - pos) ≡ done n v) where
  pub array_comma :
      m (p + (pos + n)) ≡ b','
      → array_loop doubles m (suc f) p len sw_arr_start pos xs
        ≡ array_loop doubles m f p len sw_arr_start (pos + n + 1) (add_item xs no_key v)
  array_comma c =
      array_item doubles m f p len pos xs (omega arith) e
      ∙ ap (array_next doubles m f p len (add_item xs no_key v))
          (separator_comma m b']' p (len - (pos + n)) (pos + n) (omega arith) c)

  pub array_close :
      0 < f
      → m (p + (pos + n)) ≡ b']'
      → array_loop doubles m (suc f) p len sw_arr_start pos xs
        ≡ done (pos + n + 1) (add_item xs no_key v)
  array_close lt c =
      array_item doubles m f p len pos xs (omega arith) e
      ∙ ap (array_next doubles m f p len (add_item xs no_key v))
          (separator_array m p (len - (pos + n)) (pos + n) (omega arith) c)
      ∙ array_finished doubles m f p len (pos + n + 1) (add_item xs no_key v) lt

  pub object_comma :
      (k : Text)
      → m (p + (pos + n)) ≡ b','
      → object_loop doubles m (suc f) p len (sw_val k) pos xs
        ≡ object_loop doubles m f p len sw_obj_start (pos + n + 1) (add_item xs k v)
  object_comma k c =
      object_item doubles m f p len pos xs k (omega arith) e
      ∙ ap (object_next doubles m f p len k (add_item xs k v))
          (separator_comma m b'}' p (len - (pos + n)) (pos + n) (omega arith) c)

  pub object_close :
      (k : Text)
      → 0 < f
      → m (p + (pos + n)) ≡ b'}'
      → object_loop doubles m (suc f) p len (sw_val k) pos xs ≡ done (pos + n + 1) (add_item xs k v)
  object_close k lt c =
      object_item doubles m f p len pos xs k (omega arith) e
      ∙ ap (object_next doubles m f p len k (add_item xs k v))
          (separator_object m p (len - (pos + n)) (pos + n) (omega arith) c)
      ∙ object_finished doubles m f p len (pos + n + 1) (add_item xs k v) lt
