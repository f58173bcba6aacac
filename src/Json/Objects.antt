-- ===== src/Json/Objects.antt =====
-- Objects, as the printer writes them.
use chatease_server.Common.Memory.{Mem, Holds, Holds-append}
use chatease_server.Common.{
  ℕ, zero, suc, ◌+◌, ◌-◌, ◌≤◌, ◌≡◌, inl, inr, refl, sym, ap, ◌∙◌, arith, List, [], ◌∷◌, ◌++◌,
  length, length-append,
}
use mathlib.Core.List.{append-nil as append-empty}
use chatease_server.Json.Dispatch.{value_object}
use chatease_server.Json.Keys.{read_key}
use chatease_server.Json.Parse.{done, sw_obj_start, sw_val, object_loop}
use chatease_server.Json.Print.{Doubles, print_string, print_value, print_fields}
use chatease_server.Json.Printable.{append, append-add_item, append-nil}
use chatease_server.Json.Reads.{Reads, ReadsFields}
use chatease_server.Json.Separators.{object_comma, object_close}
use chatease_server.Json.Steps.{object_open}
use chatease_server.Json.Strings.{IsPlain, length-print_string}
use chatease_server.Json.Value.{Text, Json, Items, object, nil, cons, add_item}

module _ (doubles : Doubles) (m : Mem) where
  pub object-Reads : (xs : Items) → ReadsFields doubles m xs → Reads doubles m (object xs)
  unfolding print_value append
  object-Reads xs reads zero p len at ends room small fuel = absurd (omega arith)
  object-Reads xs reads (suc zero) p len at ends room small fuel = absurd (omega arith)
  object-Reads xs reads (suc (suc f)) p len (hb, at) ends room small fuel =
      let size : length (print_fields doubles xs ++ b'}' ∷ [])
          ≡ length (print_fields doubles xs) + 1 =
        length-append (print_fields doubles xs) (b'}' ∷ []) in
      let parts = Holds-append m (p + 1) (print_fields doubles xs) (b'}' ∷ []) at in
      let first : m (p + 0) ≡ b'{' = ap m (omega arith) ∙ hb in
      let place : p + 1 + length (print_fields doubles xs)
          ≡ p + (1 + length (print_fields doubles xs)) =
        omega arith in
      let items =
        reads f p len 1 nil parts.0 (rw place at parts.1.0) (omega (arith, size)) small
          (omega (arith, size)) in
      let count : 1 + length (print_fields doubles xs) + 1
          ≡ suc (length (print_fields doubles xs ++ b'}' ∷ [])) =
        omega (arith, size) in
      value_object doubles m (suc f) p len (suc (length (print_fields doubles xs ++ b'}' ∷ [])))
        (object xs) (omega arith) small xs hb
        (object_open doubles m f p len 0 nil (omega arith) first
          ∙ items
          ∙ ap (λ n. done n xs) count)

  -- A field up to its value.
  field_key :
      (k : Text) (v : Json) (rest : List ℕ) (f p len pos : ℕ) (acc : Items)
      → IsPlain k
      → Holds m (p + pos) (print_string k ++ b':' ∷ (print_value doubles v ++ rest))
      → pos + length k.chars + 3 ≤ len
      → (object_loop doubles m (length k.chars + 3 + f) p len sw_obj_start pos acc
          ≡ object_loop doubles m f p len (sw_val k) (pos + length k.chars + 3) acc)
        × Holds m (p + (pos + length k.chars + 3)) (print_value doubles v)
        × Holds m (p + (pos + length k.chars + 3 + length (print_value doubles v))) rest
  field_key k v rest f p len pos acc plain at room =
      let size = length-print_string k in
      let (key, (sep, more)) =
        Holds-append m (p + pos) (print_string k) (b':' ∷ (print_value doubles v ++ rest)) at in
      let (value, behind) =
        Holds-append m (p + pos + length (print_string k) + 1) (print_value doubles v) rest more in
      let place : p + pos + length (print_string k) + 1 ≡ p + (pos + length k.chars + 3) =
        omega (arith, size) in
      let next : p + pos + length (print_string k) + 1 + length (print_value doubles v)
          ≡ p + (pos + length k.chars + 3 + length (print_value doubles v)) =
        omega (arith, size) in
      (
        read_key doubles m p len acc (length k.chars + 3 + f) f pos k refl plain key sep room,
        rw place at value,
        rw next at behind,
      )

  length-field :
      (k : Text) (v : Json) (rest : List ℕ)
      → length (print_string k ++ b':' ∷ (print_value doubles v ++ rest))
        ≡ length k.chars + 3 + length (print_value doubles v) + length rest
  length-field k v rest =
      let key = length-print_string k in
      let value = length-append (print_value doubles v) rest in
      let all = length-append (print_string k) (b':' ∷ (print_value doubles v ++ rest)) in
      omega (arith, key, value, all)

  fields_last_written :
      (k : Text) (v : Json)
      → print_fields doubles (cons k v nil) ≡ print_string k ++ b':' ∷ (print_value doubles v ++ [])
  unfolding print_fields
  fields_last_written k v =
      ap (λ cs. print_string k ++ b':' ∷ cs) (sym (append-empty (print_value doubles v)))

  fields_more_written :
      (k : Text) (v : Json) (k' : Text) (w : Json) (xs : Items)
      → print_fields doubles (cons k v (cons k' w xs))
        ≡ print_string k
          ++ b':' ∷ (print_value doubles v ++ b',' ∷ print_fields doubles (cons k' w xs))
  unfolding print_fields
  fields_more_written k v k' w xs = refl

  pub fields_last :
      (k : Text) (v : Json) → IsPlain k → Reads doubles m v → ReadsFields doubles m (cons k v nil)
  fields_last k v plain reads f p len pos acc at close room small fuel =
      let written : print_fields doubles (cons k v nil)
          ≡ print_string k ++ b':' ∷ (print_value doubles v ++ []) =
        fields_last_written k v in
      let n : ℕ = length (print_value doubles v) in
      let size : length (print_fields doubles (cons k v nil)) ≡ length k.chars + 3 + n + 0 =
        ap length written ∙ length-field k v [] in
      let g : ℕ = f - (length k.chars + 4) in
      let enough : f ≡ length k.chars + 3 + suc g = omega (arith, size) in
      let start : ℕ = pos + length k.chars + 3 in
      let (key, here, there) =
        field_key k v [] (suc g) p len pos acc plain (rw written at at) (omega (arith, size)) in
      let last : p + (pos + length (print_fields doubles (cons k v nil))) ≡ p + (start + n) =
        omega (arith, size) in
      let sep : m (p + (start + n)) ≡ b'}' = rw last at close in
      let place : p + (start + n) ≡ p + start + n = omega arith in
      let count : start + n + 1 ≡ pos + length (print_fields doubles (cons k v nil)) + 1 =
        omega (arith, size) in
      let item =
        reads g (p + start) (len - start) here (inr (inr (inr (rw place at sep))))
          (omega (arith, size)) (omega arith) (omega (arith, size)) in
      ap (λ (i : ℕ). object_loop doubles m i p len sw_obj_start pos acc) enough
      ∙ key
      ∙ object_close doubles m g p len start n acc v (omega (arith, size)) item k
          (omega (arith, size)) sep
      ∙ ap (done (start + n + 1))
          (sym (append-nil (add_item acc k v)) ∙ append-add_item acc k v nil)
      ∙ ap (λ (i : ℕ). done i (append acc (cons k v nil))) count

  pub fields_more :
      (k : Text) (v : Json) (k' : Text) (w : Json) (xs : Items)
      → IsPlain k
      → Reads doubles m v
      → ReadsFields doubles m (cons k' w xs)
      → ReadsFields doubles m (cons k v (cons k' w xs))
  fields_more k v k' w xs plain reads more f p len pos acc at close room small fuel =
      let written = fields_more_written k v k' w xs in
      let n : ℕ = length (print_value doubles v) in
      let rest : ℕ = length (print_fields doubles (cons k' w xs)) in
      let size : length (print_fields doubles (cons k v (cons k' w xs)))
          ≡ length k.chars + 3 + n + suc rest =
        ap length written ∙ length-field k v (b',' ∷ print_fields doubles (cons k' w xs)) in
      let g : ℕ = f - (length k.chars + 4) in
      let enough : f ≡ length k.chars + 3 + suc g = omega (arith, size) in
      let start : ℕ = pos + length k.chars + 3 in
      let (key, here, (sep, there)) =
        field_key k v (b',' ∷ print_fields doubles (cons k' w xs)) (suc g) p len pos acc plain
          (rw written at at) (omega (arith, size)) in
      let last : p + (pos + length (print_fields doubles (cons k v (cons k' w xs))))
          ≡ p + (start + n + 1 + rest) =
        omega (arith, size) in
      let next : p + (start + n) + 1 ≡ p + (start + n + 1) = omega arith in
      let place : p + (start + n) ≡ p + start + n = omega arith in
      let count : start + n + 1 + rest + 1
          ≡ pos + length (print_fields doubles (cons k v (cons k' w xs))) + 1 =
        omega (arith, size) in
      let item =
        reads g (p + start) (len - start) here (inr (inl (rw place at sep))) (omega (arith, size))
          (omega arith) (omega (arith, size)) in
      ap (λ (i : ℕ). object_loop doubles m i p len sw_obj_start pos acc) enough
      ∙ key
      ∙ object_comma doubles m g p len start n acc v (omega (arith, size)) item k sep
      ∙ more g p len (start + n + 1) (add_item acc k v) (rw next at there) (rw last at close)
          (omega (arith, size)) small (omega (arith, size))
      ∙ ap (λ a. done (start + n + 1 + rest + 1) a) (append-add_item acc k v (cons k' w xs))
      ∙ ap (λ (i : ℕ). done i (append acc (cons k v (cons k' w xs)))) count
