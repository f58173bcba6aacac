-- ===== src/Json/Arrays.antt =====
-- Arrays, as the printer writes them.
use chatease_server.Common.Memory.{Mem, Holds-append}
use chatease_server.Common.{
  ℕ, zero, suc, ◌+◌, ◌-◌, ◌≡◌, inl, inr, refl, sym, ap, ◌∙◌, arith, [], ◌∷◌, ◌++◌, length,
  length-append,
}
use chatease_server.Json.Dispatch.{value_array}
use chatease_server.Json.Parse.{done}
use chatease_server.Json.Print.{Doubles, print_value, print_items}
use chatease_server.Json.Printable.{append, append-add_item, append-nil}
use chatease_server.Json.Reads.{Reads, ReadsItems}
use chatease_server.Json.Separators.{array_comma, array_close}
use chatease_server.Json.Steps.{array_open}
use chatease_server.Json.Value.{Text, Json, Items, array, nil, cons, no_key, add_item}

module _ (doubles : Doubles) (m : Mem) where
  pub array-Reads : (xs : Items) → ReadsItems doubles m xs → Reads doubles m (array xs)
  unfolding print_value append
  array-Reads xs reads zero p len at ends room small fuel = absurd (omega arith)
  array-Reads xs reads (suc zero) p len at ends room small fuel = absurd (omega arith)
  array-Reads xs reads (suc (suc f)) p len (hb, at) ends room small fuel =
      let size : length (print_items doubles xs ++ b']' ∷ [])
          ≡ length (print_items doubles xs) + 1 =
        length-append (print_items doubles xs) (b']' ∷ []) in
      let parts = Holds-append m (p + 1) (print_items doubles xs) (b']' ∷ []) at in
      let first : m (p + 0) ≡ b'[' = ap m (omega arith) ∙ hb in
      let place : p + 1 + length (print_items doubles xs)
          ≡ p + (1 + length (print_items doubles xs)) =
        omega arith in
      let items =
        reads f p len 1 nil parts.0 (rw place at parts.1.0) (omega (arith, size)) small
          (omega (arith, size)) in
      let count : 1 + length (print_items doubles xs) + 1
          ≡ suc (length (print_items doubles xs ++ b']' ∷ [])) =
        omega (arith, size) in
      value_array doubles m (suc f) p len (suc (length (print_items doubles xs ++ b']' ∷ [])))
        (array xs) (omega arith) small xs hb
        (array_open doubles m f p len 0 nil (omega arith) first ∙ items ∙ ap (λ n. done n xs) count)

  items_written :
      (v : Json) (k : Text) (w : Json) (xs : Items)
      → print_items doubles (cons no_key v (cons k w xs))
        ≡ print_value doubles v ++ b',' ∷ print_items doubles (cons k w xs)
  unfolding print_items
  items_written v k w xs = refl

  pub items_last : (v : Json) → Reads doubles m v → ReadsItems doubles m (cons no_key v nil)
  unfolding print_items
  items_last v reads zero p len pos acc at close room small fuel = absurd (omega arith)
  items_last v reads (suc f) p len pos acc at close room small fuel =
      let n : ℕ = length (print_value doubles v) in
      let place : p + (pos + n) ≡ p + pos + n = omega arith in
      let ends : m (p + pos + n) ≡ b']' = rw place at close in
      let item =
        reads f (p + pos) (len - pos) at (inr (inr (inl ends))) (omega arith) (omega arith)
          (omega arith) in
      array_close doubles m f p len pos n acc v room item (omega arith) close
      ∙ ap (done (pos + n + 1))
          (sym (append-nil (add_item acc no_key v)) ∙ append-add_item acc no_key v nil)

  pub items_more :
      (v : Json) (k : Text) (w : Json) (xs : Items)
      → Reads doubles m v
      → ReadsItems doubles m (cons k w xs)
      → ReadsItems doubles m (cons no_key v (cons k w xs))
  items_more v k w xs reads more zero p len pos acc at close room small fuel = absurd (omega arith)
  items_more v k w xs reads more (suc f) p len pos acc at close room small fuel =
      let written = items_written v k w xs in
      let n : ℕ = length (print_value doubles v) in
      let rest : ℕ = length (print_items doubles (cons k w xs)) in
      let size : length (print_items doubles (cons no_key v (cons k w xs))) ≡ n + suc rest =
        ap length written
        ∙ length-append (print_value doubles v) (b',' ∷ print_items doubles (cons k w xs)) in
      let (here, (sep, there)) =
        Holds-append m (p + pos) (print_value doubles v) (b',' ∷ print_items doubles (cons k w xs))
          (rw written at at) in
      let place : p + pos + n ≡ p + (pos + n) = omega arith in
      let next : p + pos + n + 1 ≡ p + (pos + n + 1) = omega arith in
      let last : p + (pos + length (print_items doubles (cons no_key v (cons k w xs))))
          ≡ p + (pos + n + 1 + rest) =
        omega (arith, size) in
      let count : pos + n + 1 + rest + 1
          ≡ pos + length (print_items doubles (cons no_key v (cons k w xs))) + 1 =
        omega (arith, size) in
      let item =
        reads f (p + pos) (len - pos) here (inr (inl sep)) (omega (arith, size)) (omega arith)
          (omega (arith, size)) in
      array_comma doubles m f p len pos n acc v (omega (arith, size)) item (rw place at sep)
      ∙ more f p len (pos + n + 1) (add_item acc no_key v) (rw next at there) (rw last at close)
          (omega (arith, size)) small (omega (arith, size))
      ∙ ap (λ a. done (pos + n + 1 + rest + 1) a) (append-add_item acc no_key v (cons k w xs))
      ∙ ap (λ (i : ℕ). done i (append acc (cons no_key v (cons k w xs)))) count
