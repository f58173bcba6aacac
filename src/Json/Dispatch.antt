-- ===== src/Json/Dispatch.antt =====
-- What `stu_json_parse_value` hands a value to, by its first byte.
use chatease_server.Common.Memory.{Mem}
use chatease_server.Common.{
  ℕ, suc, ◌+◌, ◌-◌, ◌%◌, ◌^◌, ◌<◌, ◌≡◌, ◌≢◌, refl, ap, ◌∙◌, arith, Bool, true, false, ◌||◌, ◌==◌,
  within, if◌then◌else◌,
}
use chatease_server.Json.Parse.{
  Parsed, done, ArrayState, ObjectState, is_blank, parse_string, parse_specific, parse_number,
  parse_value, array_loop, object_loop, wrap, after,
}
use chatease_server.Json.Print.{Doubles}
use chatease_server.Json.Steps.{skip_none}
use chatease_server.Json.Value.{Json, Items, array, object, nil}

abbrev pub is_number_start : ℕ → Bool
is_number_start c = c == b'-' || within b'0' b'9' c

module _ (doubles : Doubles) (m : Mem) (f p len n : ℕ) (v : Json) (left : 0 < f)
    (small : len < 2 ^ 64) where
  pub value_at :
      (c : ℕ)
      → m p ≡ c
      → is_blank c ≡ false
      → parse_value doubles m (suc f) p len
        ≡ after 0 (
            if c == b'"'
            then parse_string m p len
            else if c == b'{'
            then wrap object (object_loop doubles m f p len ObjectState.sw_start 0 nil)
            else if c == b'['
            then wrap array (array_loop doubles m f p len ArrayState.sw_start 0 nil)
            else if c == b'-' || within b'0' b'9' c
            then parse_number doubles m f p
            else parse_specific m f p)
  unfolding parse_value
  value_at c e plain =
      let plain' : is_blank (m p) ≡ false = rw e plain in
      let here : p - p ≡ 0 = omega arith in
      let size : (len + 2 ^ 64 - 0) % 2 ^ 64 ≡ len = omega arith in
      rw (parse_value, skip_none m f p left plain', here, size, e) refl

  after_zero : {A : Type 0} {r : Parsed A} {k : ℕ} {a : A} → r ≡ done k a → after 0 r ≡ done k a
  after_zero {k = k} {a = a} e = rw e (ap (λ (i : ℕ). done i a) (omega arith))

  pub value_string :
      m p ≡ b'"' → parse_string m p len ≡ done n v → parse_value doubles m (suc f) p len ≡ done n v
  value_string c e = value_at b'"' c refl ∙ after_zero e

  pub value_object :
      (xs : Items)
      → m p ≡ b'{'
      → object_loop doubles m f p len ObjectState.sw_start 0 nil ≡ done n xs
      → parse_value doubles m (suc f) p len ≡ done n (object xs)
  value_object xs c e =
      value_at b'{' c refl ∙ rw e (ap (λ (i : ℕ). done i (object xs)) (omega arith))

  pub value_array :
      (xs : Items)
      → m p ≡ b'['
      → array_loop doubles m f p len ArrayState.sw_start 0 nil ≡ done n xs
      → parse_value doubles m (suc f) p len ≡ done n (array xs)
  value_array xs c e = value_at b'[' c refl ∙ rw e (ap (λ (i : ℕ). done i (array xs)) (omega arith))

  pub value_number :
      (c : ℕ)
      → m p ≡ c
      → is_number_start c ≡ true
      → parse_number doubles m f p ≡ done n v
      → parse_value doubles m (suc f) p len ≡ done n v
  value_number c e start r =
      let quote : (c == b'"') ≡ false = ground (arith, start) in
      let brace : (c == b'{') ≡ false = ground (arith, start) in
      let bracket : (c == b'[') ≡ false = ground (arith, start) in
      value_at c e (ground (arith, start)) ∙ rw (quote, brace, bracket, start) (after_zero r)

  pub value_specific :
      (c : ℕ)
      → m p ≡ c
      → is_blank c ≡ false
      → is_number_start c ≡ false
      → (c ≢ b'"') × (c ≢ b'{') × (c ≢ b'[')
      → parse_specific m f p ≡ done n v
      → parse_value doubles m (suc f) p len ≡ done n v
  value_specific c e plain start others r =
      let quote : (c == b'"') ≡ false = ground (arith, others) in
      let brace : (c == b'{') ≡ false = ground (arith, others) in
      let bracket : (c == b'[') ≡ false = ground (arith, others) in
      value_at c e plain ∙ rw (quote, brace, bracket, start) (after_zero r)
