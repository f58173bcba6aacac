-- ===== src/Json/Steps.antt =====
-- Single rounds of the loops of the parser.
use chatease_server.Common.Memory.{Mem}
use chatease_server.Common.{
  ℕ, zero, suc, ◌+◌, ◌-◌, ◌≤◌, ◌<◌, ◌≡◌, ◌≢◌, refl, arith, false, ltb, lt→ltb, ◌==◌, some,
}
use chatease_server.Json.Parse.{
  Parsed, done, failed, Separator, comma, closed, ended, bad, ArrayState, ObjectState, sw_arr_start,
  sw_arr_end, sw_obj_start, sw_key_start, sw_key, sw_key_end, sw_val, sw_obj_end, is_blank, text_at,
  skip_blanks, separator, parse_value, array_loop, object_loop,
}
use chatease_server.Json.Print.{Doubles}
use chatease_server.Json.Value.{Text, Json, Items, no_key, add_item}

pub skip_none : (m : Mem) (f p : ℕ) → 0 < f → is_blank (m p) ≡ false → skip_blanks m f p ≡ some p
unfolding skip_blanks
skip_none m zero p left plain = absurd (omega arith)
skip_none m (suc f) p left plain = rw plain refl

-- Where a loop goes on behind an item.
abbrev pub array_next : Doubles → Mem → ℕ → ℕ → ℕ → Items → Separator → Parsed Items
array_next doubles m f p len xs (comma q) = array_loop doubles m f p len sw_arr_start (q + 1) xs
array_next doubles m f p len xs (closed q) = array_loop doubles m f p len sw_arr_end (q + 1) xs
array_next doubles m f p len xs (ended q) = array_loop doubles m f p len sw_arr_start (q + 1) xs
array_next doubles m f p len xs (bad q) = failed (p + q)

abbrev pub object_next : Doubles → Mem → ℕ → ℕ → ℕ → Text → Items → Separator → Parsed Items
object_next doubles m f p len k xs (comma q) = object_loop doubles m f p len sw_obj_start (q + 1) xs
object_next doubles m f p len k xs (closed q) = object_loop doubles m f p len sw_obj_end (q + 1) xs
object_next doubles m f p len k xs (ended q) = object_loop doubles m f p len (sw_val k) (q + 1) xs
object_next doubles m f p len k xs (bad q) = failed (p + q)

module _ (doubles : Doubles) (m : Mem) (f p len pos : ℕ) (xs : Items) where
  pub array_stop :
      (st : ArrayState) → len ≤ pos → array_loop doubles m (suc f) p len st pos xs ≡ done pos xs
  unfolding array_loop
  array_stop st h = let over : ltb pos len ≡ false = ground arith in rw (array_loop, over) refl

  pub array_open :
      pos < len
      → m (p + pos) ≡ b'['
      → array_loop doubles m (suc f) p len ArrayState.sw_start pos xs
        ≡ array_loop doubles m f p len sw_arr_start (pos + 1) xs
  unfolding array_loop
  array_open h c = rw (array_loop, lt→ltb pos len h, c) refl

  pub array_item :
      {n : ℕ} {v : Json}
      → pos < len
      → parse_value doubles m f (p + pos) (len - pos) ≡ done n v
      → array_loop doubles m (suc f) p len sw_arr_start pos xs
        ≡ array_next doubles m f p len
            (add_item xs no_key v)
            (separator m b']' p (len - (pos + n)) (pos + n))
  unfolding array_loop
  array_item h e = rw (array_loop, lt→ltb pos len h, e) (ground arith)

  pub object_stop :
      (st : ObjectState) → len ≤ pos → object_loop doubles m (suc f) p len st pos xs ≡ done pos xs
  unfolding object_loop
  object_stop st h = let over : ltb pos len ≡ false = ground arith in rw (object_loop, over) refl

  pub object_open :
      pos < len
      → m (p + pos) ≡ b'{'
      → object_loop doubles m (suc f) p len ObjectState.sw_start pos xs
        ≡ object_loop doubles m f p len sw_obj_start (pos + 1) xs
  unfolding object_loop
  object_open h c = rw (object_loop, lt→ltb pos len h, c) refl

  pub object_key :
      pos < len
      → m (p + pos) ≡ b'"'
      → object_loop doubles m (suc f) p len sw_obj_start pos xs
        ≡ object_loop doubles m f p len sw_key_start (pos + 1) xs
  unfolding object_loop
  object_key h c = rw (object_loop, lt→ltb pos len h, c) refl

  pub object_key_empty :
      pos < len
      → m (p + pos) ≡ b'"'
      → object_loop doubles m (suc f) p len sw_key_start pos xs
        ≡ object_loop doubles m f p len (sw_key_end no_key) (pos + 1) xs
  unfolding object_loop
  object_key_empty h c = rw (object_loop, lt→ltb pos len h, c) refl

  pub object_key_first :
      pos < len
      → m (p + pos) ≢ b'"'
      → object_loop doubles m (suc f) p len sw_key_start pos xs
        ≡ object_loop doubles m f p len (sw_key (p + pos)) (pos + 1) xs
  unfolding object_loop
  object_key_first h c =
      let other : (m (p + pos) == b'"') ≡ false = ground (arith, c) in
      rw (object_loop, lt→ltb pos len h, other) refl

  pub object_key_more :
      (s : ℕ)
      → pos < len
      → m (p + pos) ≢ b'"'
      → object_loop doubles m (suc f) p len (sw_key s) pos xs
        ≡ object_loop doubles m f p len (sw_key s) (pos + 1) xs
  unfolding object_loop
  object_key_more s h c =
      let other : (m (p + pos) == b'"') ≡ false = ground (arith, c) in
      rw (object_loop, lt→ltb pos len h, other) refl

  pub object_key_last :
      (s : ℕ)
      → pos < len
      → m (p + pos) ≡ b'"'
      → object_loop doubles m (suc f) p len (sw_key s) pos xs
        ≡ object_loop doubles m f p len (sw_key_end (text_at m s (p + pos))) (pos + 1) xs
  unfolding object_loop
  object_key_last s h c = rw (object_loop, lt→ltb pos len h, c) refl

  pub object_colon :
      (k : Text)
      → pos < len
      → m (p + pos) ≡ b':'
      → object_loop doubles m (suc f) p len (sw_key_end k) pos xs
        ≡ object_loop doubles m f p len (sw_val k) (pos + 1) xs
  unfolding object_loop
  object_colon k h c = rw (object_loop, lt→ltb pos len h, c) refl

  pub object_item :
      (k : Text) {n : ℕ} {v : Json}
      → pos < len
      → parse_value doubles m f (p + pos) (len - pos) ≡ done n v
      → object_loop doubles m (suc f) p len (sw_val k) pos xs
        ≡ object_next doubles m f p len k
            (add_item xs k v)
            (separator m b'}' p (len - (pos + n)) (pos + n))
  unfolding object_loop
  object_item k h e = rw (object_loop, lt→ltb pos len h, e) (ground arith)

pub array_finished :
    (doubles : Doubles) (m : Mem) (f p len pos : ℕ) (xs : Items)
    → 0 < f
    → array_loop doubles m f p len sw_arr_end pos xs ≡ done pos xs
unfolding array_loop
array_finished doubles m zero p len pos xs lt = absurd (omega arith)
array_finished doubles m (suc f) p len pos xs lt = ground arith

pub object_finished :
    (doubles : Doubles) (m : Mem) (f p len pos : ℕ) (xs : Items)
    → 0 < f
    → object_loop doubles m f p len sw_obj_end pos xs ≡ done pos xs
unfolding object_loop
object_finished doubles m zero p len pos xs lt = absurd (omega arith)
object_finished doubles m (suc f) p len pos xs lt = ground arith
