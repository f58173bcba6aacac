-- ===== src/Json/Rounds.antt =====
-- The fuel that the loops of arrays and objects need.
use chatease_server.Common.Memory.{Mem}
use chatease_server.Common.{
  ℕ, suc, ◌+◌, ◌-◌, ◌*◌, ◌^◌, ◌<◌, ◌≡◌, inl, inr, arith, true, ◌==◌, ltb, ltb→lt, Bool-cases,
}
use chatease_server.Json.Enough.{Values, Arrays, Objects, array_need, object_need}
use chatease_server.Json.Fuel.{Stops-cases, IsFrom-le, Stops, over, IsFrom, separator-IsFrom}
use chatease_server.Json.Parse.{
  ArrayState, ObjectState, sw_arr_start, sw_arr_end, sw_obj_start, sw_key_start, sw_key, sw_key_end,
  sw_val, sw_obj_end, Separator, comma, closed, ended, bad, is_blank, array_loop, object_loop,
  text_at,
}
use chatease_server.Json.Print.{Doubles}
use chatease_server.Json.Steps.{array_item, object_item, array_next, object_next}
use chatease_server.Json.Value.{Text, Items, no_key, add_item}

module _ (doubles : Doubles) (m : Mem) where
  array_next_stops :
      (f p len pos : ℕ) (xs : Items) (s : Separator)
      → Arrays doubles m f
      → m (p + len) ≡ 0
      → len < 2 ^ 64
      → pos < len
      → 3 * (len - pos) + 5 < f
      → IsFrom m pos s
      → Stops (array_next doubles m f p len xs s)
  array_next_stops f p len pos xs (comma q) arrays z small lt enough from =
      arrays p len (q + 1) sw_arr_start xs z small (omega arith)
  array_next_stops f p len pos xs (closed q) arrays z small lt enough from =
      arrays p len (q + 1) sw_arr_end xs z small (omega arith)
  array_next_stops f p len pos xs (ended q) arrays z small lt enough from =
      arrays p len (q + 1) sw_arr_start xs z small (omega arith)
  array_next_stops f p len pos xs (bad q) arrays z small lt enough from = over tt

  arrays_round :
      (f p len pos : ℕ) (st : ArrayState) (xs : Items)
      → Values doubles m f
      → Arrays doubles m f
      → m (p + len) ≡ 0
      → len < 2 ^ 64
      → array_need st (len - pos) < suc f
      → ltb pos len ≡ true
      → Stops (array_loop doubles m (suc f) p len st pos xs)
  unfolding array_loop
  arrays_round f p len pos ArrayState.sw_start xs values arrays z small enough h =
      let lt = ltb→lt pos len h in
      rw (array_loop, h)
        (elim (Bool-cases (m (p + pos) == b'[')) [
          | inl h ↦ rw h (arrays p len (pos + 1) sw_arr_start xs z small (omega arith))
          | inr h ↦ rw h (elim (Bool-cases (is_blank (m (p + pos)))) [
            | inl h ↦ rw h (arrays p len (pos + 1) ArrayState.sw_start xs z small (omega arith))
            | inr h ↦ rw h (over tt)
          ])
        ])
  arrays_round f p len pos sw_arr_start xs values arrays z small enough h =
      let lt = ltb→lt pos len h in
      let same : p + len ≡ p + pos + (len - pos) = omega arith in
      let value = values (p + pos) (len - pos) (rw same at z) (omega arith) (omega arith) in
      elim (Stops-cases _ value) [
        | inl (n, v, e) ↦ rw (array_item doubles m f p len pos xs lt e) (
            array_next_stops f p len pos (add_item xs no_key v) _ arrays z small lt (omega arith) (
              IsFrom-le m pos (pos + n) _ (omega arith)
                (separator-IsFrom m b']' p (len - (pos + n)) (pos + n))))
        | inr (inl (e', e)) ↦ rw (array_loop, h, e) (over tt)
        | inr (inr e) ↦ rw (array_loop, h, e) (over tt)
      ]
  arrays_round f p len pos sw_arr_end xs values arrays z small enough h =
      rw (array_loop, h) (over tt)

  pub Arrays-step : (f : ℕ) → Values doubles m f → Arrays doubles m f → Arrays doubles m (suc f)
  unfolding array_loop
  Arrays-step f values arrays p len pos st xs z small enough = elim (Bool-cases (ltb pos len)) [
    | inr h ↦ rw (array_loop, h) (over tt)
    | inl h ↦ arrays_round f p len pos st xs values arrays z small enough h
  ]

  object_next_stops :
      (f p len pos : ℕ) (k : Text) (xs : Items) (s : Separator)
      → Objects doubles m f
      → m (p + len) ≡ 0
      → len < 2 ^ 64
      → pos < len
      → 3 * (len - pos) + 5 < f
      → IsFrom m pos s
      → Stops (object_next doubles m f p len k xs s)
  object_next_stops f p len pos k xs (comma q) objects z small lt enough from =
      objects p len (q + 1) sw_obj_start xs z small (omega arith)
  object_next_stops f p len pos k xs (closed q) objects z small lt enough from =
      objects p len (q + 1) sw_obj_end xs z small (omega arith)
  object_next_stops f p len pos k xs (ended q) objects z small lt enough from =
      objects p len (q + 1) (sw_val k) xs z small (omega arith)
  object_next_stops f p len pos k xs (bad q) objects z small lt enough from = over tt

  objects_round :
      (f p len pos : ℕ) (st : ObjectState) (xs : Items)
      → Values doubles m f
      → Objects doubles m f
      → m (p + len) ≡ 0
      → len < 2 ^ 64
      → object_need st (len - pos) < suc f
      → ltb pos len ≡ true
      → Stops (object_loop doubles m (suc f) p len st pos xs)
  unfolding object_loop
  objects_round f p len pos ObjectState.sw_start xs values objects z small enough h =
      let lt = ltb→lt pos len h in
      rw (object_loop, h)
        (elim (Bool-cases (m (p + pos) == b'{')) [
          | inl h ↦ rw h (objects p len (pos + 1) sw_obj_start xs z small (omega arith))
          | inr h ↦ rw h (elim (Bool-cases (is_blank (m (p + pos)))) [
            | inl h ↦ rw h (objects p len (pos + 1) ObjectState.sw_start xs z small (omega arith))
            | inr h ↦ rw h (over tt)
          ])
        ])
  objects_round f p len pos sw_obj_start xs values objects z small enough h =
      let lt = ltb→lt pos len h in
      rw (object_loop, h)
        (elim (Bool-cases (m (p + pos) == b'"')) [
          | inl h ↦ rw h (objects p len (pos + 1) sw_key_start xs z small (omega arith))
          | inr h ↦ rw h (elim (Bool-cases (is_blank (m (p + pos)))) [
            | inl h ↦ rw h (objects p len (pos + 1) sw_obj_start xs z small (omega arith))
            | inr h ↦ rw h (over tt)
          ])
        ])
  objects_round f p len pos sw_key_start xs values objects z small enough h =
      let lt = ltb→lt pos len h in
      rw (object_loop, h)
        (elim (Bool-cases (m (p + pos) == b'"')) [
          | inl h ↦ rw h (objects p len (pos + 1) (sw_key_end no_key) xs z small (omega arith))
          | inr h ↦ rw h (objects p len (pos + 1) (sw_key (p + pos)) xs z small (omega arith))
        ])
  objects_round f p len pos (sw_key s) xs values objects z small enough h =
      let lt = ltb→lt pos len h in
      rw (object_loop, h)
        (elim (Bool-cases (m (p + pos) == b'"')) [
          | inl h ↦ rw h (
              objects p len (pos + 1) (sw_key_end (text_at m s (p + pos))) xs z small (omega arith))
          | inr h ↦ rw h (objects p len (pos + 1) (sw_key s) xs z small (omega arith))
        ])
  objects_round f p len pos (sw_key_end k) xs values objects z small enough h =
      let lt = ltb→lt pos len h in
      rw (object_loop, h)
        (elim (Bool-cases (m (p + pos) == b':')) [
          | inl h ↦ rw h (objects p len (pos + 1) (sw_val k) xs z small (omega arith))
          | inr h ↦ rw h (elim (Bool-cases (is_blank (m (p + pos)))) [
            | inl h ↦ rw h (objects p len (pos + 1) (sw_key_end k) xs z small (omega arith))
            | inr h ↦ rw h (over tt)
          ])
        ])
  objects_round f p len pos (sw_val k) xs values objects z small enough h =
      let lt = ltb→lt pos len h in
      let same : p + len ≡ p + pos + (len - pos) = omega arith in
      let value = values (p + pos) (len - pos) (rw same at z) (omega arith) (omega arith) in
      elim (Stops-cases _ value) [
        | inl (n, v, e) ↦ rw (object_item doubles m f p len pos xs k lt e) (
            object_next_stops f p len pos k (add_item xs k v) _ objects z small lt (omega arith) (
              IsFrom-le m pos (pos + n) _ (omega arith)
                (separator-IsFrom m b'}' p (len - (pos + n)) (pos + n))))
        | inr (inl (e', e)) ↦ rw (object_loop, h, e) (over tt)
        | inr (inr e) ↦ rw (object_loop, h, e) (over tt)
      ]
  objects_round f p len pos sw_obj_end xs values objects z small enough h =
      rw (object_loop, h) (over tt)

  pub Objects-step : (f : ℕ) → Values doubles m f → Objects doubles m f → Objects doubles m (suc f)
  unfolding object_loop
  Objects-step f values objects p len pos st xs z small enough = elim (Bool-cases (ltb pos len)) [
    | inr h ↦ rw (object_loop, h) (over tt)
    | inl h ↦ objects_round f p len pos st xs values objects z small enough h
  ]
