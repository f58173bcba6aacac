-- ===== src/Json/Enough.antt =====
-- The fuel that a value needs, when that is so of arrays and objects.
use chatease_server.Common.Memory.{Mem}
use chatease_server.Common.{
  ℕ, suc, ◌+◌, ◌-◌, ◌*◌, ◌%◌, ◌^◌, ◌<◌, ◌≡◌, inl, inr, arith, ◌==◌, ◌||◌, within, if◌then◌else◌,
  Bool-cases,
}
use chatease_server.Json.Fuel.{
  Stops, over, Stops-after, Stops-wrap, skip_stops, string_stops, specific_stops,
}
use chatease_server.Json.Parse.{
  StringState, ArrayState, ObjectState, parse_string, parse_specific, parse_number, parse_value,
  array_loop, object_loop, wrap,
}
use chatease_server.Json.Print.{Doubles}
use chatease_server.Json.Value.{Items, nil, array, object}

abbrev pub array_need : ArrayState → ℕ → ℕ
array_need ArrayState.sw_start left = 3 * left + 4
array_need _ left = 3 * left + 6

abbrev pub object_need : ObjectState → ℕ → ℕ
object_need ObjectState.sw_start left = 3 * left + 4
object_need _ left = 3 * left + 6

module _ (doubles : Doubles) (m : Mem) where
  abbrev pub Values : ℕ → Type 0
  Values f =
      (p len : ℕ)
      → m (p + len) ≡ 0
      → len < 2 ^ 64
      → 3 * len + 5 < f
      → Stops (parse_value doubles m f p len)

  abbrev pub Arrays : ℕ → Type 0
  Arrays f =
      (p len pos : ℕ) (st : ArrayState) (xs : Items)
      → m (p + len) ≡ 0
      → len < 2 ^ 64
      → array_need st (len - pos) < f
      → Stops (array_loop doubles m f p len st pos xs)

  abbrev pub Objects : ℕ → Type 0
  Objects f =
      (p len pos : ℕ) (st : ObjectState) (xs : Items)
      → m (p + len) ≡ 0
      → len < 2 ^ 64
      → object_need st (len - pos) < f
      → Stops (object_loop doubles m f p len st pos xs)

  number_stops : (f p len : ℕ) → m (p + len) ≡ 0 → len < f → Stops (parse_number doubles m f p)
  unfolding parse_number
  number_stops f p len z lt =
      let (k, le, e) = skip_stops m f p len z lt in
      rw (parse_number, e)
        (elim (Bool-cases ((doubles.strtod m p).1 == 0)) [
          | inl h ↦ rw h (over tt)
          | inr h ↦ rw h (over tt)
        ])

  dispatch_stops :
      (f p len : ℕ)
      → Arrays f
      → Objects f
      → m (p + len) ≡ 0
      → len < 2 ^ 64
      → 3 * len + 4 < f
      → Stops (
          if m p == b'"'
          then parse_string m p len
          else if m p == b'{'
          then wrap object (object_loop doubles m f p len ObjectState.sw_start 0 nil)
          else if m p == b'['
          then wrap array (array_loop doubles m f p len ArrayState.sw_start 0 nil)
          else if m p == b'-' || within b'0' b'9' (m p)
          then parse_number doubles m f p
          else parse_specific m f p)
  unfolding parse_string
  dispatch_stops f p len arrays objects z small lt = elim (Bool-cases (m p == b'"')) [
    | inl h ↦ rw h (string_stops m p len 0 StringState.sw_start)
    | inr h ↦ rw h (elim (Bool-cases (m p == b'{')) [
      | inl h ↦
          rw h
            (Stops-wrap object _ (objects p len 0 ObjectState.sw_start nil z small (omega arith)))
      | inr h ↦ rw h (elim (Bool-cases (m p == b'[')) [
        | inl h ↦
            rw h (Stops-wrap array _ (arrays p len 0 ArrayState.sw_start nil z small (omega arith)))
        | inr h ↦ rw h (elim (Bool-cases (m p == b'-' || within b'0' b'9' (m p))) [
          | inl h ↦ rw h (number_stops f p len z (omega arith))
          | inr h ↦ rw h (specific_stops m f p len z (omega arith))
        ])
      ])
    ])
  ]

  pub Values-step : (f : ℕ) → Arrays f → Objects f → Values (suc f)
  unfolding parse_value
  Values-step f arrays objects p len z small lt =
      let (k, le, e) = skip_stops m f p len z (omega arith) in
      let here : p + k - p ≡ k = omega arith in
      let left : (len + 2 ^ 64 - k) % 2 ^ 64 ≡ len - k = omega arith in
      let same : p + len ≡ p + k + (len - k) = omega arith in
      rw (parse_value, e, here, left)
        (Stops-after k _ (
          dispatch_stops f (p + k) (len - k) arrays objects (rw same at z) (omega arith)
            (omega arith)))
