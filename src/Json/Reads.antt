-- ===== src/Json/Reads.antt =====
-- What it is that the parser reads a value back, or the children of one.
use chatease_server.Common.Memory.{Mem, Holds}
use chatease_server.Common.{ℕ, ◌+◌, ◌*◌, ◌^◌, ◌≤◌, ◌<◌, ◌≡◌, length}
use chatease_server.Json.Parse.{
  done, sw_arr_start, sw_obj_start, parse_value, array_loop, object_loop,
}
use chatease_server.Json.Print.{Doubles, print_value, print_items, print_fields}
use chatease_server.Json.Printable.{EndsNumber, append}
use chatease_server.Json.Value.{Json, Items}

abbrev pub Reads : Doubles → Mem → Json → Type 0
Reads doubles m v =
    (f p len : ℕ)
    → Holds m p (print_value doubles v)
    → EndsNumber (m (p + length (print_value doubles v)))
    → length (print_value doubles v) ≤ len
    → len < 2 ^ 64
    → 2 * length (print_value doubles v) + 1 < f
    → parse_value doubles m f p len ≡ done (length (print_value doubles v)) v

-- The items of an array up to its bracket.
abbrev pub ReadsItems : Doubles → Mem → Items → Type 0
ReadsItems doubles m xs =
    (f p len pos : ℕ) (acc : Items)
    → Holds m (p + pos) (print_items doubles xs)
    → m (p + (pos + length (print_items doubles xs))) ≡ b']'
    → pos + length (print_items doubles xs) < len
    → len < 2 ^ 64
    → 2 * length (print_items doubles xs) + 3 < f
    → array_loop doubles m f p len sw_arr_start pos acc
      ≡ done (pos + length (print_items doubles xs) + 1) (append acc xs)

abbrev pub ReadsFields : Doubles → Mem → Items → Type 0
ReadsFields doubles m xs =
    (f p len pos : ℕ) (acc : Items)
    → Holds m (p + pos) (print_fields doubles xs)
    → m (p + (pos + length (print_fields doubles xs))) ≡ b'}'
    → pos + length (print_fields doubles xs) < len
    → len < 2 ^ 64
    → 2 * length (print_fields doubles xs) + 3 < f
    → object_loop doubles m f p len sw_obj_start pos acc
      ≡ done (pos + length (print_fields doubles xs) + 1) (append acc xs)
