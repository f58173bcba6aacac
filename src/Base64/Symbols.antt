-- ===== src/Base64/Symbols.antt =====
-- The two tables are inverse on 6-bit values, and the bit fields of a group as arithmetic.
use chatease_server.Common.Bits.{bit_or_fields, bit_and_mask}
use chatease_server.Common.{
  ℕ, ◌+◌, ◌*◌, ◌/◌, ◌%◌, ◌<◌, bit_and, bit_or, not, true, false, List, ◌∷◌, some, ◌==◌, ◌≡◌, refl,
  arith, get_or, passes_below, passes_at, ==_iff,
}
use chatease_server.Base64.{encode_basis, decode_basis, decode_scan}

abbrev pub sym_of : ℕ → ℕ
sym_of i = get_or encode_basis i 0

abbrev pub val_of : ℕ → ℕ
val_of c = get_or decode_basis c 0

inverse_table : passes_below (λ i. val_of (sym_of i) == i) 64 ≡ true
unfolding passes_below encode_basis decode_basis
inverse_table = refl

no_padding_table : passes_below (λ i. not (sym_of i == b'=')) 64 ≡ true
unfolding passes_below encode_basis
no_padding_table = refl

pub val_of-sym_of : (i : ℕ) → i < 64 → val_of (sym_of i) ≡ i
val_of-sym_of i h = (==_iff _ i).0 (passes_at _ 64 i inverse_table h)

pub sym_of-ne-padding : (i : ℕ) → i < 64 → (sym_of i == b'=') ≡ false
sym_of-ne-padding i h = ground (arith, passes_at _ 64 i no_padding_table h)

-- The scan passes over every symbol.
pub decode_scan-sym_of :
    (i : ℕ) (cs s : List ℕ)
    → i < 64
    → decode_scan decode_basis cs ≡ some s
    → decode_scan decode_basis (sym_of i ∷ cs) ≡ some (sym_of i ∷ s)
unfolding decode_scan
decode_scan-sym_of i cs s h e = ground (arith, sym_of-ne-padding i h, val_of-sym_of i h)

-- The six-bit fields that `encode` looks up, for source bytes.
pub field0 : (a : ℕ) → a < 256 → bit_and (a / 4) 0x3f ≡ a / 4
field0 a h = omega (arith, bit_and_mask 6 (a / 4))

pub field1_last : (a : ℕ) → bit_and a 3 * 16 ≡ a % 4 * 16
field1_last a = omega (arith, bit_and_mask 2 a)

pub field1 : (a b : ℕ) → b < 256 → bit_or (bit_and a 3 * 16) (b / 16) ≡ a % 4 * 16 + b / 16
field1 a b h = ground (arith, bit_and_mask 2 a, bit_or_fields 4 (a % 4) (b / 16))

pub field2_last : (b : ℕ) → bit_and b 0x0f * 4 ≡ b % 16 * 4
field2_last b = omega (arith, bit_and_mask 4 b)

pub field2 : (b c : ℕ) → c < 256 → bit_or (bit_and b 0x0f * 4) (c / 64) ≡ b % 16 * 4 + c / 64
field2 b c h = ground (arith, bit_and_mask 4 b, bit_or_fields 2 (b % 16) (c / 64))

pub field3 : (c : ℕ) → bit_and c 0x3f ≡ c % 64
field3 c = omega (arith, bit_and_mask 6 c)

-- The bytes that `decode` joins, from six-bit values.
pub join0 : (x y : ℕ) → x < 64 → y < 64 → bit_or (x * 4) (y / 16) % 256 ≡ x * 4 + y / 16
join0 x y hx hy = omega (arith, bit_or_fields 2 x (y / 16))

pub join1 : (x y : ℕ) → x < 64 → y < 64 → bit_or (x * 16) (y / 4) % 256 ≡ x % 16 * 16 + y / 4
join1 x y hx hy = omega (arith, bit_or_fields 4 x (y / 4))

pub join2 : (x y : ℕ) → x < 64 → y < 64 → bit_or (x * 64) y % 256 ≡ x % 4 * 64 + y
join2 x y hx hy = omega (arith, bit_or_fields 6 x y)
