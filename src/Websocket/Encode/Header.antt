-- ===== src/Websocket/Encode/Header.antt =====
-- The parser on an encoded header, for each of the three lengths of header.
use chatease_server.Common.Bits.{bit_or_fields}
use chatease_server.Common.Memory.{Mem}
use chatease_server.Common.{ℕ, ◌+◌, ◌*◌, ◌/◌, ◌^◌, ◌<◌, ◌≡◌, bit_or, arith}
use chatease_server.Websocket.Parse.{extended_64, shift_64}
use chatease_server.Websocket.Encode.{u8}

shift_top : (size : ℕ) → size < 2 ^ 64 → shift_64 (u8 (size / 2 ^ 56)) 56 ≡ size / 2 ^ 56 * 2 ^ 56
shift_top size h = omega arith

join_48 :
    (size : ℕ)
    → size < 2 ^ 64
    → bit_or (size / 2 ^ 56 * 2 ^ 56) (shift_64 (u8 (size / 2 ^ 48)) 48) ≡ size / 2 ^ 48 * 2 ^ 48
join_48 size h =
    omega (arith, bit_or_fields 56 (size / 2 ^ 56) (shift_64 (u8 (size / 2 ^ 48)) 48) (omega arith))

join_40 :
    (size : ℕ)
    → size < 2 ^ 64
    → bit_or (size / 2 ^ 48 * 2 ^ 48) (shift_64 (u8 (size / 2 ^ 40)) 40) ≡ size / 2 ^ 40 * 2 ^ 40
join_40 size h =
    omega (arith, bit_or_fields 48 (size / 2 ^ 48) (shift_64 (u8 (size / 2 ^ 40)) 40) (omega arith))

join_32 :
    (size : ℕ)
    → size < 2 ^ 64
    → bit_or (size / 2 ^ 40 * 2 ^ 40) (shift_64 (u8 (size / 2 ^ 32)) 32) ≡ size / 2 ^ 32 * 2 ^ 32
join_32 size h =
    omega (arith, bit_or_fields 40 (size / 2 ^ 40) (shift_64 (u8 (size / 2 ^ 32)) 32) (omega arith))

join_24 :
    (size : ℕ)
    → size < 2 ^ 64
    → bit_or (size / 2 ^ 32 * 2 ^ 32) (shift_64 (u8 (size / 2 ^ 24)) 24) ≡ size / 2 ^ 24 * 2 ^ 24
join_24 size h =
    omega (arith, bit_or_fields 32 (size / 2 ^ 32) (shift_64 (u8 (size / 2 ^ 24)) 24) (omega arith))

join_16 :
    (size : ℕ)
    → size < 2 ^ 64
    → bit_or (size / 2 ^ 24 * 2 ^ 24) (shift_64 (u8 (size / 2 ^ 16)) 16) ≡ size / 2 ^ 16 * 2 ^ 16
join_16 size h =
    omega (arith, bit_or_fields 24 (size / 2 ^ 24) (shift_64 (u8 (size / 2 ^ 16)) 16) (omega arith))

join_8 :
    (size : ℕ)
    → size < 2 ^ 64
    → bit_or (size / 2 ^ 16 * 2 ^ 16) (shift_64 (u8 (size / 2 ^ 8)) 8) ≡ size / 2 ^ 8 * 2 ^ 8
join_8 size h =
    omega (arith, bit_or_fields 16 (size / 2 ^ 16) (shift_64 (u8 (size / 2 ^ 8)) 8) (omega arith))

join_0 : (size : ℕ) → bit_or (size / 2 ^ 8 * 2 ^ 8) (u8 size) ≡ size
join_0 size = omega (arith, bit_or_fields 8 (size / 2 ^ 8) (u8 size) (omega arith))

-- The eight big-endian bytes of a 64-bit size are read back as the size.
pub extended_64-bytes :
    (m : Mem) (p size : ℕ)
    → size < 2 ^ 64
    → m p ≡ u8 (size / 2 ^ 56)
    → m (p + 1) ≡ u8 (size / 2 ^ 48)
    → m (p + 2) ≡ u8 (size / 2 ^ 40)
    → m (p + 3) ≡ u8 (size / 2 ^ 32)
    → m (p + 4) ≡ u8 (size / 2 ^ 24)
    → m (p + 5) ≡ u8 (size / 2 ^ 16)
    → m (p + 6) ≡ u8 (size / 2 ^ 8)
    → m (p + 7) ≡ u8 size
    → extended_64 m p ≡ size
extended_64-bytes m p size h b0 b1 b2 b3 b4 b5 b6 b7 =
    rw (b0, b1, b2, b3, b4, b5, b6, b7)
      (rw
        (
          shift_top size h,
          join_48 size h,
          join_40 size h,
          join_32 size h,
          join_24 size h,
          join_16 size h,
          join_8 size h,
        )
        (join_0 size))
