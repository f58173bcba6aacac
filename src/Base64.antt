-- ===== src/Base64.antt =====
-- src/cn/studease/core/stu_base64.c. A `stu_str_t` is the list of its bytes; what a function
-- writes through `d` is the list that it returns, and `dst->len` its length.
pub mod Symbols
pub mod RoundTrip
pub mod Bounds
mod Tests
use chatease_server.Common.{
  ℕ, ◌+◌, ◌*◌, ◌/◌, ◌%◌, bit_and, bit_or, Bool, true, false, List, [], ◌∷◌, ◌++◌, Option, none,
  some, ◌==◌, if◌then◌else◌, get_or, length,
}

-- `basis64` of `stu_base64_encode`.
unfoldable pub encode_basis : List ℕ
encode_basis =
    65 ∷ 66 ∷ 67 ∷ 68 ∷ 69 ∷ 70 ∷ 71 ∷ 72 ∷ 73 ∷ 74 ∷ 75 ∷ 76 ∷ 77 ∷ 78 ∷ 79 ∷ 80 ∷ 81 ∷ 82 ∷ 83
    ∷ 84 ∷ 85 ∷ 86 ∷ 87 ∷ 88 ∷ 89 ∷ 90 ∷ 97 ∷ 98 ∷ 99 ∷ 100 ∷ 101 ∷ 102 ∷ 103 ∷ 104 ∷ 105 ∷ 106
    ∷ 107 ∷ 108 ∷ 109 ∷ 110 ∷ 111 ∷ 112 ∷ 113 ∷ 114 ∷ 115 ∷ 116 ∷ 117 ∷ 118 ∷ 119 ∷ 120 ∷ 121 ∷ 122
    ∷ 48 ∷ 49 ∷ 50 ∷ 51 ∷ 52 ∷ 53 ∷ 54 ∷ 55 ∷ 56 ∷ 57 ∷ 43 ∷ 47 ∷ []

-- `basis64` of `stu_base64_decode`; 77 marks a byte that is no symbol.
unfoldable pub decode_basis : List ℕ
decode_basis =
    77 ∷ 77 ∷ 77 ∷ 77 ∷ 77 ∷ 77 ∷ 77 ∷ 77 ∷ 77 ∷ 77 ∷ 77 ∷ 77 ∷ 77 ∷ 77 ∷ 77 ∷ 77 ∷ 77 ∷ 77 ∷ 77
    ∷ 77 ∷ 77 ∷ 77 ∷ 77 ∷ 77 ∷ 77 ∷ 77 ∷ 77 ∷ 77 ∷ 77 ∷ 77 ∷ 77 ∷ 77 ∷ 77 ∷ 77 ∷ 77 ∷ 77 ∷ 77 ∷ 77
    ∷ 77 ∷ 77 ∷ 77 ∷ 77 ∷ 77 ∷ 62 ∷ 77 ∷ 77 ∷ 77 ∷ 63 ∷ 52 ∷ 53 ∷ 54 ∷ 55 ∷ 56 ∷ 57 ∷ 58 ∷ 59 ∷ 60
    ∷ 61 ∷ 77 ∷ 77 ∷ 77 ∷ 77 ∷ 77 ∷ 77 ∷ 77 ∷ 0 ∷ 1 ∷ 2 ∷ 3 ∷ 4 ∷ 5 ∷ 6 ∷ 7 ∷ 8 ∷ 9 ∷ 10 ∷ 11 ∷ 12
    ∷ 13 ∷ 14 ∷ 15 ∷ 16 ∷ 17 ∷ 18 ∷ 19 ∷ 20 ∷ 21 ∷ 22 ∷ 23 ∷ 24 ∷ 25 ∷ 77 ∷ 77 ∷ 77 ∷ 77 ∷ 77 ∷ 77
    ∷ 26 ∷ 27 ∷ 28 ∷ 29 ∷ 30 ∷ 31 ∷ 32 ∷ 33 ∷ 34 ∷ 35 ∷ 36 ∷ 37 ∷ 38 ∷ 39 ∷ 40 ∷ 41 ∷ 42 ∷ 43 ∷ 44
    ∷ 45 ∷ 46 ∷ 47 ∷ 48 ∷ 49 ∷ 50 ∷ 51 ∷ 77 ∷ 77 ∷ 77 ∷ 77 ∷ 77 ∷ 77 ∷ 77 ∷ 77 ∷ 77 ∷ 77 ∷ 77 ∷ 77
    ∷ 77 ∷ 77 ∷ 77 ∷ 77 ∷ 77 ∷ 77 ∷ 77 ∷ 77 ∷ 77 ∷ 77 ∷ 77 ∷ 77 ∷ 77 ∷ 77 ∷ 77 ∷ 77 ∷ 77 ∷ 77 ∷ 77
    ∷ 77 ∷ 77 ∷ 77 ∷ 77 ∷ 77 ∷ 77 ∷ 77 ∷ 77 ∷ 77 ∷ 77 ∷ 77 ∷ 77 ∷ 77 ∷ 77 ∷ 77 ∷ 77 ∷ 77 ∷ 77 ∷ 77
    ∷ 77 ∷ 77 ∷ 77 ∷ 77 ∷ 77 ∷ 77 ∷ 77 ∷ 77 ∷ 77 ∷ 77 ∷ 77 ∷ 77 ∷ 77 ∷ 77 ∷ 77 ∷ 77 ∷ 77 ∷ 77 ∷ 77
    ∷ 77 ∷ 77 ∷ 77 ∷ 77 ∷ 77 ∷ 77 ∷ 77 ∷ 77 ∷ 77 ∷ 77 ∷ 77 ∷ 77 ∷ 77 ∷ 77 ∷ 77 ∷ 77 ∷ 77 ∷ 77 ∷ 77
    ∷ 77 ∷ 77 ∷ 77 ∷ 77 ∷ 77 ∷ 77 ∷ 77 ∷ 77 ∷ 77 ∷ 77 ∷ 77 ∷ 77 ∷ 77 ∷ 77 ∷ 77 ∷ 77 ∷ 77 ∷ 77 ∷ 77
    ∷ 77 ∷ 77 ∷ 77 ∷ 77 ∷ 77 ∷ 77 ∷ 77 ∷ 77 ∷ 77 ∷ 77 ∷ 77 ∷ 77 ∷ 77 ∷ 77 ∷ 77 ∷ 77 ∷ 77 ∷ 77 ∷ 77
    ∷ 77 ∷ 77 ∷ 77 ∷ 77 ∷ 77 ∷ 77 ∷ 77 ∷ []

abbrev pub Basis : Type 0
Basis = List ℕ

module _ (basis : Basis) where
  abbrev symbol : ℕ → ℕ
  symbol i = get_or basis i 0

  -- The rest of the source, when `len` is at most 2.
  abbrev encode_tail : Bool → List ℕ → List ℕ
  encode_tail padding [] = []
  encode_tail padding (s0 ∷ []) =
      symbol (bit_and (s0 / 4) 0x3f)
      ∷ symbol (bit_and s0 3 * 16)
      ∷ (if padding then b'=' ∷ b'=' ∷ [] else [])
  encode_tail padding (s0 ∷ s1 ∷ _) =
      symbol (bit_and (s0 / 4) 0x3f)
      ∷ symbol (bit_or (bit_and s0 3 * 16) (s1 / 16))
      ∷ symbol (bit_and s1 0x0f * 4)
      ∷ (if padding then b'=' ∷ [] else [])

  unfoldable pub encode_internal : Bool → List ℕ → List ℕ
  encode_internal padding (s0 ∷ s1 ∷ s2 ∷ s) =
      symbol (bit_and (s0 / 4) 0x3f)
      ∷ symbol (bit_or (bit_and s0 3 * 16) (s1 / 16))
      ∷ symbol (bit_or (bit_and s1 0x0f * 4) (s2 / 64))
      ∷ symbol (bit_and s2 0x3f)
      ∷ encode_internal padding s
  encode_internal padding s = encode_tail padding s

  -- The first loop: the bytes before `=`, or `none` at a byte that is no symbol.
  unfoldable pub decode_scan : List ℕ → Option (List ℕ)
  decode_scan [] = some []
  decode_scan (c ∷ cs) =
      let rest = decode_scan cs in
      if c == b'='
      then some []
      else if symbol c == 77
      then none
      else elim rest [ none ↦ none | some s ↦ some (c ∷ s) ]

  abbrev pub first_byte : ℕ → ℕ → ℕ
  first_byte s0 s1 = bit_or (symbol s0 * 4) (symbol s1 / 16) % 256

  abbrev pub second_byte : ℕ → ℕ → ℕ
  second_byte s1 s2 = bit_or (symbol s1 * 16) (symbol s2 / 4) % 256

  abbrev pub third_byte : ℕ → ℕ → ℕ
  third_byte s2 s3 = bit_or (symbol s2 * 64) (symbol s3) % 256

  -- The second loop, and the two tests behind it.
  unfoldable pub decode_loop : List ℕ → List ℕ
  decode_loop (s0 ∷ s1 ∷ s2 ∷ s3 ∷ s) =
      first_byte s0 s1 ∷ second_byte s1 s2 ∷ third_byte s2 s3 ∷ decode_loop s
  decode_loop (s0 ∷ s1 ∷ s2 ∷ []) = first_byte s0 s1 ∷ second_byte s1 s2 ∷ []
  decode_loop (s0 ∷ s1 ∷ []) = first_byte s0 s1 ∷ []
  decode_loop _ = []

  -- `none` is STU_ERROR.
  unfoldable pub decode_internal : List ℕ → Option (List ℕ)
  decode_internal src = elim (decode_scan src) [
    | none ↦ none
    | some s ↦ if length s % 4 == 1 then none else some (decode_loop s)
  ]

unfoldable pub encode : List ℕ → List ℕ
unfolding encode_internal encode_basis
encode = encode_internal encode_basis true

unfoldable pub decode : List ℕ → Option (List ℕ)
unfolding decode_internal decode_scan decode_loop decode_basis
decode = decode_internal decode_basis
