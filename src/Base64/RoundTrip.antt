-- ===== src/Base64/RoundTrip.antt =====
-- Decoding what was encoded.
use chatease_server.Common.{
  ℕ, ◌+◌, ◌*◌, ◌/◌, ◌%◌, ◌<◌, Bool, true, false, List, [], ◌∷◌, some, ◌==◌, if◌then◌else◌, ◌≡◌,
  refl, ap, ap₂, ◌∙◌, arith, length, All,
}
use chatease_server.Base64.Symbols.{
  sym_of, val_of-sym_of, decode_scan-sym_of, field0, field1, field1_last, field2, field2_last,
  field3, join0, join1, join2,
}
use chatease_server.Base64.{
  encode_basis, decode_basis, encode_internal, decode_scan, decode_loop, decode_internal, encode,
  decode, first_byte, second_byte, third_byte,
}

abbrev pub IsBytes : List ℕ → Type 0
IsBytes = All (λ c. c < 256)

abbrev symbols : List ℕ → List ℕ
symbols = encode_internal encode_basis false

-- The symbols of a whole group, as arithmetic on its bytes.
encode-group :
    (padding : Bool) (a b c : ℕ) (s : List ℕ)
    → a < 256
    → b < 256
    → c < 256
    → encode_internal encode_basis padding (a ∷ b ∷ c ∷ s)
      ≡ sym_of (a / 4)
        ∷ sym_of (a % 4 * 16 + b / 16)
        ∷ sym_of (b % 16 * 4 + c / 64)
        ∷ sym_of (c % 64)
        ∷ encode_internal encode_basis padding s
unfolding encode_internal
encode-group padding a b c s ha hb hc = rw (field0 a ha, field1 a b hb, field2 b c hc, field3 c)

encode-one :
    (padding : Bool) (a : ℕ)
    → a < 256
    → encode_internal encode_basis padding (a ∷ [])
      ≡ sym_of (a / 4) ∷ sym_of (a % 4 * 16) ∷ (if padding then b'=' ∷ b'=' ∷ [] else [])
unfolding encode_internal
encode-one padding a ha = rw (field0 a ha, field1_last a)

encode-two :
    (padding : Bool) (a b : ℕ)
    → a < 256
    → b < 256
    → encode_internal encode_basis padding (a ∷ b ∷ [])
      ≡ sym_of (a / 4)
        ∷ sym_of (a % 4 * 16 + b / 16)
        ∷ sym_of (b % 16 * 4)
        ∷ (if padding then b'=' ∷ [] else [])
unfolding encode_internal
encode-two padding a b ha hb = rw (field0 a ha, field1 a b hb, field2_last b)

scan_padding :
    (padding : Bool) (s : List ℕ)
    → decode_scan decode_basis (if padding then b'=' ∷ s else []) ≡ some []
unfolding decode_scan
scan_padding true s = refl
scan_padding false s = refl

decode_scan-encode :
    (padding : Bool) (xs : List ℕ)
    → IsBytes xs
    → decode_scan decode_basis (encode_internal encode_basis padding xs) ≡ some (symbols xs)
decode_scan-encode padding (a ∷ b ∷ c ∷ s) (ha, (hb, (hc, hs))) =
    rw (encode-group padding a b c s ha hb hc, encode-group false a b c s ha hb hc)
      (decode_scan-sym_of _ _ _ (omega arith) (
        decode_scan-sym_of _ _ _ (omega arith) (
          decode_scan-sym_of _ _ _ (omega arith)
            (decode_scan-sym_of _ _ _ (omega arith) (decode_scan-encode padding s hs)))))
decode_scan-encode padding [] h = unfold encode_internal decode_scan in refl
decode_scan-encode padding (a ∷ []) (ha, _) =
    rw (encode-one padding a ha, encode-one false a ha)
      (decode_scan-sym_of _ _ _ (omega arith)
        (decode_scan-sym_of _ _ _ (omega arith) (scan_padding padding (b'=' ∷ []))))
decode_scan-encode padding (a ∷ b ∷ []) (ha, (hb, _)) =
    rw (encode-two padding a b ha hb, encode-two false a b ha hb)
      (decode_scan-sym_of _ _ _ (omega arith) (
        decode_scan-sym_of _ _ _ (omega arith)
          (decode_scan-sym_of _ _ _ (omega arith) (scan_padding padding []))))

first_byte-sym_of :
    (x y : ℕ) → x < 64 → y < 64 → first_byte decode_basis (sym_of x) (sym_of y) ≡ x * 4 + y / 16
first_byte-sym_of x y hx hy = rw (val_of-sym_of x hx, val_of-sym_of y hy) (join0 x y hx hy)

second_byte-sym_of :
    (x y : ℕ)
    → x < 64
    → y < 64
    → second_byte decode_basis (sym_of x) (sym_of y) ≡ x % 16 * 16 + y / 4
second_byte-sym_of x y hx hy = rw (val_of-sym_of x hx, val_of-sym_of y hy) (join1 x y hx hy)

third_byte-sym_of :
    (x y : ℕ) → x < 64 → y < 64 → third_byte decode_basis (sym_of x) (sym_of y) ≡ x % 4 * 64 + y
third_byte-sym_of x y hx hy = rw (val_of-sym_of x hx, val_of-sym_of y hy) (join2 x y hx hy)

decode_loop-symbols : (xs : List ℕ) → IsBytes xs → decode_loop decode_basis (symbols xs) ≡ xs
unfolding decode_loop
decode_loop-symbols (a ∷ b ∷ c ∷ s) (ha, (hb, (hc, hs))) =
    rw (encode-group false a b c s ha hb hc) (
      ap₂ ◌∷◌ (first_byte-sym_of _ _ (omega arith) (omega arith) ∙ omega arith) (
        ap₂ ◌∷◌ (second_byte-sym_of _ _ (omega arith) (omega arith) ∙ omega arith) (
          ap₂ ◌∷◌ (third_byte-sym_of _ _ (omega arith) (omega arith) ∙ omega arith)
            (decode_loop-symbols s hs))))
decode_loop-symbols [] h = unfold encode_internal in refl
decode_loop-symbols (a ∷ []) (ha, _) =
    rw (encode-one false a ha)
      (ap₂ ◌∷◌ (first_byte-sym_of _ _ (omega arith) (omega arith) ∙ omega arith) refl)
decode_loop-symbols (a ∷ b ∷ []) (ha, (hb, _)) = rw (encode-two false a b ha hb) (
    ap₂ ◌∷◌ (first_byte-sym_of _ _ (omega arith) (omega arith) ∙ omega arith)
      (ap₂ ◌∷◌ (second_byte-sym_of _ _ (omega arith) (omega arith) ∙ omega arith) refl))

length-symbols : (xs : List ℕ) → IsBytes xs → (length (symbols xs) % 4 == 1) ≡ false
length-symbols (a ∷ b ∷ c ∷ s) (ha, (hb, (hc, hs))) =
    rw (encode-group false a b c s ha hb hc) (ground (arith, length-symbols s hs))
length-symbols [] h = unfold encode_internal in refl
length-symbols (a ∷ []) (ha, _) = rw (encode-one false a ha)
length-symbols (a ∷ b ∷ []) (ha, (hb, _)) = rw (encode-two false a b ha hb)

pub decode_internal-encode_internal :
    (padding : Bool) (xs : List ℕ)
    → IsBytes xs
    → decode_internal decode_basis (encode_internal encode_basis padding xs) ≡ some xs
unfolding decode_internal
decode_internal-encode_internal padding xs h =
    rw (decode_scan-encode padding xs h, decode_internal)
      (rw (length-symbols xs h) (ap some (decode_loop-symbols xs h)))

-- Decoding the encoding of any list of bytes succeeds and gives the bytes back.
pub decode-encode : (xs : List ℕ) → IsBytes xs → decode (encode xs) ≡ some xs
unfolding decode encode
decode-encode xs h = decode_internal-encode_internal true xs h

-- The encoding has four symbols for each group of three bytes begun.
pub length-encode : (xs : List ℕ) → length (encode xs) ≡ 4 * ((length xs + 2) / 3)
unfolding encode encode_internal
length-encode (a ∷ b ∷ c ∷ s) = omega (arith, length-encode s)
length-encode [] = refl
length-encode (a ∷ []) = refl
length-encode (a ∷ b ∷ []) = refl
