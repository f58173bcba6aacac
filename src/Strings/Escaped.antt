-- ===== src/Strings/Escaped.antt =====
-- Texts escaped for a URI, as a description of their own, and what is read back from them.
use chatease_server.Common.{
  ℕ, ◌+◌, ◌-◌, ◌*◌, ◌%◌, ◌<◌, ◌≡◌, ◌≢◌, ◌⊎◌, inl, inr, refl, ap, ◌∙◌, arith, Bool, true, false,
  ◌||◌, ◌==◌, ltb, lt→ltb, within, bit_or, List, [], ◌∷◌, length, if◌then◌else◌, passes_below,
  passes_at, Bool-cases,
}
use chatease_server.Strings.Unescape.{
  Kind, sw_usual, sw_quoted, sw_quoted_second, put, is_digit, is_letter, is_quoted, unescape_loop,
  unescape_uri,
}

-- Byte `c` is the hexadecimal digit of `v`.
abbrev pub HexDigit : ℕ → ℕ → Type 0
HexDigit c v =
    ((within b'0' b'9' c ≡ true) × (v + b'0' ≡ c))
    ⊎ (((within b'A' b'F' c ≡ true) × (v + b'A' ≡ c + 10))
        ⊎ ((within b'a' b'f' c ≡ true) × (v + b'a' ≡ c + 10)))

-- `Escapes cs src`: `src` is a way to write the bytes `cs` in the query of a URI.
pub data Escapes : List ℕ → List ℕ → Type 0 where
  nothing : Escapes [] []
  plain :
      {c : ℕ} {cs src : List ℕ} → c ≢ b'%' → c ≢ b'+' → Escapes cs src → Escapes (c ∷ cs) (c ∷ src)
  space : {cs src : List ℕ} → Escapes cs src → Escapes (b' ' ∷ cs) (b'+' ∷ src)
  quoted :
      (a b v w : ℕ) {cs src : List ℕ}
      → HexDigit a v
      → HexDigit b w
      → Escapes cs src
      → Escapes ((v * 16 + w) ∷ cs) (b'%' ∷ a ∷ b ∷ src)

abbrev lower_test : ℕ → Bool
lower_test c =
    if within b'A' b'F' c
    then bit_or c 0x20 == c + 32
    else if within b'a' b'f' c
    then bit_or c 0x20 == c
    else true

lower_run : passes_below lower_test 128 ≡ true
unfolding passes_below
lower_run = refl

lower_at : (c : ℕ) → c < 128 → lower_test c ≡ true
lower_at c h = passes_at lower_test 128 c lower_run h

-- How the loop sees a digit.
digit-cases :
    (c v : ℕ)
    → HexDigit c v
    → (v < 16)
      × (((is_digit c ≡ true) × (c - b'0' ≡ v))
          ⊎ ((is_digit c ≡ false) × (is_letter c ≡ true) × (bit_or c 0x20 - b'a' + 10 ≡ v)))
digit-cases c v (inl (h, e)) = (ground arith, inl (h, ground arith))
digit-cases c v (inr (inl (h, e))) =
    let low = lower_at c (ground arith) in
    let is : bit_or c 0x20 ≡ c + 32 = ground (arith, low, h) in
    (ground arith, inr (ground arith, rw is (ground arith), rw is (ground arith)))
digit-cases c v (inr (inr (h, e))) =
    let low = lower_at c (ground arith) in
    let is : bit_or c 0x20 ≡ c = ground (arith, low, h) in
    (ground arith, inr (ground arith, rw is h, rw is (ground arith)))

digit-is_quoted : (c v : ℕ) → HexDigit c v → (is_digit c || is_letter c) ≡ true
digit-is_quoted c v h = elim (digit-cases c v h).1 [
  | inl (d, e) ↦ rw d refl
  | inr (d, l, e) ↦ rw (d, l) refl
]

module _ (kind : Kind) (no_uri : kind.uri ≡ false) (no_redirect : kind.redirect ≡ false) where
  first_digit :
      (c v : ℕ) (src : List ℕ)
      → HexDigit c v
      → unescape_loop kind sw_quoted (c ∷ src) ≡ unescape_loop kind (sw_quoted_second v c) src
  unfolding unescape_loop
  first_digit c v src h = elim (digit-cases c v h).1 [
    | inl (d, e) ↦ rw (unescape_loop, d, e) refl
    | inr (d, l, e) ↦ rw (unescape_loop, d, l, e) refl
  ]

  second_digit :
      (v c a w : ℕ) (src : List ℕ)
      → v < 16
      → HexDigit c w
      → unescape_loop kind (sw_quoted_second v a) (c ∷ src)
        ≡ put (v * 16 + w) (unescape_loop kind sw_usual src)
  unfolding unescape_loop
  second_digit v c a w src lt h = elim (digit-cases c w h).1 [
    | inl (d, e) ↦
        let small = (digit-cases c w h).0 in
        let byte : (v * 16 + w) % 256 ≡ v * 16 + w = omega arith in
        rw (unescape_loop, d, no_redirect, e, byte) refl
    | inr (d, l, e) ↦
        let small = (digit-cases c w h).0 in
        let byte : (v * 16 + (bit_or c 0x20 - b'a') + 10) % 256 ≡ v * 16 + w = omega (arith, e) in
        rw (unescape_loop, d, l, no_uri, no_redirect, byte) refl
  ]

  quoted_byte :
      (a b v w : ℕ) (src : List ℕ)
      → HexDigit a v
      → HexDigit b w
      → unescape_loop kind sw_usual (b'%' ∷ a ∷ b ∷ src)
        ≡ put (v * 16 + w) (unescape_loop kind sw_usual src)
  unfolding unescape_loop
  quoted_byte a b v w src ha hb =
      let here : is_quoted (a ∷ b ∷ src) ≡ true =
        rw (digit-is_quoted a v ha, digit-is_quoted b w hb) refl in
      let more : ltb 1 (length (a ∷ b ∷ src)) ≡ true =
        lt→ltb 1 (length (a ∷ b ∷ src)) (omega arith) in
      rw (unescape_loop, more, here)
        (first_digit a v (b ∷ src) ha ∙ second_digit v b a w src (digit-cases a v ha).0 hb)

  -- Without STU_UNESCAPE_URI and STU_UNESCAPE_REDIRECT, whatever way a text was escaped in, with
  -- digits of both cases, the text is written and all of the source is read.
  pub unescape_uri-Escapes :
      (cs src : List ℕ)
      → Escapes cs src
      → unescape_uri kind src ≡ record { written = cs; left = [] }
  unfolding unescape_uri unescape_loop
  unescape_uri-Escapes _ _ nothing = refl
  unescape_uri-Escapes _ _ (plain {c} {cs} {src} no_percent no_plus rest) =
      let ih = unescape_uri-Escapes cs src rest in
      let other : (c == b'%') ≡ false = ground (arith, no_percent) in
      let other' : (c == b'+') ≡ false = ground (arith, no_plus) in
      elim (Bool-cases (c == b'?')) [
        | inl h ↦ rw (unescape_loop, h, no_uri, no_redirect, other, other') (ap (put c) ih)
        | inr h ↦ rw (unescape_loop, h, other, other') (ap (put c) ih)
      ]
  unescape_uri-Escapes _ _ (space {cs} {src} rest) =
      ap (put b' ') (unescape_uri-Escapes cs src rest)
  unescape_uri-Escapes _ _ (quoted a b v w {cs} {src} ha hb rest) =
      quoted_byte a b v w src ha hb ∙ ap (put (v * 16 + w)) (unescape_uri-Escapes cs src rest)
