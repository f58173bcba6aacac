-- ===== src/Json/Words.antt =====
-- Numbers and the three words, as the printer writes them.
use chatease_server.Common.Memory.{Mem, Holds, matches}
use chatease_server.Common.{
  ℕ, suc, ◌+◌, ◌-◌, ◌^◌, ◌<◌, ◌≡◌, ◌⊎◌, inl, inr, refl, ap, arith, Bool, true, false, ◌==◌, List,
  [], ◌∷◌, length, if◌then◌else◌,
}
use chatease_server.Json.Dispatch.{is_number_start, value_number, value_specific}
use chatease_server.Json.Parse.{done, is_blank, parse_specific, parse_number, parse_value}
use chatease_server.Json.Print.{Doubles, null_word, true_word, false_word, print_number}
use chatease_server.Json.Printable.{EndsNumber, StartsNumber, ReadsBack}
use chatease_server.Json.Steps.{skip_none}
use chatease_server.Json.Value.{Json, null, boolean, number}

first_of :
    (m : Mem) (p : ℕ) (cs : List ℕ)
    → StartsNumber cs
    → Holds m p cs
    → (is_number_start (m p) ≡ true) × (0 < length cs)
first_of m p [] none at = elim none [ ]
first_of m p (c ∷ cs) start (h, at) = (rw h start, omega arith)

matches-Holds : (m : Mem) (p : ℕ) (cs : List ℕ) → Holds m p cs → matches m p cs ≡ true
unfolding matches
matches-Holds m p [] h = refl
matches-Holds m p (c ∷ cs) (h, at) = let ih = matches-Holds m (p + 1) cs at in ground (arith, h, ih)

module _ (doubles : Doubles) (m : Mem) (f p : ℕ) (left : 0 < f) where
  number_reads :
      (d n : ℕ)
      → is_number_start (m p) ≡ true
      → 0 < n
      → doubles.strtod m p ≡ (d, n)
      → parse_number doubles m f p ≡ done n (number d)
  unfolding parse_number
  number_reads d n start lt e =
      let plain : is_blank (m p) ≡ false = ground (arith, start) in
      let here : p - p ≡ 0 = omega arith in
      let some' : (n == 0) ≡ false = ground arith in
      rw (parse_number, skip_none m f p left plain, e, here, some')
        (ap (λ (i : ℕ). done i (number d)) (omega arith))

  pub value_number_reads :
      (len d : ℕ)
      → len < 2 ^ 64
      → ReadsBack doubles d
      → Holds m p (print_number doubles d)
      → EndsNumber (m (p + length (print_number doubles d)))
      → parse_value doubles m (suc f) p len ≡ done (length (print_number doubles d)) (number d)
  value_number_reads len d small back at ends =
      let (start, lt) = first_of m p (print_number doubles d) back.starts at in
      let size = length (print_number doubles d) in
      value_number doubles m f p len size (number d) left small (m p) refl start
        (number_reads d size start lt (back.reads m p at ends))

  null_reads : Holds m p null_word → parse_specific m f p ≡ done 4 null
  unfolding parse_specific
  null_reads at =
      let plain : is_blank (m p) ≡ false = ground (arith, at.0) in
      let here : p - p ≡ 0 = omega arith in
      rw (parse_specific, skip_none m f p left plain, matches-Holds m p null_word at, here) refl

  boolean_reads :
      (b : Bool)
      → Holds m p (if b then true_word else false_word)
      → parse_specific m f p ≡ done (length (if b then true_word else false_word)) (boolean b)
  unfolding parse_specific matches
  boolean_reads true (h0, (h1, (h2, (h3, at)))) =
      let plain : is_blank (m p) ≡ false = ground (arith, h0) in
      let here : p - p ≡ 0 = omega arith in
      rw (parse_specific, skip_none m f p left plain, h0, h1, h2, h3, here) refl
  boolean_reads false (h0, (h1, (h2, (h3, (h4, at))))) =
      let plain : is_blank (m p) ≡ false = ground (arith, h0) in
      let here : p - p ≡ 0 = omega arith in
      rw (parse_specific, skip_none m f p left plain, h0, h1, h2, h3, h4, here) refl

  word_reads :
      (len n : ℕ) (v : Json)
      → len < 2 ^ 64
      → (m p ≡ b'n') ⊎ (m p ≡ b't') ⊎ (m p ≡ b'f')
      → parse_specific m f p ≡ done n v
      → parse_value doubles m (suc f) p len ≡ done n v
  word_reads len n v small c e =
      value_specific doubles m f p len n v left small (m p) refl (ground (arith, c))
        (ground (arith, c)) (ground (arith, c)) e

  pub value_null_reads :
      (len : ℕ)
      → len < 2 ^ 64
      → Holds m p null_word
      → parse_value doubles m (suc f) p len ≡ done 4 null
  value_null_reads len small at = word_reads len 4 null small (inl at.0) (null_reads at)

  pub value_boolean_reads :
      (len : ℕ) (b : Bool)
      → len < 2 ^ 64
      → Holds m p (if b then true_word else false_word)
      → parse_value doubles m (suc f) p len
        ≡ done (length (if b then true_word else false_word)) (boolean b)
  value_boolean_reads len true small at =
      word_reads len 4 (boolean true) small (inr (inl at.0)) (boolean_reads true at)
  value_boolean_reads len false small at =
      word_reads len 5 (boolean false) small (inr (inr at.0)) (boolean_reads false at)
