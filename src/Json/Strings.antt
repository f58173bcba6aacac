-- ===== src/Json/Strings.antt =====
-- Quoted strings and keys, as the printer writes them.
use chatease_server.Common.Memory.{Mem, Holds, Holds-append, slice-Holds}
use chatease_server.Common.{
  ℕ, zero, suc, ◌+◌, ◌-◌, ◌≤◌, ◌<◌, ◌≡◌, ◌≢◌, refl, sym, ap, ◌∙◌, arith, List, [], ◌∷◌, ◌++◌,
  length, All, false, ◌==◌, length-append,
}
use chatease_server.Json.Parse.{
  done, StringState, sw_str_start, sw_str, sw_str_end, text_at, string_loop, parse_string,
}
use chatease_server.Json.Print.{print_string}
use chatease_server.Json.Value.{Text, string, no_key, c_string}

-- A string that the printer can write so that it is read back: it has no quote and no zero.
abbrev pub PlainByte : ℕ → Type 0
PlainByte c = (c ≢ 0) × (c ≢ b'"')

pub record IsPlain (t : Text) : Type 0 where
  pub plain : All PlainByte t.chars
  pub whole : t.len ≡ length t.chars

pub c_string-plain : (cs : List ℕ) → All PlainByte cs → c_string cs ≡ cs
unfolding c_string
c_string-plain [] h = refl
c_string-plain (c ∷ cs) (hc, h) = let ih = c_string-plain cs h in ground (arith, ih, hc)

-- What is copied from between the quotes.
pub text_at-Holds :
    (m : Mem) (s q : ℕ) (t : Text)
    → IsPlain t
    → Holds m s t.chars
    → q ≡ s + length t.chars
    → text_at m s q ≡ t
text_at-Holds m s q t p h e =
    let size : q - s ≡ length t.chars = omega arith in
    let same = slice-Holds m s t.chars h in
    let kept = c_string-plain t.chars p.plain in rw (size, same, kept, ← p.whole) refl

module _ (m : Mem) (p : ℕ) where
  string_done :
      (left pos : ℕ) (t : Text) → string_loop m p left pos (sw_str_end t) ≡ done pos (string t)
  unfolding string_loop
  string_done zero pos t = refl
  string_done (suc left) pos t = refl

  string_body :
      (s left pos q : ℕ) (cs : List ℕ)
      → All PlainByte cs
      → Holds m (p + pos) (cs ++ b'"' ∷ [])
      → length cs < left
      → q ≡ pos + length cs
      → string_loop m p left pos (sw_str s) ≡ done (q + 1) (string (text_at m s (p + q)))
  unfolding string_loop
  string_body s zero pos q cs h at lt e = absurd (omega arith)
  string_body s (suc left) pos q [] h (hq, at) lt e =
      let here : q ≡ pos = omega arith in
      rw (hq, here) (string_done left (pos + 1) (text_at m s (p + pos)))
  string_body s (suc left) pos q (c ∷ cs) (hc, h) (hq, at) lt e =
      let inside : (m (p + pos) == b'"') ≡ false = ground (arith, hq, hc) in
      let moved : p + pos + 1 ≡ p + (pos + 1) = omega arith in
      rw inside (string_body s left (pos + 1) q cs h (rw moved at at) (omega arith) (omega arith))

  string_start :
      (left : ℕ)
      → m (p + 0) ≡ b'"'
      → string_loop m p (suc left) 0 StringState.sw_start
        ≡ string_loop m p left (0 + 1) sw_str_start
  unfolding string_loop
  string_start left h = rw (string_loop, h) refl

  string_empty :
      (left : ℕ)
      → m (p + 1) ≡ b'"'
      → string_loop m p (suc left) 1 sw_str_start ≡ done 2 (string no_key)
  unfolding string_loop
  string_empty left h = rw h (string_done left 2 no_key)

  string_first :
      (left : ℕ)
      → m (p + 1) ≢ b'"'
      → string_loop m p (suc left) 1 sw_str_start ≡ string_loop m p left 2 (sw_str (p + 1))
  unfolding string_loop
  string_first left h =
      let other : (m (p + 1) == b'"') ≡ false = ground (arith, h) in rw (string_loop, other) refl

  string_nonempty :
      (len c : ℕ) (cs : List ℕ)
      → All PlainByte (c ∷ cs)
      → Holds m p (b'"' ∷ c ∷ cs ++ b'"' ∷ [])
      → suc (suc (suc (length cs))) ≤ len
      → string_loop m p len 0 StringState.sw_start
        ≡ done (length cs + 3) (string (text_at m (p + 1) (p + (length cs + 2))))
  string_nonempty zero c cs h at lt = absurd (omega arith)
  string_nonempty (suc zero) c cs h at lt = absurd (omega arith)
  string_nonempty (suc (suc left)) c cs (hc, h) (hq, (hc', at)) lt =
      let first : m (p + 0) ≡ b'"' = ap m (omega arith) ∙ hq in
      let plain : m (p + 1) ≢ b'"' = ground (arith, hc, hc') in
      let moved : p + 1 + 1 ≡ p + 2 = omega arith in
      let body =
        string_body (p + 1) left 2 (length cs + 2) cs h (rw moved at at) (omega arith)
          (omega arith) in
      string_start (suc left) first
      ∙ string_first left plain
      ∙ body
      ∙ ap (λ n. done n (string (text_at m (p + 1) (p + (length cs + 2))))) (omega arith)

abbrev pub text_of : List ℕ → Text
text_of cs = record { chars = cs; len = length cs }

pub text_of-IsPlain : (cs : List ℕ) → All PlainByte cs → IsPlain (text_of cs)
text_of-IsPlain cs h = record { plain = h; whole = refl }

read_back :
    (m : Mem) (p len : ℕ) (cs : List ℕ)
    → All PlainByte cs
    → Holds m p (b'"' ∷ cs ++ b'"' ∷ [])
    → suc (suc (length cs)) ≤ len
    → string_loop m p len 0 StringState.sw_start ≡ done (length cs + 2) (string (text_of cs))
read_back m p zero [] h at room = absurd (omega arith)
read_back m p (suc zero) [] h at room = absurd (omega arith)
read_back m p (suc (suc left)) [] h (hq, (hq', at)) room =
    let first : m (p + 0) ≡ b'"' = ap m (omega arith) ∙ hq in
    string_start m p (suc left) first ∙ string_empty m p left hq'
read_back m p len (c ∷ cs) h at room =
    let inner = Holds-append m (p + 1) (c ∷ cs) (b'"' ∷ []) at.1 in
    let text =
      text_at-Holds m (p + 1) (p + (length cs + 2)) (text_of (c ∷ cs)) (text_of-IsPlain (c ∷ cs) h)
        inner.0 (omega arith) in
    string_nonempty m p len c cs h at (omega arith)
    ∙ ap (λ t. done (length cs + 3) (string t)) text
    ∙ ap (λ n. done n (string (text_of (c ∷ cs)))) (omega arith)

pub length-print_string : (t : Text) → length (print_string t) ≡ length t.chars + 2
unfolding print_string
length-print_string t = omega (arith, length-append t.chars (b'"' ∷ []))

-- A printed string is read back, and nothing behind it is touched.
pub parse_string-print_string :
    (m : Mem) (p len : ℕ) (t : Text)
    → IsPlain t
    → Holds m p (print_string t)
    → length (print_string t) ≤ len
    → parse_string m p len ≡ done (length (print_string t)) (string t)
unfolding print_string parse_string
parse_string-print_string m p len t h at room =
    let size = length-print_string t in
    read_back m p len t.chars h.plain at (omega (arith, size))
    ∙ ap (λ n. done (length t.chars + 2) (string (record { chars = t.chars; len = n })))
        (sym h.whole)
    ∙ ap (λ n. done n (string t)) (sym size)
