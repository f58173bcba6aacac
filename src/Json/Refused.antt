-- ===== src/Json/Refused.antt =====
-- Arrays and objects with nothing between their brackets.
use chatease_server.Common.Memory.{Mem, matches}
use chatease_server.Common.{
  ℕ, zero, suc, ◌+◌, ◌-◌, ◌^◌, ◌<◌, ◌≡◌, ◌⊎◌, inl, inr, refl, sym, ap, ◌∙◌, arith, true, false,
  ◌==◌, lt→ltb, some,
}
use chatease_server.Json.Dispatch.{value_at}
use chatease_server.Json.Parse.{
  null_pointer, failed, sw_arr_start, sw_obj_start, is_blank, skip_blanks, parse_specific, after,
  wrap, parse_value, array_loop, object_loop, parse,
}
use chatease_server.Json.Print.{Doubles}
use chatease_server.Json.Steps.{skip_none, array_open, object_open}
use chatease_server.Json.Value.{Json, nil}

-- There are `k` blanks from address `p` on.
abbrev pub Blanks : Mem → ℕ → ℕ → Type 0
Blanks m p zero = Unit
Blanks m p (suc k) = (is_blank (m p) ≡ true) × Blanks m (p + 1) k

pub skip_some :
    (m : Mem) (f p k : ℕ)
    → k < f
    → Blanks m p k
    → is_blank (m (p + k)) ≡ false
    → skip_blanks m f p ≡ some (p + k)
unfolding skip_blanks
skip_some m zero p k lt h stop = absurd (omega arith)
skip_some m (suc f) p zero lt h stop =
    let here : p + 0 ≡ p = omega arith in
    let plain : is_blank (m p) ≡ false = rw here at stop in
    rw here (skip_none m (suc f) p (omega arith) plain)
skip_some m (suc f) p (suc k) lt (h, hs) stop =
    let next : p + suc k ≡ p + 1 + k = omega arith in
    let stop' : is_blank (m (p + 1 + k)) ≡ false = rw next at stop in
    rw (skip_blanks, h, next) (skip_some m f (p + 1) k (omega arith) hs stop')

module _ (doubles : Doubles) (m : Mem) where
  specific_fails : (f q : ℕ) → 0 < f → m q ≡ b']' → parse_specific m f q ≡ failed q
  unfolding parse_specific matches
  specific_fails f q lt c =
      let plain : is_blank (m q) ≡ false = ground (arith, c) in
      rw (parse_specific, skip_none m f q lt plain, c) refl

  value_fails :
      (f p k len : ℕ)
      → k < f
      → Blanks m p k
      → m (p + k) ≡ b']'
      → parse_value doubles m (suc f) p len ≡ failed (p + k)
  unfolding parse_value
  value_fails f p k len lt h c =
      let plain : is_blank (m (p + k)) ≡ false = ground (arith, c) in
      rw (parse_value, skip_some m f p k lt h plain, c, specific_fails f (p + k) (omega arith) c)
        refl

  array_fails :
      (f p k len : ℕ)
      → k < f
      → 1 < len
      → Blanks m (p + 1) k
      → m (p + 1 + k) ≡ b']'
      → array_loop doubles m (suc (suc f)) p len sw_arr_start 1 nil ≡ failed (p + 1 + k)
  unfolding array_loop
  array_fails f p k len lt room h c =
      rw (array_loop, lt→ltb 1 len room, value_fails f (p + 1) k (len - 1) lt h c) refl

  object_fails :
      (f p k len pos : ℕ)
      → k < f
      → pos + k < len
      → Blanks m (p + pos) k
      → m (p + (pos + k)) ≡ b'}'
      → object_loop doubles m f p len sw_obj_start pos nil ≡ failed (p + (pos + k))
  unfolding object_loop
  object_fails zero p k len pos lt room h c = absurd (omega arith)
  object_fails (suc f) p zero len pos lt room h c =
      let here : pos + 0 ≡ pos = omega arith in
      let c' : m (p + pos) ≡ b'}' = rw here at c in
      rw (object_loop, lt→ltb pos len (omega arith), c', here) refl
  object_fails (suc f) p (suc k) len pos lt room (h, hs) c =
      let next : pos + suc k ≡ pos + 1 + k = omega arith in
      let moved : p + pos + 1 ≡ p + (pos + 1) = omega arith in
      let quote : (m (p + pos) == b'"') ≡ false = ground (arith, h) in
      rw (object_loop, lt→ltb pos len (omega arith), quote, h, next)
        (object_fails f p k len (pos + 1) (omega arith) (omega arith) (rw moved at hs)
          (rw next at c))

  array_refused :
      (f p k len : ℕ)
      → k + 4 < f
      → k + 1 < len
      → len < 2 ^ 64
      → Blanks m (p + 1) k
      → m p ≡ b'['
      → m (p + 1 + k) ≡ b']'
      → parse_value doubles m f p len ≡ failed (p + 1 + k)
  array_refused zero p k len lt room small h front back = absurd (omega arith)
  array_refused (suc zero) p k len lt room small h front back = absurd (omega arith)
  array_refused (suc (suc zero)) p k len lt room small h front back = absurd (omega arith)
  array_refused (suc (suc (suc zero))) p k len lt room small h front back = absurd (omega arith)
  array_refused (suc (suc (suc (suc f)))) p k len lt room small h front back =
      let first : m (p + 0) ≡ b'[' = ap m (omega arith) ∙ front in
      value_at doubles m (suc (suc (suc f))) p len 0 Json.null (omega arith) small b'[' front refl
      ∙ ap (λ r. after 0 (wrap Json.array r))
          (array_open doubles m (suc (suc f)) p len 0 nil (omega arith) first
            ∙ array_fails f p k len (omega arith) (omega arith) h back)

  object_refused :
      (f p k len : ℕ)
      → k + 4 < f
      → k + 1 < len
      → len < 2 ^ 64
      → Blanks m (p + 1) k
      → m p ≡ b'{'
      → m (p + 1 + k) ≡ b'}'
      → parse_value doubles m f p len ≡ failed (p + 1 + k)
  object_refused zero p k len lt room small h front back = absurd (omega arith)
  object_refused (suc zero) p k len lt room small h front back = absurd (omega arith)
  object_refused (suc (suc f)) p k len lt room small h front back =
      let first : m (p + 0) ≡ b'{' = ap m (omega arith) ∙ front in
      let next : p + 1 + k ≡ p + (1 + k) = omega arith in
      value_at doubles m (suc f) p len 0 Json.null (omega arith) small b'{' front refl
      ∙ ap (λ r. after 0 (wrap Json.object r))
          (object_open doubles m f p len 0 nil (omega arith) first
            ∙ object_fails f p k len 1 (omega arith) (omega arith) h (rw next at back)
            ∙ ap (λ e. failed e) (sym next))

  -- A text that is a pair of brackets, square or curly, with only blanks in between is refused:
  -- what the printer writes for an empty array or object. The length covers both brackets and is
  -- below 2^64, and the fuel is more than the number of the blanks and four.
  pub parse_empty :
      (f p k len : ℕ)
      → k + 4 < f
      → k + 1 < len
      → len < 2 ^ 64
      → Blanks m (p + 1) k
      → ((m p ≡ b'[') × (m (p + 1 + k) ≡ b']')) ⊎ ((m p ≡ b'{') × (m (p + 1 + k) ≡ b'}'))
      → parse doubles m f p len ≡ null_pointer
  unfolding parse
  parse_empty f p k len lt room small h (inl (front, back)) =
      rw (parse, array_refused f p k len lt room small h front back) refl
  parse_empty f p k len lt room small h (inr (front, back)) =
      rw (parse, object_refused f p k len lt room small h front back) refl
