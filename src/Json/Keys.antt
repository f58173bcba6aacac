-- ===== src/Json/Keys.antt =====
-- A key with its colon, as the printer writes it.
use chatease_server.Common.Memory.{Mem, Holds, Holds-append}
use chatease_server.Common.{
  ℕ, zero, suc, ◌+◌, ◌≤◌, ◌<◌, ◌≡◌, ◌≢◌, refl, sym, ap, ◌∙◌, arith, List, [], ◌∷◌, ◌++◌, length,
  All,
}
use chatease_server.Json.Parse.{sw_obj_start, sw_key, sw_key_end, sw_val, text_at, object_loop}
use chatease_server.Json.Print.{Doubles, print_string}
use chatease_server.Json.Steps.{
  object_key, object_key_empty, object_key_first, object_key_more, object_key_last, object_colon,
}
use chatease_server.Json.Strings.{
  PlainByte, IsPlain, text_of, text_of-IsPlain, text_at-Holds, length-print_string,
}
use chatease_server.Json.Value.{Text, Items, no_key}

module _ (doubles : Doubles) (m : Mem) (p len : ℕ) (xs : Items) where
  key_body :
      (f g s pos q : ℕ) (cs : List ℕ)
      → f ≡ suc (length cs) + g
      → All PlainByte cs
      → Holds m (p + pos) (cs ++ b'"' ∷ [])
      → q ≡ pos + length cs
      → q < len
      → object_loop doubles m f p len (sw_key s) pos xs
        ≡ object_loop doubles m g p len (sw_key_end (text_at m s (p + q))) (q + 1) xs
  key_body zero g s pos q cs fuel h at e lt = absurd (omega arith)
  key_body (suc f) g s pos q [] fuel h (hq, at) e lt =
      let here : q ≡ pos = omega arith in
      let same : f ≡ g = omega arith in
      rw (here, ← same) (object_key_last doubles m f p len pos xs s (omega arith) hq)
  key_body (suc f) g s pos q (c ∷ cs) fuel (hc, h) (hq, at) e lt =
      let inside : m (p + pos) ≢ b'"' = ground (arith, hq, hc) in
      let moved : p + pos + 1 ≡ p + (pos + 1) = omega arith in
      object_key_more doubles m f p len pos xs s (omega arith) inside
      ∙ key_body f g s (pos + 1) q cs (omega arith) h (rw moved at at) (omega arith) lt

  key_chars :
      (f g pos q : ℕ) (cs : List ℕ)
      → f ≡ length cs + 2 + g
      → All PlainByte cs
      → Holds m (p + pos) (b'"' ∷ cs ++ b'"' ∷ [])
      → q ≡ pos + length cs + 2
      → q ≤ len
      → object_loop doubles m f p len sw_obj_start pos xs
        ≡ object_loop doubles m g p len (sw_key_end (text_of cs)) q xs
  key_chars zero g pos q cs fuel h at e lt = absurd (omega arith)
  key_chars (suc zero) g pos q cs fuel h at e lt = absurd (omega arith)
  key_chars (suc (suc f)) g pos q [] fuel h (hq, (hq', at)) e lt =
      let next : p + pos + 1 ≡ p + (pos + 1) = omega arith in
      let here : pos + 1 + 1 ≡ q = omega arith in
      let same : f ≡ g = omega arith in
      object_key doubles m (suc f) p len pos xs (omega arith) hq
      ∙ object_key_empty doubles m f p len (pos + 1) xs (omega arith) (rw next at hq')
      ∙ ap (λ n. object_loop doubles m f p len (sw_key_end no_key) n xs) here
      ∙ ap (λ n. object_loop doubles m n p len (sw_key_end no_key) q xs) same
  key_chars (suc (suc f)) g pos q (c ∷ cs) fuel (hc, h) (hq, (hc', at)) e lt =
      let next : p + pos + 1 ≡ p + (pos + 1) = omega arith in
      let after : p + pos + 1 + 1 ≡ p + (pos + 1 + 1) = omega arith in
      let all = Holds-append m (p + pos + 1) (c ∷ cs) (b'"' ∷ []) (hc', at) in
      let first : m (p + (pos + 1)) ≢ b'"' =
        let here = rw next at hc' in ground (arith, here, hc) in
      let last : ℕ = pos + 1 + 1 + length cs in
      let text =
        text_at-Holds m (p + (pos + 1)) (p + last) (text_of (c ∷ cs))
          (text_of-IsPlain (c ∷ cs) (hc, h)) (rw next at all.0) (omega arith) in
      let here : last + 1 ≡ q = omega arith in
      object_key doubles m (suc f) p len pos xs (omega arith) hq
      ∙ object_key_first doubles m f p len (pos + 1) xs (omega arith) first
      ∙ key_body f g (p + (pos + 1)) (pos + 1 + 1) last cs (omega arith) h (rw after at at) refl
          (omega arith)
      ∙ ap (λ t. object_loop doubles m g p len (sw_key_end t) (last + 1) xs) text
      ∙ ap (λ n. object_loop doubles m g p len (sw_key_end (text_of (c ∷ cs))) n xs) here

  -- From the quote of a key to its value.
  pub read_key :
      (f g pos : ℕ) (k : Text)
      → f ≡ length k.chars + 3 + g
      → IsPlain k
      → Holds m (p + pos) (print_string k)
      → m (p + pos + length (print_string k)) ≡ b':'
      → pos + length k.chars + 3 ≤ len
      → object_loop doubles m f p len sw_obj_start pos xs
        ≡ object_loop doubles m g p len (sw_val k) (pos + length k.chars + 3) xs
  unfolding print_string
  read_key f g pos k fuel plain at sep lt =
      let size = length-print_string k in
      let q : ℕ = pos + length k.chars + 2 in
      let place : p + pos + length (print_string k) ≡ p + q = omega (arith, size) in
      let colon : m (p + q) ≡ b':' = rw place at sep in
      let whole : text_of k.chars ≡ k =
        ap (λ n. record { chars = k.chars; len = n }) (sym plain.whole) in
      let next : q + 1 ≡ pos + length k.chars + 3 = omega arith in
      key_chars f (suc g) pos q k.chars (omega arith) plain.plain at refl (omega arith)
      ∙ object_colon doubles m g p len q xs (text_of k.chars) (omega arith) colon
      ∙ ap (λ t. object_loop doubles m g p len (sw_val t) (q + 1) xs) whole
      ∙ ap (λ n. object_loop doubles m g p len (sw_val k) n xs) next
