-- ===== src/Base64/Bounds.antt =====
-- How much decoding writes, and what.
use chatease_server.Common.{
  ℕ, ◌*◌, ◌≤◌, List, [], ◌∷◌, some, inl, inr, ◌≡◌, ap, arith, length, Option-cases,
}
use chatease_server.Base64.{decode_basis, decode_scan, decode_loop, decode_internal, decode}
use chatease_server.Base64.RoundTrip.{IsBytes}

length-decode_scan :
    (src s : List ℕ) → decode_scan decode_basis src ≡ some s → length s ≤ length src
unfolding decode_scan
length-decode_scan [] s e = ground arith
length-decode_scan (c ∷ cs) s e = elim (Option-cases (decode_scan decode_basis cs)) [
  | inl n ↦ ground arith
  | inr (t, n) ↦ ground (arith, length-decode_scan cs t n)
]

length-decode_loop : (s : List ℕ) → 4 * length (decode_loop decode_basis s) ≤ 3 * length s
unfolding decode_loop
length-decode_loop (s0 ∷ s1 ∷ s2 ∷ s3 ∷ s) = omega (arith, length-decode_loop s)
length-decode_loop (s0 ∷ s1 ∷ s2 ∷ []) = omega arith
length-decode_loop (s0 ∷ s1 ∷ []) = omega arith
length-decode_loop (s0 ∷ []) = omega arith
length-decode_loop [] = omega arith

decode_loop-IsBytes : (s : List ℕ) → IsBytes (decode_loop decode_basis s)
unfolding decode_loop
decode_loop-IsBytes (s0 ∷ s1 ∷ s2 ∷ s3 ∷ s) =
    (omega arith, (omega arith, (omega arith, decode_loop-IsBytes s)))
decode_loop-IsBytes (s0 ∷ s1 ∷ s2 ∷ []) = omega arith
decode_loop-IsBytes (s0 ∷ s1 ∷ []) = omega arith
decode_loop-IsBytes (s0 ∷ []) = tt
decode_loop-IsBytes [] = tt

-- A successful decoding writes bytes, and at most three for every four bytes of the source.
pub decode_bounds :
    (src out : List ℕ) → decode src ≡ some out → (4 * length out ≤ 3 * length src) × IsBytes out
unfolding decode decode_internal
decode_bounds src out e = elim (Option-cases (decode_scan decode_basis src)) [
  | inl n ↦ absurd (ground arith)
  | inr (s, n) ↦
      let same : decode_loop decode_basis s ≡ out = ground arith in
      (
        omega (arith, length-decode_loop s, length-decode_scan src s n, ap length same),
        rw same at (decode_loop-IsBytes s),
      )
]
