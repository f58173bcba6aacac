-- ===== src/Websocket/Encode/Bytes.antt =====
-- An encoded frame as a list of bytes: its header, and the payload that stood behind it.
use chatease_server.Common.Memory.{Mem, slice, Holds, slice-Holds}
use chatease_server.Common.{
  ℕ, suc, ◌+◌, ◌/◌, ◌^◌, ◌<◌, ◌≡◌, refl, arith, List, [], ◌∷◌, ◌++◌, length, bit_or, ltb,
  Bool-cases, inl, inr, true, if◌then◌else◌,
}
use chatease_server.Websocket.Encode.{u8, Encoded, encode_frame, encode_short, encode_medium}

-- The header of a final frame with a payload of fewer than 65536 bytes, without a mask.
abbrev pub header : ℕ → ℕ → List ℕ
header op size =
    if ltb size 126
    then bit_or 0x80 op ∷ u8 size ∷ []
    else bit_or 0x80 op ∷ 0x7E ∷ u8 (size / 2 ^ 8) ∷ u8 size ∷ []

pub Holds-elsewhere :
    (m m' : Mem) (a : ℕ) (cs : List ℕ)
    → ((j : ℕ) → m' (a + j) ≡ m (a + j))
    → Holds m a cs
    → Holds m' a cs
Holds-elsewhere m m' a [] same h = tt
Holds-elsewhere m m' a (c ∷ cs) same (hc, h) =
    let here : m' a ≡ m a = let at : a + 0 ≡ a = omega arith in rw at at (same 0) in
    (
      rw here hc,
      Holds-elsewhere m m' (a + 1) cs
          (λ j. let at : a + suc j ≡ a + 1 + j = omega arith in rw at at (same (suc j))) h,
    )

module _ (op : ℕ) (payload : List ℕ) (m : Mem) (at : Holds m 10 payload) where
  abbrev pub sent : Encoded → List ℕ
  sent e = slice e.mem e.start (length payload + 2 + e.extened)

  slice-encode_short :
      sent (encode_short op 8 (length payload) m) ≡ bit_or 0x80 op ∷ u8 (length payload) ∷ payload
  unfolding encode_short slice
  slice-encode_short =
      let e = encode_short op 8 (length payload) m in
      let holds = Holds-elsewhere m e.mem 10 payload (λ j. ground arith) at in
      let count : length payload + 2 + 0 ≡ suc (suc (length payload)) = omega arith in
      rw (count, slice-Holds e.mem 10 payload holds) refl

  slice-encode_medium :
      sent (encode_medium op 6 (length payload) m)
      ≡ bit_or 0x80 op ∷ 0x7E ∷ u8 (length payload / 2 ^ 8) ∷ u8 (length payload) ∷ payload
  unfolding encode_medium slice
  slice-encode_medium =
      let e = encode_medium op 6 (length payload) m in
      let holds = Holds-elsewhere m e.mem 10 payload (λ j. ground arith) at in
      let count : length payload + 2 + 2 ≡ suc (suc (suc (suc (length payload)))) = omega arith in
      rw (count, slice-Holds e.mem 10 payload holds) refl

  pub slice-encode_frame :
      length payload < 65536
      → sent (encode_frame op 0 (length payload) m) ≡ header op (length payload) ++ payload
  unfolding encode_frame
  slice-encode_frame h = elim (Bool-cases (ltb (length payload) 126)) [
    | inl short ↦ rw short slice-encode_short
    | inr long ↦
        let medium : ltb (length payload) 65536 ≡ true = ground arith in
        rw (long, medium) slice-encode_medium
  ]
