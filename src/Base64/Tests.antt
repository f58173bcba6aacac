-- ===== src/Base64/Tests.antt =====
-- Runs, and the theorems at inputs that meet their hypotheses.
use chatease_server.Common.{ℕ, ◌*◌, ◌≤◌, List, [], ◌∷◌, none, some, ◌≡◌, refl, arith}
use chatease_server.Base64.{encode, decode}
use chatease_server.Base64.RoundTrip.{IsBytes, decode-encode}
use chatease_server.Base64.Bounds.{decode_bounds}

abbrev greeting : List ℕ
greeting = b'h' ∷ b'e' ∷ b'l' ∷ b'l' ∷ b'o' ∷ []

encode-greeting : encode greeting ≡ b'a' ∷ b'G' ∷ b'V' ∷ b's' ∷ b'b' ∷ b'G' ∷ b'8' ∷ b'=' ∷ []
unfolding encode
encode-greeting = refl

decode_garbage : decode (b'a' ∷ b'*' ∷ []) ≡ none
unfolding decode
decode_garbage = refl

decode-encode_example : decode (encode greeting) ≡ some greeting
decode-encode_example = decode-encode greeting (omega arith)

decode_run : decode (b'T' ∷ b'W' ∷ b'F' ∷ b'u' ∷ []) ≡ some (b'M' ∷ b'a' ∷ b'n' ∷ [])
unfolding decode
decode_run = refl

decode_bounds_example : (4 * 3 ≤ 3 * 4) × IsBytes (b'M' ∷ b'a' ∷ b'n' ∷ [])
decode_bounds_example = decode_bounds (b'T' ∷ b'W' ∷ b'F' ∷ b'u' ∷ []) _ decode_run
