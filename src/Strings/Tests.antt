-- ===== src/Strings/Tests.antt =====
-- The bytes 1, 2, 1.
use chatease_server.Common.Memory.{Mem}
use chatease_server.Common.{ℕ, ◌≡◌, refl, arith, inl, inr, false, List, [], ◌∷◌, get_or}
use chatease_server.Strings.Escaped.{Escapes, nothing, plain, space, quoted, unescape_uri-Escapes}
use chatease_server.Strings.Unescape.{Kind, unescape_uri}

abbrev bytes : Mem
bytes a = get_or (1 ∷ 2 ∷ 1 ∷ []) a 0

-- The escaped form `a%2f+` of `a/ `.
abbrev escaped : List ℕ
escaped = b'a' ∷ b'%' ∷ b'2' ∷ b'f' ∷ b'+' ∷ []

abbrev no_flags : Kind
no_flags = record { uri = false; redirect = false }

escaped-Escapes : Escapes (b'a' ∷ b'/' ∷ b' ' ∷ []) escaped
escaped-Escapes =
    plain (ground arith) (ground arith)
      (quoted b'2' b'f' 2 15 (inl (refl, refl)) (inr (inr (refl, refl))) (space nothing))

unescape_uri-Escapes_example :
    unescape_uri no_flags escaped ≡ record { written = b'a' ∷ b'/' ∷ b' ' ∷ []; left = [] }
unescape_uri-Escapes_example =
    unescape_uri-Escapes no_flags refl refl (b'a' ∷ b'/' ∷ b' ' ∷ []) escaped escaped-Escapes
