-- ===== src/Hash/Key.antt =====
-- `stu_hash` and the keys of stu_hash.h and stu_hash.c, and `stu_tolower` of stu_string.h.
use chatease_server.Common.Memory.{Mem, slice}
use chatease_server.Common.{
  ℕ, zero, suc, ◌+◌, ◌*◌, ◌%◌, ◌^◌, ◌≡◌, ap, ◌∙◌, arith, bit_or, List, [], ◌∷◌, within,
  if◌then◌else◌,
}

-- `(stu_uint_t) key * 31 + c` in 64 bits.
unfoldable pub hash : ℕ → ℕ → ℕ
hash key c = (key * 31 + c) % 2 ^ 64

unfoldable pub tolower : ℕ → ℕ
tolower c = if within b'A' b'Z' c then bit_or c 0x20 else c

-- The loop of `stu_hash_key` with the key so far.
unfoldable pub hash_key_from : ℕ → List ℕ → ℕ
hash_key_from key [] = key
hash_key_from key (c ∷ cs) = hash_key_from (hash key c) cs

unfoldable pub hash_key : List ℕ → ℕ
hash_key name = hash_key_from 0 name

unfoldable pub hash_key_lc_from : ℕ → List ℕ → ℕ
hash_key_lc_from key [] = key
hash_key_lc_from key (c ∷ cs) = hash_key_lc_from (hash key (tolower c)) cs

unfoldable pub hash_key_lc : List ℕ → ℕ
hash_key_lc name = hash_key_lc_from 0 name

-- The key of one more byte.
pub hash_key_lc_from-slice :
    (m : Mem) (key a n : ℕ)
    → hash_key_lc_from key (slice m a (suc n))
      ≡ hash (hash_key_lc_from key (slice m a n)) (tolower (m (a + n)))
unfolding hash_key_lc_from slice
hash_key_lc_from-slice m key a zero = ap (λ b. hash key (tolower (m b))) (omega arith)
hash_key_lc_from-slice m key a (suc n) =
    hash_key_lc_from-slice m (hash key (tolower (m a))) (a + 1) n
    ∙ ap
        (λ b.
          hash (hash_key_lc_from (hash key (tolower (m a))) (slice m (a + 1) n)) (tolower (m b)))
        (omega arith)
