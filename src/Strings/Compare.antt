-- ===== src/Strings/Compare.antt =====
-- `stu_strncasecmp` of stu_string.c.
use chatease_server.Common.Memory.{Mem, slice}
use chatease_server.Common.{
  ℕ, zero, suc, ◌+◌, ◌-◌, ◌%◌, ◌^◌, ◌<◌, ◌≡◌, inl, inr, refl, arith, true, false, ◌==◌, ltb, ltb→lt,
  map, if◌then◌else◌, passes_below, passes_at, Bool-cases,
}
use chatease_server.Hash.Key.{tolower}
use chatease_server.Strings.Copy.{same_bytes}

-- The difference is one of 64-bit words. Upper case becomes lower case as in `stu_tolower`.
unfoldable pub strncasecmp : Mem → ℕ → ℕ → ℕ → ℕ
strncasecmp m s1 s2 zero = 0
strncasecmp m s1 s2 (suc n) =
    let c1 = tolower (m s1) in
    let c2 = tolower (m s2) in
    let rest = strncasecmp m (s1 + 1) (s2 + 1) n in
    if c1 == c2 then (if c1 == 0 then 0 else rest) else (c1 + 2 ^ 64 - c2) % 2 ^ 64

lower_run : passes_below (λ c. ltb (tolower c) 256) 256 ≡ true
unfolding passes_below tolower
lower_run = refl

tolower_byte : (c : ℕ) → c < 256 → tolower c < 256
tolower_byte c h = ltb→lt (tolower c) 256 (passes_at (λ i. ltb (tolower i) 256) 256 c lower_run h)

-- In memory of bytes, the comparison that ignores case gives zero just when a comparison of the
-- two texts in lower case finds no difference.
pub strncasecmp-same_bytes :
    (m : Mem) (s1 s2 n : ℕ)
    → ((a : ℕ) → m a < 256)
    → (strncasecmp m s1 s2 n == 0)
      ≡ same_bytes n (map tolower (slice m s1 n)) (map tolower (slice m s2 n))
unfolding strncasecmp same_bytes slice
strncasecmp-same_bytes m s1 s2 zero bytes = refl
strncasecmp-same_bytes m s1 s2 (suc n) bytes =
    let ih = strncasecmp-same_bytes m (s1 + 1) (s2 + 1) n bytes in
    let b1 = tolower_byte (m s1) (bytes s1) in
    let b2 = tolower_byte (m s2) (bytes s2) in
    elim (Bool-cases (tolower (m s1) == tolower (m s2))) [
      | inl same ↦ elim (Bool-cases (tolower (m s1) == 0)) [
        | inl last ↦ rw (same, last) refl
        | inr more ↦ rw (same, more) ih
      ]
      | inr apart ↦
          let differ : ((tolower (m s1) + 2 ^ 64 - tolower (m s2)) % 2 ^ 64 == 0) ≡ false =
            ground (arith, apart, b1, b2) in
          rw (apart, differ) refl
    ]
