-- ===== src/Strings/Copy.antt =====
-- `stu_strncpy` of stu_string.c, and the test for equality that `stu_strncmp` is used for.
use chatease_server.Common.{
  ℕ, zero, suc, ◌≡◌, ◌≢◌, refl, arith, Bool, true, false, ◌&&◌, ◌||◌, ◌==◌, List, [], ◌∷◌, All,
  length, if◌then◌else◌, ap₂,
}

-- The loop of `stu_strncpy` on the bytes left, and its last write.
unfoldable pub copy_loop : List ℕ → List ℕ
copy_loop [] = 0 ∷ []
copy_loop (c ∷ cs) = let rest = copy_loop cs in if c == 0 then 0 ∷ [] else c ∷ rest

-- The bytes that `stu_strncpy(dst, src, len)` writes to `dst`, of a source of `len` bytes: none
-- for an empty source.
unfoldable pub strncpy : List ℕ → List ℕ
strncpy [] = []
strncpy (c ∷ cs) = copy_loop (c ∷ cs)

-- `stu_strncmp(a, b, n) == 0`: both have the same first `n` bytes, or the same ones up to a zero.
-- Reads behind the end of what is known of `a` or `b` answer false.
unfoldable pub same_bytes : ℕ → List ℕ → List ℕ → Bool
same_bytes zero a b = true
same_bytes (suc n) (c ∷ cs) (d ∷ ds) = c == d && (c == 0 || same_bytes n cs ds)
same_bytes (suc n) a b = false

-- A text has no zero byte.
abbrev pub IsText : List ℕ → Type 0
IsText = All (λ c. c ≢ 0)

-- Memory that compares equal to two texts of one length holds the same text.
pub same_bytes_unique :
    (d name other : List ℕ)
    → IsText name
    → length name ≡ length other
    → same_bytes (length name) d name ≡ true
    → same_bytes (length name) d other ≡ true
    → name ≡ other
unfolding same_bytes
same_bytes_unique d [] [] t l h h' = refl
same_bytes_unique d [] (y ∷ ys) t l h h' = absurd (omega arith)
same_bytes_unique d (x ∷ xs) [] t l h h' = absurd (omega arith)
same_bytes_unique [] (x ∷ xs) (y ∷ ys) t l h h' = ground arith
same_bytes_unique (c ∷ cs) (x ∷ xs) (y ∷ ys) (hx, t) l h h' =
    let ih = same_bytes_unique cs xs ys t (omega arith) in
    ap₂ (λ a b. a ∷ b) (ground arith) (ih (ground arith) (ground arith))

copy_loop_same : (key : List ℕ) → same_bytes (length key) (copy_loop key) key ≡ true
unfolding same_bytes copy_loop
copy_loop_same [] = refl
copy_loop_same (c ∷ cs) = let ih = copy_loop_same cs in ground arith

-- A copy compares equal to its source.
pub strncpy_same : (key : List ℕ) → same_bytes (length key) (strncpy key) key ≡ true
unfolding strncpy same_bytes
strncpy_same [] = refl
strncpy_same (c ∷ cs) = copy_loop_same (c ∷ cs)
