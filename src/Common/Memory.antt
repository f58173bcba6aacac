-- ===== src/Common/Memory.antt =====
-- Flat memory: a byte for every address. A pointer of the source is an address, and a buffer
-- is a range of addresses.
use chatease_server.Common.{
  ℕ, zero, suc, ◌+◌, ◌≡◌, refl, List, [], ◌∷◌, ◌++◌, arith, ◌==◌, ◌&&◌, Bool, true, if◌then◌else◌,
  length, get_or, ◌<◌,
}

abbrev pub Mem : Type 0
Mem = ℕ → ℕ

-- `*a = v`
abbrev pub write : Mem → ℕ → ℕ → Mem
write m a v b = if b == a then v else m b

-- The `n` bytes from address `a` on.
unfoldable pub slice : Mem → ℕ → ℕ → List ℕ
slice m a zero = []
slice m a (suc n) = m a ∷ slice m (a + 1) n

pub length-slice : (m : Mem) (a n : ℕ) → length (slice m a n) ≡ n
unfolding slice
length-slice m a zero = refl
length-slice m a (suc n) = omega (arith, length-slice m (a + 1) n)

-- `stu_str_t`: a length and a pointer.
pub record Str : Type 0 where
  pub len : ℕ
  pub start : ℕ

-- `stu_strncmp(a, lit, n) == 0` for a literal of `n` bytes, none of them zero.
unfoldable pub matches : Mem → ℕ → List ℕ → Bool
matches m a [] = true
matches m a (c ∷ cs) = m a == c && matches m (a + 1) cs

-- The bytes of a list stand from address `a` on.
abbrev pub Holds : Mem → ℕ → List ℕ → Type 0
Holds m a [] = Unit
Holds m a (c ∷ cs) = (m a ≡ c) × Holds m (a + 1) cs

pub Holds-append :
    (m : Mem) (a : ℕ) (xs ys : List ℕ)
    → Holds m a (xs ++ ys)
    → Holds m a xs × Holds m (a + length xs) ys
Holds-append m a [] ys h = let same : a + 0 ≡ a = omega arith in (tt, rw same h)
Holds-append m a (x ∷ xs) ys (hx, h) =
    let rest = Holds-append m (a + 1) xs ys h in
    let same : a + suc (length xs) ≡ a + 1 + length xs = omega arith in
    ((hx, rest.0), rw same rest.1)

pub slice-Holds : (m : Mem) (a : ℕ) (cs : List ℕ) → Holds m a cs → slice m a (length cs) ≡ cs
unfolding slice
slice-Holds m a [] h = refl
slice-Holds m a (c ∷ cs) (hc, h) = rw (hc, slice-Holds m (a + 1) cs h) refl

-- Memory that has the bytes of a list one by one holds it.
pub Holds-get :
    (m : Mem) (a : ℕ) (cs : List ℕ)
    → ((j : ℕ) → j < length cs → m (a + j) ≡ get_or cs j 0)
    → Holds m a cs
Holds-get m a [] h = tt
Holds-get m a (c ∷ cs) h =
    let here : m a ≡ c = let same : a + 0 ≡ a = omega arith in rw same at (h 0 (omega arith)) in
    (
      here,
      Holds-get m (a + 1) cs (λ j lt.
          let same : a + suc j ≡ a + 1 + j = omega arith in rw same at (h (suc j) (omega arith))),
    )
