-- ===== src/Strings/Find.antt =====
-- `stu_strlchr` and `stu_strrchr` of stu_string.c, on flat memory; NULL is `none`.
use chatease_server.Common.Memory.{Mem}
use chatease_server.Common.{
  ℕ, zero, suc, ◌+◌, ◌-◌, ◌≤◌, ◌<◌, ◌≡◌, ◌≢◌, arith, Option, none, some, ◌==◌, Bool-cases, inl, inr,
  if◌then◌else◌,
}

-- `left` is `last - p`.
unfoldable pub search_up : Mem → ℕ → ℕ → ℕ → Option ℕ
search_up m c zero p = none
search_up m c (suc left) p =
    let rest = search_up m c left (p + 1) in if m p == c then some p else rest

unfoldable pub strlchr : Mem → ℕ → ℕ → ℕ → Option ℕ
strlchr m p last c = search_up m c (last - p) p

-- `left` is `last - p`, with `last` going down.
unfoldable pub search_down : Mem → ℕ → ℕ → ℕ → Option ℕ
search_down m c p zero = none
search_down m c p (suc left) =
    let rest = search_down m c p left in if m (p + left) == c then some (p + left) else rest

unfoldable pub strrchr : Mem → ℕ → ℕ → ℕ → Option ℕ
strrchr m p last c = search_down m c p (last - p)

-- The byte is nowhere between `p` and `last`.
abbrev pub Absent : Mem → ℕ → ℕ → ℕ → Type 0
Absent m c p last = (a : ℕ) → p ≤ a → a < last → m a ≢ c

-- What a search from below, and one from above, promise.
abbrev pub IsFirst : Mem → ℕ → ℕ → ℕ → Option ℕ → Type 0
IsFirst m c p last none = Absent m c p last
IsFirst m c p last (some a) = (p ≤ a) × (a < last) × (m a ≡ c) × Absent m c p a

abbrev pub IsLast : Mem → ℕ → ℕ → ℕ → Option ℕ → Type 0
IsLast m c p last none = Absent m c p last
IsLast m c p last (some a) = (p ≤ a) × (a < last) × (m a ≡ c) × Absent m c (a + 1) last

-- A byte further down, or up, at which nothing stands.
IsFirst-below :
    (m : Mem) (c p last : ℕ) (o : Option ℕ)
    → m p ≢ c
    → IsFirst m c (p + 1) last o
    → IsFirst m c p last o
IsFirst-below m c p last none ne h = λ a lo hi. elim (Bool-cases (a == p)) [
  | inl here ↦ let same : a ≡ p = ground (arith, here) in rw same ne
  | inr further ↦ h a (ground (arith, lo, further)) hi
]
IsFirst-below m c p last (some b) ne (lo, hi, e, h) = (
  omega arith,
  hi,
  e,
  λ a low high. elim (Bool-cases (a == p)) [
    | inl here ↦ let same : a ≡ p = ground (arith, here) in rw same ne
    | inr further ↦ h a (ground (arith, low, further)) high
  ],
)

IsLast-above :
    (m : Mem) (c p last : ℕ) (o : Option ℕ)
    → m last ≢ c
    → IsLast m c p last o
    → IsLast m c p (suc last) o
IsLast-above m c p last none ne h = λ a lo hi. elim (Bool-cases (a == last)) [
  | inl here ↦ let same : a ≡ last = ground (arith, here) in rw same ne
  | inr lower ↦ h a lo (ground (arith, hi, lower))
]
IsLast-above m c p last (some b) ne (lo, hi, e, h) = (
  lo,
  omega arith,
  e,
  λ a low high. elim (Bool-cases (a == last)) [
    | inl here ↦ let same : a ≡ last = ground (arith, here) in rw same ne
    | inr lower ↦ h a low (ground (arith, high, lower))
  ],
)

search_up-IsFirst :
    (m : Mem) (c left p last : ℕ) → p + left ≡ last → IsFirst m c p last (search_up m c left p)
unfolding search_up
search_up-IsFirst m c zero p last e = λ a lo hi. absurd (omega arith)
search_up-IsFirst m c (suc left) p last e = elim (Bool-cases (m p == c)) [
  | inl here ↦
      rw here (omega arith, omega arith, ground (arith, here), λ a lo hi. absurd (omega arith))
  | inr on ↦ rw on (
      IsFirst-below m c p last (search_up m c left (p + 1)) (ground (arith, on))
        (search_up-IsFirst m c left (p + 1) last (omega arith)))
]

search_down-IsLast : (m : Mem) (c p left : ℕ) → IsLast m c p (p + left) (search_down m c p left)
unfolding search_down
search_down-IsLast m c p zero = λ a lo hi. absurd (omega arith)
search_down-IsLast m c p (suc left) =
    let same : p + suc left ≡ suc (p + left) = omega arith in
    elim (Bool-cases (m (p + left) == c)) [
      | inl here ↦
          rw here (omega arith, omega arith, ground (arith, here), λ a lo hi. absurd (omega arith))
      | inr on ↦
          rw (on, same)
            (IsLast-above m c p (p + left) (search_down m c p left) (ground (arith, on))
              (search_down-IsLast m c p left))
    ]

-- Between two places in order, `stu_strlchr` finds the first byte of that value and `stu_strrchr`
-- the last one, and both give NULL just when there is none.
pub find_ends :
    (m : Mem) (p last c : ℕ)
    → p ≤ last
    → IsFirst m c p last (strlchr m p last c) × IsLast m c p last (strrchr m p last c)
unfolding strlchr strrchr
find_ends m p last c h =
    let whole : p + (last - p) ≡ last = omega arith in
    let down = search_down-IsLast m c p (last - p) in
    (search_up-IsFirst m c (last - p) p last whole, rw whole at down)
