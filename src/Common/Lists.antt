-- ===== src/Common/Lists.antt =====
-- Lists measured and indexed by native numbers, and the predicate `All`.
use Prim.Native.Nat.{ℕ, zero, suc, ◌+◌, ◌<◌}
use mathlib.Core.Path.{◌≡◌, refl, ap}
use mathlib.Core.List.{List, [], ◌∷◌, ◌++◌}
use mathlib.Core.Option.{Option, none, some}
use mathlib.Core.Logic.{◌≢◌, ◌⊎◌, inl, inr}
use chatease_server.Common.Tests.{◌==◌, Bool-cases}
use native.Mathlib.Omega.{arith}

module _ {ℓ} {A : Type ℓ} where
  abbrev pub length : List A → ℕ
  length [] = 0
  length (x ∷ xs) = suc (length xs)

  abbrev pub get_elem? : List A → ℕ → Option A
  get_elem? [] i = none
  get_elem? (x ∷ xs) zero = some x
  get_elem? (x ∷ xs) (suc i) = get_elem? xs i

  abbrev pub get_or : List A → ℕ → A → A
  get_or [] i d = d
  get_or (x ∷ xs) zero d = x
  get_or (x ∷ xs) (suc i) d = get_or xs i d

  -- A write out of bounds changes nothing.
  abbrev pub set : List A → ℕ → A → List A
  set [] i v = []
  set (x ∷ xs) zero v = v ∷ xs
  set (x ∷ xs) (suc i) v = x ∷ set xs i v

  abbrev pub take : ℕ → List A → List A
  take zero xs = []
  take (suc n) [] = []
  take (suc n) (x ∷ xs) = x ∷ take n xs

  abbrev pub All {κ} : (A → Type κ) → List A → Type κ
  All P [] = Unit {κ}
  All P (x ∷ xs) = P x × All P xs

  pub All-get {κ} :
      (P : A → Type κ) (d : A) (xs : List A) (i : ℕ) → All P xs → i < length xs → P (get_or xs i d)
  All-get P d [] i h lt = absurd (omega arith)
  All-get P d (x ∷ xs) zero h lt = h.0
  All-get P d (x ∷ xs) (suc i) h lt = All-get P d xs i h.1 (omega arith)

  pub length-append : (xs ys : List A) → length (xs ++ ys) ≡ length xs + length ys
  length-append [] ys = omega arith
  length-append (x ∷ xs) ys = omega (arith, length-append xs ys)

  pub length-set : (xs : List A) (i : ℕ) (v : A) → length (set xs i v) ≡ length xs
  length-set [] i v = refl
  length-set (x ∷ xs) zero v = refl
  length-set (x ∷ xs) (suc i) v = ap suc (length-set xs i v)

-- Two lists of numbers are equal or not.
pub same_or_not : (xs ys : List ℕ) → (xs ≡ ys) ⊎ (xs ≢ ys)
same_or_not [] [] = inl refl
same_or_not [] (y ∷ ys) = inr (ground arith)
same_or_not (x ∷ xs) [] = inr (ground arith)
same_or_not (x ∷ xs) (y ∷ ys) = elim (same_or_not xs ys) [
  | inr apart ↦ inr (ground (arith, apart))
  | inl same ↦ elim (Bool-cases (x == y)) [
    | inl h ↦ let eq : x ≡ y = ground (arith, h) in inl (rw (eq, same) refl)
    | inr h ↦ inr (ground (arith, h))
  ]
]
