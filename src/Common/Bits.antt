-- ===== src/Common/Bits.antt =====
-- `&` with a low mask and `|` of disjoint fields as arithmetic, at every width, from the digit
-- recursion that the native operations stand for; and `^` on bytes, from a table.
use Prim.Native.Nat.{max, min, digits, bit_or-bitwise, bit_and-bitwise}
use native.Mathlib.Nat.{pow-suc, one-le-pow, le_refl}
use chatease_server.Common.{
  ℕ, zero, suc, ◌+◌, ◌-◌, ◌*◌, ◌/◌, ◌%◌, ◌^◌, ◌≤◌, ◌<◌, bit_and, bit_or, bit_xor, ◌≡◌, refl, ap,
  ◌∙◌, arith, true, ◌==◌, ==_iff, passes_below, passes_at,
}

abbrev or_digits : ℕ → ℕ → ℕ → ℕ
or_digits = digits (λ b. b) max

abbrev and_digits : ℕ → ℕ → ℕ → ℕ
and_digits = digits (λ b. zero) min

double-pow : (q k : ℕ) → q * 2 ^ suc k ≡ 2 * (q * 2 ^ k)
double-pow q k = omega (arith, ap (λ (t : ℕ). q * t) (pow-suc 2 k))

or_digits-zero : (n a : ℕ) → a ≤ n → or_digits n a 0 ≡ a
or_digits-zero zero zero h = refl
or_digits-zero zero (suc a) h = absurd (omega arith)
or_digits-zero (suc n) zero h = refl
or_digits-zero (suc n) (suc a) h = omega (arith, or_digits-zero n (suc a / 2) (omega arith))

or_digits-fields : (k n a q r : ℕ) → a ≤ n → a ≡ q * 2 ^ k → r < 2 ^ k → or_digits n a r ≡ a + r
or_digits-fields k zero zero q r le e lt = omega arith
or_digits-fields k zero (suc a) q r le e lt = absurd (omega arith)
or_digits-fields k (suc n) zero q r le e lt = omega arith
or_digits-fields zero (suc n) (suc a) q zero le e lt =
    or_digits-zero (suc n) (suc a) le ∙ omega arith
or_digits-fields zero (suc n) (suc a) q (suc r) le e lt = absurd (omega arith)
or_digits-fields (suc k) (suc n) (suc a) q r le e lt = omega (
  arith,
  or_digits-fields k n (suc a / 2) q (r / 2) (omega arith) (omega (arith, double-pow q k))
      (omega (arith, pow-suc 2 k)),
  double-pow q k,
)

-- `(q << k) | r` is a sum where `r` fits in `k` bits.
pub bit_or_fields : (k q r : ℕ) → r < 2 ^ k → bit_or (q * 2 ^ k) r ≡ q * 2 ^ k + r
bit_or_fields k q r h =
    bit_or-bitwise (q * 2 ^ k) r ∙ or_digits-fields k (q * 2 ^ k) (q * 2 ^ k) q r (le_refl _) refl h

and_digits-zero : (n a : ℕ) → a ≤ n → and_digits n a 0 ≡ 0
and_digits-zero zero zero h = refl
and_digits-zero zero (suc a) h = absurd (omega arith)
and_digits-zero (suc n) zero h = refl
and_digits-zero (suc n) (suc a) h = omega (arith, and_digits-zero n (suc a / 2) (omega arith))

and_digits-mask :
    (k n a q r m : ℕ) → a ≤ n → a ≡ q * 2 ^ k + r → r < 2 ^ k → m + 1 ≡ 2 ^ k → and_digits n a m ≡ r
and_digits-mask k zero zero q r m le e lt em = omega arith
and_digits-mask k zero (suc a) q r m le e lt em = absurd (omega arith)
and_digits-mask k (suc n) zero q r m le e lt em = omega arith
and_digits-mask zero (suc n) (suc a) q r zero le e lt em =
    and_digits-zero (suc n) (suc a) le ∙ omega arith
and_digits-mask zero (suc n) (suc a) q r (suc m) le e lt em = absurd (omega arith)
and_digits-mask (suc k) (suc n) (suc a) q r m le e lt em = omega (
  arith,
  and_digits-mask k n (suc a / 2) q (r / 2) (m / 2) (omega arith)
      (omega (arith, double-pow q k, pow-suc 2 k)) (omega (arith, pow-suc 2 k))
      (omega (arith, pow-suc 2 k)),
  double-pow q k,
  pow-suc 2 k,
)

-- A mask of `k` low bits is the remainder by `2 ^ k`.
pub bit_and_mask : (k a : ℕ) → bit_and a (2 ^ k - 1) ≡ a % 2 ^ k
bit_and_mask k a =
    bit_and-bitwise a (2 ^ k - 1)
    ∙ ground (arith, one-le-pow k 2, and_digits-mask k a a (a / 2 ^ k) (a % 2 ^ k) (2 ^ k - 1))

xor_table : passes_below (λ k. passes_below (λ x. bit_xor (bit_xor x k) k == x) 256) 256 ≡ true
unfolding passes_below
xor_table = refl

-- Masking a byte twice with the same key byte gives it back.
pub bit_xor_twice : (x k : ℕ) → x < 256 → k < 256 → bit_xor (bit_xor x k) k ≡ x
bit_xor_twice x k hx hk = (==_iff _ x).0 (passes_at _ 256 x (passes_at _ 256 k xor_table hk) hx)
