-- ===== src/Common/Scan/Along.antt =====
-- A parser that goes one byte at a time through known states.
use chatease_server.Common.{ℕ, zero, suc, ◌+◌, ◌≤◌, ◌<◌, ◌≡◌, ap, ◌∙◌, arith}
use chatease_server.Common.Scan.{Verdict, next, run, IsSteady}
use chatease_server.Common.Scan.Resume.{run_next}

module _ {S : Type 0} (step : ℕ → ℕ → S → Verdict S) (steady : IsSteady step) (end : ℕ) where
  -- `at i` is the state before the byte at `p + i`.
  pub run_along :
      (p n : ℕ) (at : ℕ → S)
      → p + n ≤ end
      → ((i : ℕ) → i < n → step end (p + i) (at i) ≡ next (p + i) (at (suc i)))
      → run step end p (at 0) ≡ run step end (p + n) (at n)
  run_along p zero at h each = ap (λ q. run step end q (at 0)) (omega arith)
  run_along p (suc n) at h each =
      ap (λ q. run step end q (at 0)) (omega arith)
      ∙ run_next step steady end (p + 0) (at 0) (p + 0) (at 1) (omega arith) (each 0 (omega arith))
      ∙ ap (λ q. run step end q (at 1)) (omega arith)
      ∙ run_along (p + 1) n (λ i. at (suc i)) (omega arith)
          (λ i lt. moved i (each (suc i) (omega arith)))
      ∙ ap (λ q. run step end q (at (suc n))) (omega arith)
    where
      moved :
          (i : ℕ)
          → step end (p + suc i) (at (suc i)) ≡ next (p + suc i) (at (suc (suc i)))
          → step end (p + 1 + i) (at (suc i)) ≡ next (p + 1 + i) (at (suc (suc i)))
      moved i e = let same : p + suc i ≡ p + 1 + i = omega arith in rw same at e

  -- The state does not change.
  pub run_skip :
      (p n : ℕ) (s : S)
      → p + n ≤ end
      → ((i : ℕ) → i < n → step end (p + i) s ≡ next (p + i) s)
      → run step end p s ≡ run step end (p + n) s
  run_skip p n s h each = run_along p n (λ _. s) h each

  -- One byte.
  pub run_one :
      (p : ℕ) (s t : S)
      → p < end
      → step end p s ≡ next p t
      → run step end p s ≡ run step end (p + 1) t
  run_one p s t h e = run_next step steady end p s p t h e
