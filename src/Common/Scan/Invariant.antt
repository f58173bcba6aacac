-- ===== src/Common/Scan/Invariant.antt =====
-- What every round keeps holds when the loop is left.
use chatease_server.Common.{ℕ, zero, suc, ◌+◌, ◌-◌, inl, inr}
use chatease_server.Common.Scan.Resume.{le_or_lt}
use chatease_server.Common.Scan.{
  Verdict, next, more, stop, scan, run, Verdict-cases, scan_at_end, scan_more, scan_next, scan_stop,
}

-- A verdict keeps `P` if the state that it hands on satisfies it.
abbrev pub Keeps {ℓ} : {S : Type 0} → (S → Type ℓ) → Verdict S → Type ℓ
Keeps P (next q t) = P t
Keeps P more = Unit
Keeps P (stop rc q t) = P t

module _ {ℓ} {S : Type 0} (step : ℕ → ℕ → S → Verdict S) (P : S → Type ℓ)
    (kept : (end p : ℕ) (s : S) → P s → Keeps P (step end p s)) where
  scan_inv : (fuel end p : ℕ) (s : S) → P s → P (scan step fuel end p s).state
  scan_inv zero end p s h = unfold scan in h
  scan_inv (suc fuel) end p s h = elim (le_or_lt p end) [
    | inl done ↦ rw (scan_at_end step (suc fuel) end p s done) h
    | inr left ↦ elim (Verdict-cases (step end p s)) [
      | inl e ↦ rw (scan_more step (suc fuel) end p s e) h
      | inr (inl (q, t, e)) ↦
          rw (scan_next step fuel end p s q t left e)
            (scan_inv fuel end (q + 1) t (rw e at (kept end p s h)))
      | inr (inr (rc, q, t, e)) ↦
          rw (scan_stop step fuel end p s rc q t left e) (rw e at (kept end p s h))
    ]
  ]

  pub run_inv : (end p : ℕ) (s : S) → P s → P (run step end p s).state
  unfolding run
  run_inv end p s h = scan_inv (end - p) end p s h
