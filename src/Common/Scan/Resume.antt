-- ===== src/Common/Scan/Resume.antt =====
-- Cutting the input of a steady parser into pieces does not change what it does.
use chatease_server.Common.{
  ℕ, zero, suc, ◌+◌, ◌-◌, ◌≤◌, ◌<◌, ◌≡◌, ◌≢◌, refl, ◌∙◌, sym, ◌⊎◌, arith, inl, inr,
}
use chatease_server.Common.Scan.{
  Rc, Verdict, next, more, stop, Scanned, rc_again, Verdict-cases, scan, run, resume, IsSteady,
  scan_at_end, scan_more, scan_next, scan_stop,
}

pub le_or_lt : (a b : ℕ) → (b ≤ a) ⊎ (a < b)
le_or_lt a b = grind arith

module _ {S : Type 0} (step : ℕ → ℕ → S → Verdict S) (steady : IsSteady step) where
  -- More fuel than the bytes left makes no difference.
  scan_fuel :
      (f g end p : ℕ) (s : S)
      → end ≤ p + f
      → end ≤ p + g
      → scan step f end p s ≡ scan step g end p s
  scan_fuel zero g end p s hf hg =
      scan_at_end step zero end p s (omega arith) ∙ sym (scan_at_end step g end p s (omega arith))
  scan_fuel (suc f) zero end p s hf hg =
      scan_at_end step (suc f) end p s (omega arith)
      ∙ sym (scan_at_end step zero end p s (omega arith))
  scan_fuel (suc f) (suc g) end p s hf hg = elim (le_or_lt p end) [
    | inl done ↦ scan_at_end step (suc f) end p s done ∙ sym (scan_at_end step (suc g) end p s done)
    | inr left ↦ elim (Verdict-cases (step end p s)) [
      | inl e ↦ scan_more step (suc f) end p s e ∙ sym (scan_more step (suc g) end p s e)
      | inr (inl (q, t, e)) ↦
          let moved : p ≤ q = steady.ahead end p s q t e in
          scan_next step f end p s q t left e
          ∙ scan_fuel f g end (q + 1) t (omega arith) (omega arith)
          ∙ sym (scan_next step g end p s q t left e)
      | inr (inr (rc, q, t, e)) ↦
          scan_stop step f end p s rc q t left e ∙ sym (scan_stop step g end p s rc q t left e)
    ]
  ]

  pub run_next :
      (end p : ℕ) (s : S) (q : ℕ) (t : S)
      → p < end
      → step end p s ≡ next q t
      → run step end p s ≡ run step end (q + 1) t
  unfolding run
  run_next end p s q t left e =
      let moved : p ≤ q = steady.ahead end p s q t e in
      scan_fuel (end - p) (suc (end - p)) end p s (omega arith) (omega arith)
      ∙ scan_next step (end - p) end p s q t left e
      ∙ scan_fuel (end - p) (end - (q + 1)) end (q + 1) t (omega arith) (omega arith)

  pub run_stop :
      (end p : ℕ) (s : S) (rc : Rc) (q : ℕ) (t : S)
      → p < end
      → step end p s ≡ stop rc q t
      → run step end p s ≡ record { rc = rc; last = q; state = t }
  unfolding run
  run_stop end p s rc q t left e =
      scan_fuel (end - p) (suc (end - p)) end p s (omega arith) (omega arith)
      ∙ scan_stop step (end - p) end p s rc q t left e

  resume_final :
      (end : ℕ) (rc : Rc) (q : ℕ) (t : S)
      → rc ≢ rc_again
      → let r : Scanned S = record { rc = rc; last = q; state = t } in resume step end r ≡ r
  unfolding resume
  resume_final end rc_again q t h = absurd (h refl)
  resume_final end _ q t h = refl

  -- A round that did not stop for lack of input goes the same way when more has arrived.
  still :
      (end end' p : ℕ) (s : S) {v : Verdict S}
      → p < end
      → end ≤ end'
      → step end p s ≡ v
      → v ≢ more
      → step end' p s ≡ v
  still end end' p s left le e ne = elim (steady.stays end end' p s left le) [
    | inl waits ↦ absurd (ne (sym e ∙ waits))
    | inr same ↦ same ∙ e
  ]

  resume-scan :
      (f end end' p : ℕ) (s : S)
      → end ≤ end'
      → end ≤ p + f
      → resume step end' (scan step f end p s) ≡ run step end' p s
  unfolding resume
  resume-scan zero end end' p s le h = rw (scan_at_end step zero end p s (omega arith))
  resume-scan (suc f) end end' p s le h = elim (le_or_lt p end) [
    | inl done ↦ rw (scan_at_end step (suc f) end p s done)
    | inr left ↦ elim (Verdict-cases (step end p s)) [
      | inl e ↦ rw (scan_more step (suc f) end p s e)
      | inr (inl (q, t, e)) ↦
          let moved : p ≤ q = steady.ahead end p s q t e in
          rw (scan_next step f end p s q t left e) (
            resume-scan f end end' (q + 1) t le (omega arith)
            ∙ sym (run_next end' p s q t (omega arith) (still end end' p s left le e (λ h. cc))))
      | inr (inr (rc, q, t, e)) ↦ rw (scan_stop step f end p s rc q t left e) (
          resume_final end' rc q t (steady.stop_final end p s rc q t e)
          ∙ sym (run_stop end' p s rc q t (omega arith) (still end end' p s left le e (λ h. cc))))
    ]
  ]

  -- Parsing what has arrived and then the rest is parsing it all at once.
  pub resume-run :
      (end end' p : ℕ) (s : S)
      → end ≤ end'
      → resume step end' (run step end p s) ≡ run step end' p s
  resume-run end end' p s le = unfold run in (resume-scan (end - p) end end' p s le (omega arith))
