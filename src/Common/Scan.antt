-- ===== src/Common/Scan.antt =====
-- The loop that all the byte parsers share:
--   for (p = b->last; p < b->end; p++) switch (state) ...
-- A step sees the end of the buffer, the address of the current byte and the parser's state.
pub mod Resume
pub mod Invariant
pub mod Along
pub mod Call
use chatease_server.Common.{
  ℕ, zero, suc, ◌+◌, ◌-◌, ◌≤◌, ◌<◌, ◌≡◌, ◌≢◌, ◌⊎◌, refl, ◌∙◌, sym, ap, true, false, arith, ltb, inl,
  inr, Bool-cases,
}

-- STU_OK, STU_ERROR, STU_AGAIN, STU_DONE and STU_DECLINED of stu_core.h; `rc_undefined` is no
-- code of the source: the function read a local pointer that it had not set.
pub data Rc : Type 0 where
  rc_ok rc_error rc_again rc_done rc_declined rc_undefined : Rc

-- How one round ends: `next p s` falls out of the switch with `p` on the last byte consumed,
-- `more` is `goto again` before anything was consumed or written, and `stop` leaves the function
-- with `b->last` at `p`.
pub data Verdict (S : Type 0) : Type 0 where
  next : ℕ → S → Verdict S
  more : Verdict S
  stop : Rc → ℕ → S → Verdict S

-- What the function returns, the new `b->last`, and the state.
pub record Scanned (S : Type 0) : Type 0 where
  pub rc : Rc
  pub last : ℕ
  pub state : S

abbrev pub again : {S : Type 0} → ℕ → S → Scanned S
again p s = record { rc = rc_again; last = p; state = s }

pub Verdict-cases :
    {S : Type 0} (v : Verdict S)
    → (v ≡ more)
      ⊎ ((p : ℕ) × (s : S) × (v ≡ next p s))
      ⊎ ((rc : Rc) × (p : ℕ) × (s : S) × (v ≡ stop rc p s))
Verdict-cases (next p s) = inr (inl (p, s, refl))
Verdict-cases more = inl refl
Verdict-cases (stop rc p s) = inr (inr (rc, p, s, refl))

module _ {S : Type 0} (step : ℕ → ℕ → S → Verdict S) where
  -- `scan fuel end p s`; each round consumes a byte, so `end - p` rounds are enough.
  unfoldable pub scan : ℕ → ℕ → ℕ → S → Scanned S
  scan zero end p s = again p s
  scan (suc fuel) end p s = elim (ltb p end) [
    | false ↦ again p s
    | true ↦ elim (step end p s) [
      | next p' s' ↦ scan fuel end (p' + 1) s'
      | more ↦ again p s
      | stop rc p' s' ↦ record { rc = rc; last = p'; state = s' }
    ]
  ]

  unfoldable pub run : ℕ → ℕ → S → Scanned S
  run end p s = scan (end - p) end p s

  -- What the caller does on STU_AGAIN: it calls once more when the buffer ends at `end`.
  unfoldable pub resume : ℕ → Scanned S → Scanned S
  resume end r = elim r.rc [ rc_again ↦ run end r.last r.state | _ ↦ r ]

  -- A parser is steady if it moves ahead, if bytes that arrive later do not change what a round
  -- did, and if its only way to return STU_AGAIN is `more`.
  pub record IsSteady : Type 0 where
    pub ahead : (end p : ℕ) (s : S) (q : ℕ) (t : S) → step end p s ≡ next q t → p ≤ q
    pub stays :
        (end end' p : ℕ) (s : S)
        → p < end
        → end ≤ end'
        → (step end p s ≡ more) ⊎ (step end' p s ≡ step end p s)
    pub stop_final :
        (end p : ℕ) (s : S) (rc : Rc) (q : ℕ) (t : S) → step end p s ≡ stop rc q t → rc ≢ rc_again

  pub scan_at_end : (fuel end p : ℕ) (s : S) → end ≤ p → scan fuel end p s ≡ again p s
  unfolding scan
  scan_at_end zero end p s h = refl
  scan_at_end (suc fuel) end p s h = ground arith

  pub scan_more : (fuel end p : ℕ) (s : S) → step end p s ≡ more → scan fuel end p s ≡ again p s
  unfolding scan
  scan_more zero end p s e = refl
  scan_more (suc fuel) end p s e = ground arith

  pub scan_next :
      (fuel end p : ℕ) (s : S) (q : ℕ) (t : S)
      → p < end
      → step end p s ≡ next q t
      → scan (suc fuel) end p s ≡ scan fuel end (q + 1) t
  unfolding scan
  scan_next fuel end p s q t h e = ground arith

  pub scan_stop :
      (fuel end p : ℕ) (s : S) (rc : Rc) (q : ℕ) (t : S)
      → p < end
      → step end p s ≡ stop rc q t
      → scan (suc fuel) end p s ≡ record { rc = rc; last = q; state = t }
  unfolding scan
  scan_stop fuel end p s rc q t h e = ground arith
