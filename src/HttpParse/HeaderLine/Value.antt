-- ===== src/HttpParse/HeaderLine/Value.antt =====
-- The value of a header, which may have spaces inside.
use chatease_server.Common.Memory.{Mem}
use chatease_server.Common.Scan.Along.{run_along, run_one}
use chatease_server.Common.Scan.{next, run}
use chatease_server.Common.{
  ℕ, zero, suc, ◌+◌, ◌≤◌, ◌<◌, ◌≡◌, ◌≢◌, refl, ◌∙◌, arith, Bool, Bool-cases, inl, inr, false, ◌&&◌,
  ◌==◌, not, if◌then◌else◌,
}
use chatease_server.HttpParse.HeaderLine.Steady.{step-IsSteady}
use chatease_server.HttpParse.HeaderLine.{
  Request, sw_space_before_value, sw_value, sw_space_after_value, step_in, step,
}

-- A byte that goes on with a value.
abbrev pub IsInner : ℕ → Type 0
IsInner c = (c ≢ b'\r') × (c ≢ b'\n') × (c ≢ 0)

module _ (m : Mem) (underscores : Bool) (v n end : ℕ) (r : Request)
    (before : r.state ≡ sw_space_before_value) (first : m v ≢ b' ')
    (inner : (i : ℕ) → i ≤ n → IsInner (m (v + i))) where
  -- Is the byte in front of `v + 1 + i` a space?
  abbrev pub spaced : ℕ → Bool
  spaced zero = false
  spaced (suc i) = m (v + 1 + i) == b' '

  -- `r->header_end` there: the last place where spaces began.
  abbrev pub end_at : ℕ → ℕ
  end_at zero = r.header_end
  end_at (suc i) = if spaced (suc i) && not (spaced i) then v + 1 + i else end_at i

  abbrev pub value_at : ℕ → Request
  value_at i = record r {
    header_start = v;
    header_end = end_at i;
    state = if spaced i then sw_space_after_value else sw_value;
  }

  pub not_spaced : (i : ℕ) → m (v + i) ≢ b' ' → spaced i ≡ false
  not_spaced zero h = refl
  not_spaced (suc i) h =
      let same : v + suc i ≡ v + 1 + i = omega arith in
      let plain : m (v + 1 + i) ≢ b' ' = rw same at h in ground (arith, plain)

  value_at-step :
      (i : ℕ)
      → i < n
      → step m underscores end (v + 1 + i) (value_at i) ≡ next (v + 1 + i) (value_at (suc i))
  unfolding step_in
  value_at-step i h =
      let same : v + suc i ≡ v + 1 + i = omega arith in
      let on : IsInner (m (v + 1 + i)) = rw same at (inner (suc i) h) in
      elim (Bool-cases (spaced i)) [
        | inl e ↦ rw e (ground (arith, on))
        | inr e ↦ rw e (ground (arith, on))
      ]

  value_at-start_step : step m underscores end v r ≡ next v (value_at 0)
  unfolding step_in
  value_at-start_step =
      let same : v + 0 ≡ v = omega arith in
      let on : IsInner (m v) = rw same at (inner 0 (omega arith)) in
      rw before (ground (arith, on, first))

  pub run_value :
      v + 1 + n ≤ end
      → run (step m underscores) end v r ≡ run (step m underscores) end (v + 1 + n) (value_at n)
  run_value room =
      run_one (step m underscores) (step-IsSteady m underscores) end v r (value_at 0) (omega arith)
        value_at-start_step
      ∙ run_along (step m underscores) (step-IsSteady m underscores) end (v + 1) n value_at room
          value_at-step
