-- ===== src/HttpParse/StatusLine/Parsed.antt =====
-- A whole status line.
use chatease_server.Common.Memory.{Mem, matches}
use chatease_server.Common.Scan.Along.{run_one, run_skip}
use chatease_server.Common.Scan.Call.{call, finish}
use chatease_server.Common.Scan.Resume.{run_stop}
use chatease_server.Common.Scan.{rc_ok, next, stop, run}
use chatease_server.Common.{
  ℕ, zero, suc, ◌+◌, ◌≤◌, ◌<◌, ◌≡◌, ◌≢◌, ◌⊎◌, inl, inr, refl, ap, ◌∙◌, arith, true, some, ◌==◌,
  if◌then◌else◌,
}
use chatease_server.HttpParse.RequestLine.GetLine.{version_other}
use chatease_server.HttpParse.RequestLine.{http_1}
use chatease_server.HttpParse.StatusLine.Steady.{step-IsSteady}
use chatease_server.HttpParse.StatusLine.{
  Request, sw_start, sw_version, sw_spaces_before_status, sw_status, sw_spaces_before_explain,
  sw_explain, sw_almost_done, step_in, step, forget, leave, parse_status_line,
}

-- `HTTP/1.` and a digit, three bytes, a reason of `n` bytes, CR and LF at `p`.
pub record StatusLine (m : Mem) (p n digit : ℕ) : Type 0 where
  pub version : matches m p (http_1 digit) ≡ true
  pub known : (digit ≡ b'0') ⊎ (digit ≡ b'1')
  pub version_end : m (p + 8) ≡ b' '
  pub status_plain : (i : ℕ) → i < 2 → m (p + 10 + i) ≢ b' '
  pub status_end : m (p + 12) ≡ b' '
  pub reason_plain : (i : ℕ) → i < n → m (p + 14 + i) ≢ b'\r'
  pub cr : m (p + 14 + n) ≡ b'\r'
  pub lf : m (p + 15 + n) ≡ b'\n'

version_inside :
    (m : Mem) (v digit i : ℕ)
    → matches m v (http_1 digit) ≡ true
    → (digit ≡ b'0') ⊎ (digit ≡ b'1')
    → i < 7
    → m (v + 1 + i) ≢ b' '
unfolding matches
version_inside m v digit zero h k lt = ground arith
version_inside m v digit (suc zero) h k lt = ground arith
version_inside m v digit (suc (suc zero)) h k lt = ground arith
version_inside m v digit (suc (suc (suc zero))) h k lt = ground arith
version_inside m v digit (suc (suc (suc (suc zero)))) h k lt = ground arith
version_inside m v digit (suc (suc (suc (suc (suc zero))))) h k lt = ground arith
version_inside m v digit (suc (suc (suc (suc (suc (suc zero)))))) h k lt = ground arith
version_inside m v digit (suc (suc (suc (suc (suc (suc (suc i))))))) h k lt = absurd (omega arith)

abbrev version_of : ℕ → ℕ
version_of digit = if digit == b'1' then 11 else 10

module _ (atol : Mem → ℕ → ℕ) (m : Mem) (p n digit end : ℕ) (line : StatusLine m p n digit)
    (r : Request) (fresh : r.state ≡ sw_start) (room : p + 16 + n ≤ end) where
  abbrev started : Request
  started = record r { status_line = p; state = sw_version (some p) }

  abbrev versioned : Request
  versioned = record r {
    status_line = p;
    http_version = version_of digit;
    state = sw_spaces_before_status;
  }

  abbrev at_status : Request
  at_status = record r {
    status_line = p;
    http_version = version_of digit;
    state = sw_status (some (p + 9));
  }

  abbrev answered : Request
  answered = record r {
    status_line = p;
    http_version = version_of digit;
    status = atol m (p + 9);
    state = sw_spaces_before_explain;
  }

  abbrev explaining : Request
  explaining = record r {
    status_line = p;
    http_version = version_of digit;
    status = atol m (p + 9);
    state = sw_explain;
  }

  abbrev ended : Request
  ended = record r {
    status_line = p;
    http_version = version_of digit;
    status = atol m (p + 9);
    state = sw_almost_done;
  }

  start_step : step atol m end p r ≡ next p started
  unfolding step_in
  start_step = rw fresh refl

  version_step : (i : ℕ) → i < 7 → step atol m end (p + 1 + i) started ≡ next (p + 1 + i) started
  unfolding step_in
  version_step i h = ground (arith, version_inside m p digit i line.version line.known h)

  version_end_step : step atol m end (p + 8) started ≡ next (p + 8) versioned
  unfolding step_in
  version_end_step = elim line.known [
    | inl old ↦
        let v : matches m p (http_1 b'0') ≡ true = rw old at line.version in
        rw (line.version_end, old, v, version_other m p v) refl
    | inr new ↦
        let v : matches m p (http_1 b'1') ≡ true = rw new at line.version in
        rw (line.version_end, new, v) refl
  ]

  before_step : step atol m end (p + 9) versioned ≡ next (p + 9) at_status
  unfolding step_in
  before_step = refl

  status_step :
      (i : ℕ) → i < 2 → step atol m end (p + 10 + i) at_status ≡ next (p + 10 + i) at_status
  unfolding step_in
  status_step i h = ground (arith, line.status_plain i h)

  status_end_step : step atol m end (p + 12) at_status ≡ next (p + 12) answered
  unfolding step_in
  status_end_step = rw line.status_end refl

  explain_step : step atol m end (p + 13) answered ≡ next (p + 13) explaining
  unfolding step_in
  explain_step = refl

  reason_step :
      (i : ℕ) → i < n → step atol m end (p + 14 + i) explaining ≡ next (p + 14 + i) explaining
  unfolding step_in
  reason_step i h = ground (arith, line.reason_plain i h)

  cr_step : step atol m end (p + 14 + n) explaining ≡ next (p + 14 + n) ended
  unfolding step_in
  cr_step = rw line.cr refl

  lf_step :
      step atol m end (p + 15 + n) ended
      ≡ stop rc_ok (p + 15 + n + 1) (record ended { state = sw_start })
  unfolding step_in
  lf_step = rw line.lf refl

  line_run :
      run (step atol m) end p r
      ≡ record { rc = rc_ok; last = p + 15 + n + 1; state = record ended { state = sw_start } }
  line_run =
      one p r started (omega arith) start_step
      ∙ many (p + 1) 7 started (omega arith) version_step
      ∙ ap (λ q. run (step atol m) end q started) (omega arith)
      ∙ one (p + 8) started versioned (omega arith) version_end_step
      ∙ ap (λ q. run (step atol m) end q versioned) (omega arith)
      ∙ one (p + 9) versioned at_status (omega arith) before_step
      ∙ ap (λ q. run (step atol m) end q at_status) (omega arith)
      ∙ many (p + 10) 2 at_status (omega arith) status_step
      ∙ ap (λ q. run (step atol m) end q at_status) (omega arith)
      ∙ one (p + 12) at_status answered (omega arith) status_end_step
      ∙ ap (λ q. run (step atol m) end q answered) (omega arith)
      ∙ one (p + 13) answered explaining (omega arith) explain_step
      ∙ ap (λ q. run (step atol m) end q explaining) (omega arith)
      ∙ many (p + 14) n explaining (omega arith) reason_step
      ∙ one (p + 14 + n) explaining ended (omega arith) cr_step
      ∙ ap (λ q. run (step atol m) end q ended) (omega arith)
      ∙ run_stop (step atol m) (step-IsSteady atol m) end (p + 15 + n) ended rc_ok (p + 15 + n + 1)
          (record ended { state = sw_start }) (omega arith) lf_step
    where
      one :
          (q : ℕ) (s t : Request)
          → q < end
          → step atol m end q s ≡ next q t
          → run (step atol m) end q s ≡ run (step atol m) end (q + 1) t
      one q s t h e = run_one (step atol m) (step-IsSteady atol m) end q s t h e

      many :
          (q k : ℕ) (s : Request)
          → q + k ≤ end
          → ((i : ℕ) → i < k → step atol m end (q + i) s ≡ next (q + i) s)
          → run (step atol m) end q s ≡ run (step atol m) end (q + k) s
      many q k s h e = run_skip (step atol m) (step-IsSteady atol m) end q k s h e

  -- A whole status line with a code of three bytes, all in the buffer, is accepted in one call:
  -- STU_OK, the position behind it, version 11 or 10, the place of the line, and the number that
  -- `atol` reads where the code stands. Nothing else is changed.
  pub parse_status_line-StatusLine : parse_status_line atol m end p r ≡ record {
    rc = rc_ok;
    last = p + 16 + n;
    state = record r {
      state = sw_start;
      status_line = p;
      http_version = if digit == b'1' then 11 else 10;
      status = atol m (p + 9);
    };
  }
  unfolding parse_status_line call finish forget
  parse_status_line-StatusLine =
      let behind : p + 15 + n + 1 ≡ p + 16 + n = omega arith in
      ap (finish (step atol m) leave p r) line_run
      ∙ ap (λ q. record { rc = rc_ok; last = q; state = record ended { state = sw_start } }) behind
