-- ===== src/HttpParse/HeaderLine/Parsed.antt =====
-- One header line, read in one call.
use chatease_server.Common.Memory.{Mem, slice}
use chatease_server.Common.Scan.Along.{run_one}
use chatease_server.Common.Scan.Call.{call, finish}
use chatease_server.Common.Scan.Resume.{run_stop}
use chatease_server.Common.Scan.{rc_ok, next, stop, Scanned, run}
use chatease_server.Common.{ℕ, suc, ◌+◌, ◌≤◌, ◌<◌, ◌≡◌, ◌≢◌, refl, ap, ◌∙◌, arith, Bool, false}
use chatease_server.Hash.Key.{hash_key_lc}
use chatease_server.HttpParse.HeaderLine.Name.{
  name_at, name_at-state, name_at-valid, name_at-start, name_at-hash, run_name,
}
use chatease_server.HttpParse.HeaderLine.Steady.{step-IsSteady}
use chatease_server.HttpParse.HeaderLine.Value.{IsInner, value_at, not_spaced, run_value}
use chatease_server.HttpParse.HeaderLine.{
  Request, sw_start, sw_space_before_value, sw_value, sw_almost_done, lowcase, step_in, step, leave,
  parse_header_line,
}

-- `name: value`, CR and LF at `p`: the name is the `suc n` bytes from `p`, and the value the
-- `suc k` bytes from `p + n + 3`; it does not begin or end with a space.
pub record HeaderLine (m : Mem) (p n k : ℕ) : Type 0 where
  pub letters : (i : ℕ) → i ≤ n → lowcase (m (p + i)) ≢ 0
  pub colon : m (p + 1 + n) ≡ b':'
  pub space : m (p + n + 2) ≡ b' '
  pub value_first : m (p + n + 3) ≢ b' '
  pub value_inner : (i : ℕ) → i ≤ k → IsInner (m (p + n + 3 + i))
  pub value_last : m (p + n + 3 + k) ≢ b' '
  pub cr : m (p + n + 4 + k) ≡ b'\r'
  pub lf : m (p + n + 5 + k) ≡ b'\n'

-- What the function reports of such a line.
pub record IsHeader (m : Mem) (p n k : ℕ) (out : Scanned Request) : Type 0 where
  pub rc : out.rc ≡ rc_ok
  pub last : out.last ≡ p + n + 6 + k
  pub ready : out.state.state ≡ sw_start
  pub valid : out.state.invalid_header ≡ false
  pub name_start : out.state.header_name_start ≡ p
  pub name_end : out.state.header_name_end ≡ p + 1 + n
  pub hashed : out.state.header_hash ≡ hash_key_lc (slice m p (suc n))
  pub value_start : out.state.header_start ≡ p + n + 3
  pub value_end : out.state.header_end ≡ p + n + 4 + k

module _ (m : Mem) (underscores : Bool) (p n k end : ℕ) (line : HeaderLine m p n k) (r : Request)
    (fresh : r.state ≡ sw_start) (room : p + n + 6 + k ≤ end) where
  -- Behind the name, the colon and the value.
  named : Request
  named = name_at m underscores p n end r fresh line.letters n

  at_value : Request
  at_value = record named { header_name_end = p + 1 + n; state = sw_space_before_value }

  valued : Request
  unfolding at_value
  valued =
      value_at m underscores (p + n + 3) k end at_value refl line.value_first line.value_inner k

  ended : Request
  ended = record valued { header_end = p + n + 4 + k; state = sw_almost_done }

  colon_step : step m underscores end (p + 1 + n) named ≡ next (p + 1 + n) at_value
  unfolding named at_value step_in lowcase
  colon_step = rw (name_at-state m underscores p n end r fresh line.letters n, line.colon) refl

  space_step : step m underscores end (p + n + 2) at_value ≡ next (p + n + 2) at_value
  unfolding at_value step_in
  space_step = rw line.space refl

  valued_state : valued.state ≡ sw_value
  unfolding valued
  valued_state =
      rw
        (not_spaced m underscores (p + n + 3) k end at_value refl line.value_first line.value_inner
          k line.value_last)
        refl

  cr_step : step m underscores end (p + n + 4 + k) valued ≡ next (p + n + 4 + k) ended
  unfolding ended step_in
  cr_step = rw (valued_state, line.cr) refl

  lf_step :
      step m underscores end (p + n + 5 + k) ended
      ≡ stop rc_ok (p + n + 5 + k + 1) (record ended { state = sw_start })
  unfolding ended step_in
  lf_step = rw line.lf refl

  value_run :
      run (step m underscores) end (p + n + 3) at_value
      ≡ run (step m underscores) end (p + n + 3 + 1 + k) valued
  unfolding valued
  value_run =
      run_value m underscores (p + n + 3) k end at_value refl line.value_first line.value_inner
        (omega arith)

  line_run :
      run (step m underscores) end p r
      ≡ record { rc = rc_ok; last = p + n + 5 + k + 1; state = record ended { state = sw_start } }
  unfolding named
  line_run =
      run_name m underscores p n end r fresh line.letters (omega arith)
      ∙ one (p + 1 + n) named at_value (omega arith) colon_step
      ∙ ap (λ q. run (step m underscores) end q at_value) (omega arith)
      ∙ one (p + n + 2) at_value at_value (omega arith) space_step
      ∙ ap (λ q. run (step m underscores) end q at_value) (omega arith)
      ∙ value_run
      ∙ ap (λ q. run (step m underscores) end q valued) (omega arith)
      ∙ one (p + n + 4 + k) valued ended (omega arith) cr_step
      ∙ ap (λ q. run (step m underscores) end q ended) (omega arith)
      ∙ run_stop (step m underscores) (step-IsSteady m underscores) end (p + n + 5 + k) ended rc_ok
          (p + n + 5 + k + 1) (record ended { state = sw_start }) (omega arith) lf_step
    where
      one :
          (q : ℕ) (s t : Request)
          → q < end
          → step m underscores end q s ≡ next q t
          → run (step m underscores) end q s ≡ run (step m underscores) end (q + 1) t
      one q s t h e = run_one (step m underscores) (step-IsSteady m underscores) end q s t h e

  line_call :
      parse_header_line m underscores end p r
      ≡ record { rc = rc_ok; last = p + n + 5 + k + 1; state = record ended { state = sw_start } }
  unfolding parse_header_line call finish
  line_call = ap (finish (step m underscores) leave p r) line_run

  out_IsHeader :
      IsHeader m p n k
        (record { rc = rc_ok; last = p + n + 5 + k + 1; state = record ended { state = sw_start } })
  unfolding ended valued at_value named
  out_IsHeader =
      let letters = line.letters in
      record {
        rc = refl;
        last = omega arith;
        ready = refl;
        valid = name_at-valid m underscores p n end r fresh letters n;
        name_start = name_at-start m underscores p n end r fresh letters n;
        name_end = refl;
        hashed = name_at-hash m underscores p n end r fresh letters n (omega arith);
        value_start = refl;
        value_end = refl;
      }

-- A header line whose name is of letters, digits and dashes and whose value neither begins nor
-- ends with a space is read in one call: STU_OK, the position behind the line, the ranges of
-- its name and value, the name valid, and the hash the one by which `stu_hash_key_lc` finds it.
pub parse_header_line-HeaderLine :
    (m : Mem) (underscores : Bool) (p n k end : ℕ) (r : Request)
    → HeaderLine m p n k
    → r.state ≡ sw_start
    → p + n + 6 + k ≤ end
    → IsHeader m p n k (parse_header_line m underscores end p r)
parse_header_line-HeaderLine m underscores p n k end r line fresh room =
    rw (line_call m underscores p n k end line r fresh room)
      (out_IsHeader m underscores p n k end line r fresh room)
