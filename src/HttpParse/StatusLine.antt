-- ===== src/HttpParse/StatusLine.antt =====
-- `stu_http_parse_status_line`, with which the answers of upstream servers begin.
pub mod Steady
pub mod Parsed
mod Tests
use chatease_server.Common.Memory.{Mem, matches}
use chatease_server.Common.Scan.{Rc, rc_ok, rc_error, rc_undefined, Verdict, next, stop, Scanned}
use chatease_server.Common.Scan.Call.{call}
use chatease_server.Common.{ℕ, ◌+◌, ◌-◌, Option, none, some, leb, ◌==◌, if◌then◌else◌}
use chatease_server.HttpParse.RequestLine.{http_1}

-- The local variables `v` and `s` live in `sw_version` and `sw_status` only; `none` is one that
-- was never set.
pub data State : Type 0 where
  sw_start : State
  sw_version : Option ℕ → State
  sw_spaces_before_status : State
  sw_status : Option ℕ → State
  sw_spaces_before_explain sw_explain sw_almost_done : State

-- The fields of `stu_http_request_t` that the function uses.
pub record Request : Type 0 where
  pub state : State
  pub http_version : ℕ
  pub status : ℕ
  pub status_line : ℕ

abbrev pub go : ℕ → Request → State → Verdict Request
go p r st = next p (record r { state = st })

-- `atol m s` is what the function of the C library reads at `s`.
module _ (atol : Mem → ℕ → ℕ) (m : Mem) where
  step_version : Option ℕ → ℕ → Request → Verdict Request
  step_version none p r = if m p == b' ' then stop rc_undefined p r else next p r
  step_version (some v) p r =
      if m p == b' '
      then (if matches m v (http_1 b'1')
          then go p (record r { http_version = 11 }) sw_spaces_before_status
          else if matches m v (http_1 b'0')
          then go p (record r { http_version = 10 }) sw_spaces_before_status
          else stop rc_error p r)
      else next p r

  step_status : Option ℕ → ℕ → Request → Verdict Request
  step_status none p r = stop rc_undefined p r
  step_status (some s) p r =
      if m p == b' '
      then go p (record r { status = atol m s }) sw_spaces_before_explain
      else if leb 3 (p - s)
      then stop rc_error p r
      else next p r

  unfoldable pub step_in : State → ℕ → Request → Verdict Request
  unfolding step_version step_status
  step_in sw_start p r = go p (record r { status_line = p }) (sw_version (some p))
  step_in (sw_version v) p r = step_version v p r
  step_in sw_spaces_before_status p r = go p r (sw_status (some p))
  step_in (sw_status s) p r = step_status s p r
  step_in sw_spaces_before_explain p r = go p r sw_explain
  step_in sw_explain p r = if m p == b'\r' then go p r sw_almost_done else next p r
  step_in sw_almost_done p r =
      if m p == b'\n' then stop rc_ok (p + 1) (record r { state = sw_start }) else stop rc_error p r

  abbrev pub step : ℕ → ℕ → Request → Verdict Request
  step end p r = step_in r.state p r

-- A return forgets `v` and `s`.
unfoldable pub forget : State → State
forget (sw_version v) = sw_version none
forget (sw_status s) = sw_status none
forget st = st

-- On STU_ERROR `r->state` is what it was; the other fields keep what was written.
abbrev pub leave : Rc → Request → Request → Request
leave rc_error entry r = record r { state = entry.state }
leave _ entry r = record r { state = forget r.state }

-- `b->last` is `p` and `b->end` is `end`.
unfoldable pub parse_status_line : (Mem → ℕ → ℕ) → Mem → ℕ → ℕ → Request → Scanned Request
parse_status_line atol m end p r = call (step atol m) leave end p r
