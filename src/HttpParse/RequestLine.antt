-- ===== src/HttpParse/RequestLine.antt =====
-- `stu_http_parse_request_line`.
pub mod Steady
pub mod Target
pub mod GetLine
pub mod Cut
pub mod Parsed
mod Tests
use chatease_server.Common.Memory.{Mem, Str, matches}
use chatease_server.Common.Scan.{Rc, rc_ok, rc_error, rc_undefined, Verdict, next, stop, Scanned}
use chatease_server.Common.Scan.Call.{call}
use chatease_server.Common.{
  ℕ, ◌+◌, ◌-◌, ◌||◌, Option, none, some, List, [], ◌∷◌, ltb, ◌==◌, if◌then◌else◌,
}

-- `v` is a local variable that lives in `sw_version` only; `none` is a `v` that was never set.
pub data State : Type 0 where
  sw_start sw_method sw_spaces_before_uri sw_uri sw_args sw_spaces_before_ver : State
  sw_version : Option ℕ → State
  sw_almost_done : State

-- The fields of `stu_http_request_t` that the function uses.
pub record Request : Type 0 where
  pub method : ℕ
  pub http_version : ℕ
  pub request_line : Str
  pub uri : Str
  pub target : Str
  pub args : Str
  pub state : State

abbrev pub http_get : ℕ
http_get = 0x0002

abbrev pub http_post : ℕ
http_post = 0x0008

abbrev pub get_word : List ℕ
get_word = b'G' ∷ b'E' ∷ b'T' ∷ []

abbrev pub post_word : List ℕ
post_word = b'P' ∷ b'O' ∷ b'S' ∷ b'T' ∷ []

-- "HTTP/1." and a digit.
abbrev pub http_1 : ℕ → List ℕ
http_1 digit = b'H' ∷ b'T' ∷ b'T' ∷ b'P' ∷ b'/' ∷ b'1' ∷ b'.' ∷ digit ∷ []

abbrev pub go : ℕ → Request → State → Verdict Request
go p r st = next p (record r { state = st })

module _ (m : Mem) where
  -- `switch (p - s)` on the word read so far.
  method_of : ℕ → ℕ → ℕ → ℕ
  method_of s p old =
      if p - s == 3
      then (if matches m s get_word then http_get else old)
      else if p - s == 4
      then (if matches m s post_word then http_post else old)
      else old

  step_method : ℕ → Request → Verdict Request
  step_method p r =
      if m p == b' '
      then go p (record r { method = method_of r.request_line.start p r.method })
          sw_spaces_before_uri
      else if ltb (m p) b'A' || ltb b'Z' (m p)
      then stop rc_error p r
      else next p r

  -- The end of the uri at `p`, after a `?` or a space.
  end_uri : ℕ → Request → Request
  end_uri p r =
      let t = if m r.target.start == b'/' then r.target.start + 1 else r.target.start in
      record r {
        uri = record { len = p - r.uri.start; start = r.uri.start };
        target = record { len = p - t; start = t };
      }

  step_uri : ℕ → Request → Verdict Request
  step_uri p r =
      if m p == b'?'
      then (let r' = end_uri p r in
          go p (record r' { args = record { len = r'.args.len; start = p + 1 } }) sw_args)
      else if m p == b' '
      then go p (end_uri p r) sw_spaces_before_ver
      else if m p == b'/'
      then next p (record r { target = record { len = r.target.len; start = p } })
      else next p r

  accept_version : ℕ → Request → ℕ → Verdict Request
  accept_version p r version =
      go p
        (record r {
          http_version = version;
          request_line = record { len = p - r.request_line.start; start = r.request_line.start };
        })
        sw_almost_done

  step_version : Option ℕ → ℕ → Request → Verdict Request
  step_version none p r = if m p == b'\r' then stop rc_undefined p r else next p r
  step_version (some v) p r =
      if m p == b'\r'
      then (if matches m v (http_1 b'1')
          then accept_version p r 11
          else if matches m v (http_1 b'0')
          then accept_version p r 10
          else stop rc_error p r)
      else next p r

  unfoldable pub step_in : State → ℕ → Request → Verdict Request
  unfolding method_of step_method end_uri step_uri accept_version step_version
  step_in sw_start p r =
      go p (record r { request_line = record { len = r.request_line.len; start = p } }) sw_method
  step_in sw_method p r = step_method p r
  step_in sw_spaces_before_uri p r =
      go p
        (record r {
          uri = record { len = r.uri.len; start = p };
          target = record { len = r.target.len; start = p };
        })
        sw_uri
  step_in sw_uri p r = step_uri p r
  step_in sw_args p r =
      if m p == b' '
      then go p (record r { args = record { len = p - r.args.start; start = r.args.start } })
          sw_spaces_before_ver
      else next p r
  step_in sw_spaces_before_ver p r = go p r (sw_version (some p))
  step_in (sw_version v) p r = step_version v p r
  step_in sw_almost_done p r =
      if m p == b'\n' then stop rc_ok (p + 1) (record r { state = sw_start }) else stop rc_error p r

  abbrev pub step : ℕ → ℕ → Request → Verdict Request
  step end p r = step_in r.state p r

-- A return forgets `v`.
unfoldable pub forget : State → State
forget (sw_version v) = sw_version none
forget st = st

-- On STU_ERROR `r->state` is what it was; the other fields keep what was written.
abbrev pub leave : Rc → Request → Request → Request
leave rc_error entry r = record r { state = entry.state }
leave _ entry r = record r { state = forget r.state }

-- `b->last` is `p` and `b->end` is `end`.
unfoldable pub parse_request_line : Mem → ℕ → ℕ → Request → Scanned Request
parse_request_line m end p r = call (step m) leave end p r
