-- ===== src/HttpParse/RequestLine/Tests.antt =====
-- `GET /ch/chat HTTP/1.1`, whole and in pieces.
use chatease_server.Common.Memory.{Mem, Str, matches}
use chatease_server.Common.Scan.{rc_ok, rc_again, rc_undefined, run, scan}
use chatease_server.Common.Scan.Call.{Agrees, call, finish}
use chatease_server.Common.{
  ℕ, zero, suc, ◌+◌, ◌-◌, ◌<◌, ◌≡◌, ◌≢◌, inl, refl, arith, none, [], ◌∷◌, get_or,
}
use chatease_server.HttpParse.RequestLine.Cut.{parse_request_line_cut}
use chatease_server.HttpParse.RequestLine.GetLine.{GetLine}
use chatease_server.HttpParse.RequestLine.Parsed.{parse_request_line-GetLine}
use chatease_server.HttpParse.RequestLine.Steady.{parse_request_line_twice}
use chatease_server.HttpParse.RequestLine.Target.{IsTarget}
use chatease_server.HttpParse.RequestLine.{
  Request, sw_start, sw_version, step, step_in, parse_request_line, http_get, forget,
}

-- The line "GET /a HTTP/1.1" with its end.
abbrev line : Mem
line a =
    get_or
      (b'G' ∷ b'E' ∷ b'T' ∷ b' ' ∷ b'/' ∷ b'a' ∷ b' ' ∷ b'H' ∷ b'T' ∷ b'T' ∷ b'P' ∷ b'/' ∷ b'1'
        ∷ b'.' ∷ b'1' ∷ b'\r' ∷ b'\n' ∷ [])
      a 0

abbrev nowhere : Str
nowhere = record { len = 0; start = 0 }

abbrev blank : Request
blank = record {
  method = 1;
  http_version = 0;
  request_line = nowhere;
  uri = nowhere;
  target = nowhere;
  args = nowhere;
  state = sw_start;
}

plain : (i : ℕ) → i < 2 → (line (0 + 4 + i) ≢ b' ') × (line (0 + 4 + i) ≢ b'?')
plain zero h = omega arith
plain (suc zero) h = omega arith
plain (suc (suc i)) h = absurd (omega arith)

line-GetLine : GetLine line 0 2 b'1'
line-GetLine =
    unfold matches in
    record {
      word = refl;
      space = refl;
      not_empty = omega arith;
      uri_plain = plain;
      uri_end = refl;
      version = refl;
      known = inl refl;
      cr = refl;
      lf = refl;
    }

parse_request_line-GetLine_example :
    (t : ℕ) × IsTarget line 4 6 t
    × (parse_request_line line 17 0 blank ≡ record {
      rc = rc_ok;
      last = 17;
      state = record blank {
        method = http_get;
        http_version = 11;
        request_line = record { len = 15; start = 0 };
        uri = record { len = 2; start = 4 };
        target = record { len = 6 - t; start = t };
      };
    })
parse_request_line-GetLine_example =
    parse_request_line-GetLine line 0 2 b'1' 17 line-GetLine blank refl (omega arith)

cut_again : (run (step line) 5 0 blank).rc ≡ rc_again
unfolding run scan step_in
cut_again = refl

parse_request_line_twice_example :
    let first = parse_request_line line 5 0 blank in
    Agrees (parse_request_line line 17 first.last first.state) (parse_request_line line 17 0 blank)
unfolding run scan step_in
parse_request_line_twice_example =
    parse_request_line_twice line 5 17 0 blank (omega arith) cut_again tt

-- The first read ends behind "GET /a HTT".
version_again : (parse_request_line line 10 0 blank).rc ≡ rc_again
unfolding parse_request_line call finish run scan step_in
version_again = refl

version_cut : (parse_request_line line 10 0 blank).state.state ≡ sw_version none
unfolding parse_request_line call finish run scan step_in forget
version_cut = refl

version_last : (parse_request_line line 10 0 blank).last ≡ 10
unfolding parse_request_line call finish run scan step_in
version_last = refl

rest_plain : (i : ℕ) → i < 5 → line (10 + i) ≢ b'\r'
rest_plain zero h = omega arith
rest_plain (suc zero) h = omega arith
rest_plain (suc (suc zero)) h = omega arith
rest_plain (suc (suc (suc zero))) h = omega arith
rest_plain (suc (suc (suc (suc zero)))) h = omega arith
rest_plain (suc (suc (suc (suc (suc i))))) h = absurd (omega arith)

parse_request_line_cut_example :
    let first = parse_request_line line 10 0 blank in
    (parse_request_line line 17 first.last first.state).rc ≡ rc_undefined
parse_request_line_cut_example =
    parse_request_line_cut line line 10 17 0 5 blank none version_again version_cut
      (rw version_last rest_plain) (rw version_last refl) (rw version_last (omega arith))
