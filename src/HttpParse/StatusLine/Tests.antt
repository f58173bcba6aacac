-- ===== src/HttpParse/StatusLine/Tests.antt =====
-- `HTTP/1.1 200 O`, whole and in pieces.
use chatease_server.Common.Memory.{Mem, matches}
use chatease_server.Common.Scan.{rc_ok}
use chatease_server.Common.{
  ℕ, zero, suc, ◌+◌, ◌*◌, ◌-◌, ◌<◌, ◌≡◌, ◌≢◌, inr, refl, arith, [], ◌∷◌, get_or,
}
use chatease_server.HttpParse.StatusLine.Parsed.{StatusLine, parse_status_line-StatusLine}
use chatease_server.HttpParse.StatusLine.{Request, sw_start, parse_status_line}

abbrev line : Mem
line a =
    get_or
      (b'H' ∷ b'T' ∷ b'T' ∷ b'P' ∷ b'/' ∷ b'1' ∷ b'.' ∷ b'1' ∷ b' ' ∷ b'2' ∷ b'0' ∷ b'0' ∷ b' '
        ∷ b'O' ∷ b'\r' ∷ b'\n' ∷ [])
      a 0

-- Reads three digits.
abbrev three : Mem → ℕ → ℕ
three m a = (m a - b'0') * 100 + (m (a + 1) - b'0') * 10 + (m (a + 2) - b'0')

abbrev blank : Request
blank = record { state = sw_start; http_version = 0; status = 0; status_line = 0 }

status_plain : (i : ℕ) → i < 2 → line (10 + i) ≢ b' '
status_plain zero h = omega arith
status_plain (suc zero) h = omega arith
status_plain (suc (suc i)) h = absurd (omega arith)

line-StatusLine : StatusLine line 0 0 b'1'
unfolding matches
line-StatusLine = record {
  version = refl;
  known = inr refl;
  version_end = refl;
  status_plain = status_plain;
  status_end = refl;
  reason_plain = λ i h. absurd (omega arith);
  cr = refl;
  lf = refl;
}

parse_status_line-StatusLine_example : parse_status_line three line 16 0 blank ≡ record {
  rc = rc_ok;
  last = 16;
  state = record { state = sw_start; http_version = 11; status = 200; status_line = 0 };
}
parse_status_line-StatusLine_example =
    parse_status_line-StatusLine three line 0 0 b'1' 16 line-StatusLine blank refl (omega arith)
