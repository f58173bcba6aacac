-- ===== src/HttpParse/HeaderLine/Tests.antt =====
-- `Host: a b`, whole and in pieces.
use chatease_server.Common.Memory.{Mem}
use chatease_server.Common.Scan.Call.{Agrees}
use chatease_server.Common.Scan.{rc_again, run, scan}
use chatease_server.Common.{
  ℕ, zero, suc, ◌+◌, ◌≤◌, ◌≡◌, ◌≢◌, refl, arith, List, [], ◌∷◌, get_or, false, ◌++◌,
}
use chatease_server.HttpParse.HeaderLine.Parsed.{HeaderLine, IsHeader, parse_header_line-HeaderLine}
use chatease_server.HttpParse.HeaderLine.Steady.{parse_header_line_twice}
use chatease_server.HttpParse.HeaderLine.Value.{IsInner}
use chatease_server.HttpParse.HeaderLine.{
  Request, sw_start, lowcase, step, step_in, parse_header_line,
}

abbrev line : Mem
line a =
    get_or (b'H' ∷ b'o' ∷ b's' ∷ b't' ∷ b':' ∷ b' ' ∷ b'a' ∷ b' ' ∷ b'b' ∷ b'\r' ∷ b'\n' ∷ []) a 0

abbrev eight : List ℕ
eight = 0 ∷ 0 ∷ 0 ∷ 0 ∷ 0 ∷ 0 ∷ 0 ∷ 0 ∷ []

abbrev blank : Request
blank = record {
  state = sw_start;
  header_hash = 0;
  lowcase_index = 0;
  lowcase_header = eight ++ eight ++ eight ++ eight;
  invalid_header = false;
  header_name_start = 0;
  header_name_end = 0;
  header_start = 0;
  header_end = 0;
}

letters : (i : ℕ) → i ≤ 3 → lowcase (line (0 + i)) ≢ 0
unfolding lowcase
letters zero h = omega arith
letters (suc zero) h = omega arith
letters (suc (suc zero)) h = omega arith
letters (suc (suc (suc zero))) h = omega arith
letters (suc (suc (suc (suc i)))) h = absurd (omega arith)

inner : (i : ℕ) → i ≤ 2 → IsInner (line (6 + i))
inner zero h = omega arith
inner (suc zero) h = omega arith
inner (suc (suc zero)) h = omega arith
inner (suc (suc (suc i))) h = absurd (omega arith)

line-HeaderLine : HeaderLine line 0 3 2
line-HeaderLine = record {
  letters = letters;
  colon = refl;
  space = refl;
  value_first = omega arith;
  value_inner = inner;
  value_last = omega arith;
  cr = refl;
  lf = refl;
}

parse_header_line-HeaderLine_example : IsHeader line 0 3 2 (parse_header_line line false 11 0 blank)
parse_header_line-HeaderLine_example =
    parse_header_line-HeaderLine line false 0 3 2 11 blank line-HeaderLine refl (omega arith)

cut_again : (run (step line false) 3 0 blank).rc ≡ rc_again
unfolding run scan step_in lowcase
cut_again = refl

parse_header_line_twice_example :
    let first = parse_header_line line false 3 0 blank in
    Agrees
      (parse_header_line line false 11 first.last first.state)
      (parse_header_line line false 11 0 blank)
parse_header_line_twice_example =
    parse_header_line_twice line false 3 11 0 blank (omega arith) cut_again
