-- ===== src/HttpRequest/Lines.antt =====
-- `stu_http_process_request_headers`: the loop over the header lines of a request.
pub mod Ends
pub mod Stores
pub mod First
use chatease_server.Common.Memory.{Mem, write, slice}
use chatease_server.Common.Scan.{Rc, rc_ok, rc_again, rc_done, rc_error}
use chatease_server.Common.{
  ℕ, zero, suc, ◌+◌, ◌-◌, Bool, true, ◌==◌, Option, none, some, List, [], ◌∷◌, ◌++◌, map, take,
  if◌then◌else◌,
}
use chatease_server.Hash.Key.{tolower}
use chatease_server.HttpParse.HeaderLine.{Request, parse_header_line}
use chatease_server.HttpRequest.Handlers.{
  HeaderElt, Headers, Code, ok, again, http, Handled, Library, process,
}
use chatease_server.HttpRequest.Table.{Entry, find_header}
use chatease_server.Session.Status

-- What the loop works on: the parser's part of the request, the memory, `header_in->last`, and the
-- headers read so far.
pub record Reader : Type 0 where
  pub parser : Request
  pub mem : Mem
  pub last : ℕ
  pub headers : Headers

-- How a round ends: `next` goes round the loop, `left` returns a code, and `undefined` is what a
-- header function must not do.
pub data Outcome : Type 0 where
  next : Reader → Outcome
  left : Code → Reader → Outcome
  undefined : Outcome

-- How the loop ends; `spent` is out of fuel.
pub data Ended : Type 0 where
  left : Code → Reader → Ended
  undefined spent : Ended

-- The key and the value of the line, as ranges of the buffer.
abbrev pub key_of_line : Mem → Request → List ℕ
key_of_line m r = slice m r.header_name_start (r.header_name_end - r.header_name_start)

abbrev pub value_of_line : Mem → Request → List ℕ
value_of_line m r = slice m r.header_start (r.header_end - r.header_start)

-- The header that is stored. The zero behind the key is written before the value is read.
abbrev pub line_mem : Mem → Request → Mem
line_mem m r = write (write m r.header_name_end 0) r.header_end 0

-- The name in lower case: what the parser kept, unless the name is longer than its array.
unfoldable pub lowcase_key_of : Mem → Request → List ℕ
lowcase_key_of m r =
    let len = r.header_name_end - r.header_name_start in
    if len == r.lowcase_index then take len r.lowcase_header else map tolower (key_of_line m r)

abbrev pub header_of_line : Mem → Request → HeaderElt
header_of_line m r = record {
  key = key_of_line m r;
  value = value_of_line (write m r.header_name_end 0) r;
  lowcase_key = lowcase_key_of m r;
}

abbrev pub pushed : HeaderElt → Headers → Headers
pushed h r = record r { all = r.all ++ h ∷ [] }

module _ (library : Library) where
  -- The header function of the entry that was found, if one was.
  unfoldable pub dispatch : Option Entry → HeaderElt → Headers → Option Handled
  dispatch none h r = some (record { code = ok; headers = r })
  dispatch (some e) h r = process library e.handler e.field h r

  -- A code other than STU_OK is returned.
  unfoldable pub on_result : Code → Reader → Outcome
  on_result ok s = next s
  on_result again s = Outcome.left again s
  on_result (http status) s = Outcome.left (http status) s

  unfoldable pub after_dispatch : Reader → Option Handled → Outcome
  unfolding on_result
  after_dispatch s none = undefined
  after_dispatch s (some r) = on_result r.code (record s { headers = r.headers })

  -- The code for STU_OK.
  unfoldable pub process_line : Reader → Outcome
  unfolding after_dispatch dispatch lowcase_key_of
  process_line s =
      let h = header_of_line s.mem s.parser in
      let s' = record s { mem = line_mem s.mem s.parser } in
      if s.parser.invalid_header
      then Outcome.left (http Status.bad_request) s
      else after_dispatch s' (dispatch (find_header h.lowcase_key) h (pushed h s.headers))

  unfoldable pub on_code : Rc → Reader → Outcome
  unfolding process_line
  on_code rc_ok s = process_line s
  on_code rc_done s = Outcome.left ok s
  on_code rc_again s = Outcome.left again s
  on_code _ s = Outcome.left (http Status.bad_request) s

  abbrev pub read_line : ℕ → Reader → Reader
  read_line end s =
      let out = parse_header_line s.mem true end s.last s.parser in
      record s { parser = out.state; last = out.last }

  -- One round of the loop.
  unfoldable pub line_round : ℕ → Reader → Outcome
  unfolding on_code
  line_round end s = on_code (parse_header_line s.mem true end s.last s.parser).rc (read_line end s)

  unfoldable pub line_rounds : ℕ → ℕ → Reader → Ended
  unfolding line_round
  line_rounds zero end s = spent
  line_rounds (suc n) end s = elim (line_round end s) [
    | next s' ↦ line_rounds n end s'
    | Outcome.left code s' ↦ Ended.left code s'
    | Outcome.undefined ↦ Ended.undefined
  ]

  -- `stu_http_process_request_headers` behind the request line, with a buffer up to `end`; a line
  -- takes a byte at least.
  unfoldable pub process_request_headers : ℕ → Reader → Ended
  process_request_headers end s = line_rounds (end - s.last + 1) end s
