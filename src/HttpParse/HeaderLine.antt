-- ===== src/HttpParse/HeaderLine.antt =====
-- `stu_http_parse_header_line`.
pub mod Steady
pub mod Name
pub mod Value
pub mod Parsed
mod Tests
use chatease_server.Common.Memory.{Mem, matches}
use chatease_server.Common.Scan.Call.{call}
use chatease_server.Common.Scan.{Rc, rc_ok, rc_error, rc_done, Verdict, next, stop, Scanned}
use chatease_server.Common.{
  ℕ, ◌+◌, ◌-◌, ◌||◌, ◌&&◌, Bool, true, false, List, [], ◌∷◌, bit_and, bit_or, within, ◌==◌,
  if◌then◌else◌, set,
}
use chatease_server.Hash.Key.{hash}

pub data State : Type 0 where
  sw_start sw_name sw_space_before_value sw_value sw_space_after_value sw_ignore_line : State
  sw_almost_done sw_header_almost_done : State

-- The fields of `stu_http_request_t` that the function uses. While it runs, `header_hash` and
-- `lowcase_index` are its local copies `hash` and `i`.
pub record Request : Type 0 where
  pub state : State
  pub header_hash : ℕ
  pub lowcase_index : ℕ
  pub lowcase_header : List ℕ
  pub invalid_header : Bool
  pub header_name_start : ℕ
  pub header_name_end : ℕ
  pub header_start : ℕ
  pub header_end : ℕ

-- The table `lowcase`: 0 for a byte that may not stand in a name.
unfoldable pub lowcase : ℕ → ℕ
lowcase ch =
    if within b'A' b'Z' ch
    then ch + 32
    else if within b'a' b'z' ch || within b'0' b'9' ch || ch == b'-'
    then ch
    else 0

abbrev pub http_word : List ℕ
http_word = b'H' ∷ b'T' ∷ b'T' ∷ b'P' ∷ []

abbrev pub go : ℕ → Request → State → Verdict Request
go p r st = next p (record r { state = st })

-- The first byte of a name, `c` as it is hashed and stored.
abbrev pub first_char : ℕ → Request → Request
first_char c r = record r {
  header_hash = hash 0 c;
  lowcase_header = set r.lowcase_header 0 c;
  lowcase_index = 1;
}

-- `r->lowcase_header[i++] = c; i &= (STU_HTTP_LC_HEADER_LEN - 1)`
abbrev pub next_char : ℕ → Request → Request
next_char c r = record r {
  header_hash = hash r.header_hash c;
  lowcase_header = set r.lowcase_header r.lowcase_index c;
  lowcase_index = bit_and (r.lowcase_index + 1) 31;
}

-- `goto done` and `goto header_done`.
abbrev done : ℕ → Request → Verdict Request
done p r = stop rc_ok (p + 1) (record r { state = sw_start })

abbrev header_done : ℕ → Request → Verdict Request
header_done p r = stop rc_done (p + 1) (record r { state = sw_start })

module _ (m : Mem) (allow_underscores : Bool) where
  step_start : ℕ → Request → Verdict Request
  step_start p r =
      let ch = m p in
      let r' = record r { header_name_start = p; invalid_header = false } in
      if ch == b'\r'
      then go p (record r' { header_end = p }) sw_header_almost_done
      else if ch == b'\n'
      then header_done p (record r' { header_end = p })
      else if lowcase ch == 0
      then (if ch == b'_'
          then (if allow_underscores
              then go p (first_char ch r') sw_name
              else go p (record r' { invalid_header = true }) sw_name)
          else if ch == 0
          then stop rc_error p r'
          else go p (record r' { invalid_header = true }) sw_name)
      else go p (first_char (lowcase ch) r') sw_name

  -- A byte of a name that is in no table and is no underscore.
  step_name_end : ℕ → Request → Verdict Request
  step_name_end p r =
      let ch = m p in
      let ended = record r { header_name_end = p; header_start = p; header_end = p } in
      if ch == b':'
      then go p (record r { header_name_end = p }) sw_space_before_value
      else if ch == b'\r'
      then go p ended sw_almost_done
      else if ch == b'\n'
      then done p ended
      else if ch == b'/' && p - r.header_name_start == 4 && matches m r.header_name_start http_word
      then go p r sw_ignore_line
      else if ch == 0
      then stop rc_error p r
      else next p (record r { invalid_header = true })

  step_name : ℕ → Request → Verdict Request
  step_name p r =
      let ch = m p in
      if lowcase ch == 0
      then (if ch == b'_'
          then (if allow_underscores
              then next p (next_char ch r)
              else next p (record r { invalid_header = true }))
          else step_name_end p r)
      else next p (next_char (lowcase ch) r)

  step_space_before_value : ℕ → Request → Verdict Request
  step_space_before_value p r =
      let ch = m p in
      let empty = record r { header_start = p; header_end = p } in
      if ch == b' '
      then next p r
      else if ch == b'\r'
      then go p empty sw_almost_done
      else if ch == b'\n'
      then done p empty
      else if ch == 0
      then stop rc_error p r
      else go p (record r { header_start = p }) sw_value

  step_value : ℕ → Request → Verdict Request
  step_value p r =
      let ch = m p in
      let ended = record r { header_end = p } in
      if ch == b' '
      then go p ended sw_space_after_value
      else if ch == b'\r'
      then go p ended sw_almost_done
      else if ch == b'\n'
      then done p ended
      else if ch == 0
      then stop rc_error p r
      else next p r

  step_space_after_value : ℕ → Request → Verdict Request
  step_space_after_value p r =
      let ch = m p in
      if ch == b' '
      then next p r
      else if ch == b'\r'
      then go p r sw_almost_done
      else if ch == b'\n'
      then done p r
      else if ch == 0
      then stop rc_error p r
      else go p r sw_value

  unfoldable pub step_in : State → ℕ → Request → Verdict Request
  unfolding step_start step_name_end step_name step_space_before_value step_value
      step_space_after_value
  step_in sw_start p r = step_start p r
  step_in sw_name p r = step_name p r
  step_in sw_space_before_value p r = step_space_before_value p r
  step_in sw_value p r = step_value p r
  step_in sw_space_after_value p r = step_space_after_value p r
  step_in sw_ignore_line p r = if m p == b'\n' then go p r sw_start else next p r
  step_in sw_almost_done p r =
      if m p == b'\n' then done p r else if m p == b'\r' then next p r else stop rc_error p r
  step_in sw_header_almost_done p r = if m p == b'\n' then header_done p r else stop rc_error p r

  abbrev pub step : ℕ → ℕ → Request → Verdict Request
  step end p r = step_in r.state p r

-- On STU_ERROR `state`, `header_hash` and `lowcase_index` are not stored, and on STU_DONE the
-- last two are not.
abbrev pub leave : Rc → Request → Request → Request
leave rc_error entry r = record r {
  state = entry.state;
  header_hash = entry.header_hash;
  lowcase_index = entry.lowcase_index;
}
leave rc_done entry r = record r {
  header_hash = entry.header_hash;
  lowcase_index = entry.lowcase_index;
}
leave _ entry r = r

-- `b->last` is `p` and `b->end` is `end`.
unfoldable pub parse_header_line : Mem → Bool → ℕ → ℕ → Request → Scanned Request
parse_header_line m allow_underscores end p r = call (step m allow_underscores) leave end p r
