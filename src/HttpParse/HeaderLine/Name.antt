-- ===== src/HttpParse/HeaderLine/Name.antt =====
-- The name of a header: what one pass over it hashes.
use chatease_server.Common.Memory.{Mem, slice}
use chatease_server.Common.Scan.{next, run}
use chatease_server.Common.Scan.Along.{run_along, run_one}
use chatease_server.Common.{
  ℕ, zero, suc, ◌+◌, ◌≤◌, ◌<◌, ◌≡◌, ◌≢◌, refl, ap, sym, ◌∙◌, arith, Bool, true, false, ◌||◌, ◌==◌,
  passes_below, passes_at,
}
use chatease_server.Hash.Key.{hash, tolower, hash_key_lc, hash_key_lc_from, hash_key_lc_from-slice}
use chatease_server.HttpParse.HeaderLine.{
  Request, sw_start, sw_name, step_in, step, lowcase, first_char, next_char,
}
use chatease_server.HttpParse.HeaderLine.Steady.{step-IsSteady}

lowcase_table : passes_below (λ c. lowcase c == 0 || lowcase c == tolower c) 128 ≡ true
unfolding passes_below lowcase tolower
lowcase_table = refl

lowcase_high : (c : ℕ) → 128 ≤ c → lowcase c ≡ 0
unfolding lowcase
lowcase_high c h = ground arith

-- On the bytes of names the parser's table and `stu_tolower` are one function.
pub lowcase-tolower : (c : ℕ) → lowcase c ≢ 0 → lowcase c ≡ tolower c
lowcase-tolower c ne = ground (arith, passes_at _ 128 c lowcase_table, lowcase_high c)

-- A name byte is none of the bytes that end a name.
pub name_byte : (c : ℕ) → lowcase c ≢ 0 → (c ≢ b'\r') × (c ≢ b'\n')
unfolding lowcase
name_byte c ne = ground arith

first_key : (m : Mem) (p : ℕ) → hash_key_lc (slice m p 1) ≡ hash 0 (tolower (m p))
unfolding hash_key_lc hash_key_lc_from slice
first_key m p = refl

name_step :
    (m : Mem) (underscores : Bool) (q : ℕ) (r : Request)
    → lowcase (m q) ≢ 0
    → r.state ≡ sw_name
    → step_in m underscores r.state q r ≡ next q (next_char (lowcase (m q)) r)
unfolding step_in
name_step m underscores q r known e = rw e (ground (arith, known))

module _ (m : Mem) (underscores : Bool) (p n end : ℕ) (r : Request) (fresh : r.state ≡ sw_start)
    (letters : (i : ℕ) → i ≤ n → lowcase (m (p + i)) ≢ 0) where
  -- The request before the byte at `p + 1 + i`.
  pub name_at : ℕ → Request
  name_at zero =
      first_char (lowcase (m p))
        (record r { header_name_start = p; invalid_header = false; state = sw_name })
  name_at (suc i) = next_char (lowcase (m (p + 1 + i))) (name_at i)

  pub name_at-state : (i : ℕ) → (name_at i).state ≡ sw_name
  unfolding name_at
  name_at-state zero = refl
  name_at-state (suc i) = name_at-state i

  pub name_at-valid : (i : ℕ) → (name_at i).invalid_header ≡ false
  unfolding name_at
  name_at-valid zero = refl
  name_at-valid (suc i) = name_at-valid i

  pub name_at-start : (i : ℕ) → (name_at i).header_name_start ≡ p
  unfolding name_at
  name_at-start zero = refl
  name_at-start (suc i) = name_at-start i

  pub name_at-hash : (i : ℕ) → i ≤ n → (name_at i).header_hash ≡ hash_key_lc (slice m p (suc i))
  unfolding name_at hash_key_lc
  name_at-hash zero h =
      let l = letters 0 h in
      let same : p + 0 ≡ p = omega arith in
      let known : lowcase (m p) ≢ 0 = rw same at l in
      ap (hash 0) (lowcase-tolower (m p) known) ∙ sym (first_key m p)
  name_at-hash (suc i) h =
      let same : p + suc i ≡ p + 1 + i = omega arith in
      let known : lowcase (m (p + 1 + i)) ≢ 0 = rw same at (letters (suc i) h) in
      let grown = hash_key_lc_from-slice m 0 p (suc i) in
      rw (name_at-hash i (omega arith), lowcase-tolower _ known) (sym (rw same at grown))

  name_at-step :
      (i : ℕ)
      → i < n
      → step m underscores end (p + 1 + i) (name_at i) ≡ next (p + 1 + i) (name_at (suc i))
  unfolding name_at
  name_at-step i h =
      let same : p + suc i ≡ p + 1 + i = omega arith in
      let known : lowcase (m (p + 1 + i)) ≢ 0 = rw same at (letters (suc i) h) in
      name_step m underscores (p + 1 + i) (name_at i) known (name_at-state i)

  name_at-start_step : step m underscores end p r ≡ next p (name_at 0)
  unfolding name_at step_in
  name_at-start_step =
      let same : p + 0 ≡ p = omega arith in
      let known : lowcase (m p) ≢ 0 = rw same at (letters 0 (omega arith)) in
      let other = name_byte (m p) known in rw fresh (ground (arith, known, other))

  pub run_name :
      p + 1 + n ≤ end
      → run (step m underscores) end p r ≡ run (step m underscores) end (p + 1 + n) (name_at n)
  run_name room =
      run_one (step m underscores) (step-IsSteady m underscores) end p r (name_at 0) (omega arith)
        name_at-start_step
      ∙ run_along (step m underscores) (step-IsSteady m underscores) end (p + 1) n name_at room
          name_at-step
