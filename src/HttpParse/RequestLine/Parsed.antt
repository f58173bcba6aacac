-- ===== src/HttpParse/RequestLine/Parsed.antt =====
-- A whole GET request line with no arguments.
use chatease_server.Common.Memory.{Mem, matches}
use chatease_server.Common.Scan.{rc_ok, next, stop, run}
use chatease_server.Common.Scan.Along.{run_along, run_skip, run_one}
use chatease_server.Common.Scan.Call.{call, finish}
use chatease_server.Common.Scan.Resume.{run_stop}
use chatease_server.Common.{
  ℕ, zero, suc, ◌+◌, ◌-◌, ◌≤◌, ◌<◌, ◌≡◌, inl, inr, refl, sym, ap, ◌∙◌, arith, ◌==◌, true, some,
  if◌then◌else◌,
}
use chatease_server.HttpParse.RequestLine.GetLine.{GetLine, version_plain, version_other}
use chatease_server.HttpParse.RequestLine.Steady.{step-IsSteady}
use chatease_server.HttpParse.RequestLine.Target.{
  slash_before, target_start, IsTarget, target_start-IsTarget,
}
use chatease_server.HttpParse.RequestLine.{
  State, forget, sw_start, sw_method, sw_spaces_before_uri, sw_uri, sw_spaces_before_ver,
  sw_version, sw_almost_done, Request, step_in, step, leave, parse_request_line, http_get, http_1,
}

abbrev version_number : ℕ → ℕ
version_number digit = if digit == b'1' then 11 else 10

module _ (m : Mem) (p n digit end : ℕ) (line : GetLine m p n digit) (r : Request)
    (fresh : r.state ≡ sw_start) (room : p + 15 + n ≤ end) where
  abbrev target : ℕ
  target = target_start m (p + 4) n

  abbrev started : Request
  started = record r {
    request_line = record { len = r.request_line.len; start = p };
    state = sw_method;
  }

  abbrev named : Request
  named = record started { method = http_get; state = sw_spaces_before_uri }

  -- Before the byte at `p + 4 + i` of the uri.
  abbrev in_uri : ℕ → Request
  in_uri i = record named {
    uri = record { len = r.uri.len; start = p + 4 };
    target = record { len = r.target.len; start = slash_before m (p + 4) i };
    state = sw_uri;
  }

  abbrev located : State → Request
  located st = record named {
    uri = record { len = n; start = p + 4 };
    target = record { len = p + 4 + n - target; start = target };
    state = st;
  }

  abbrev versioned : State → Request
  versioned st = record (located st) {
    http_version = version_number digit;
    request_line = record { len = 13 + n; start = p };
  }

  run_start : run (step m) end p r ≡ run (step m) end (p + 1) started
  run_start = run_one (step m) (step-IsSteady m) end p r started (omega arith) first
    where
      first : step m end p r ≡ next p started
      first = unfold step_in in ground (arith, fresh)

  run_word : run (step m) end (p + 1) started ≡ run (step m) end (p + 3) started
  run_word =
      run_skip (step m) (step-IsSteady m) end (p + 1) 2 started (omega arith) letter
      ∙ ap (λ q. run (step m) end q started) (omega arith)
    where
      letter : (i : ℕ) → i < 2 → step m end (p + 1 + i) started ≡ next (p + 1 + i) started
      letter zero h = unfold step_in matches in ground (arith, line.word)
      letter (suc zero) h = unfold step_in matches in ground (arith, line.word)
      letter (suc (suc i)) h = absurd (omega arith)

  run_space : run (step m) end (p + 3) started ≡ run (step m) end (p + 4) named
  run_space =
      run_one (step m) (step-IsSteady m) end (p + 3) started named (omega arith) ended
      ∙ ap (λ q. run (step m) end q named) (omega arith)
    where
      ended : step m end (p + 3) started ≡ next (p + 3) named
      ended = unfold step_in in ground (arith, line.word, line.space)

  run_first : run (step m) end (p + 4) named ≡ run (step m) end (p + 5) (in_uri 1)
  run_first =
      run_one (step m) (step-IsSteady m) end (p + 4) named (in_uri 1) (omega arith) first
      ∙ ap (λ q. run (step m) end q (in_uri 1)) (omega arith)
    where
      one : slash_before m (p + 4) 1 ≡ p + 4
      one = ground arith

      first : step m end (p + 4) named ≡ next (p + 4) (in_uri 1)
      first = rw one (unfold step_in in refl)

  step_uri-in_uri :
      (i q : ℕ) → p + 4 + i ≡ q → i < n → step m end q (in_uri i) ≡ next q (in_uri (suc i))
  unfolding step_in
  step_uri-in_uri i q e h = rw (← e) (ground (arith, line.uri_plain i))

  run_uri : run (step m) end (p + 5) (in_uri 1) ≡ run (step m) end (p + 4 + n) (in_uri n)
  run_uri =
      let positive = line.not_empty in
      let all : suc (n - 1) ≡ n = omega arith in
      let reached : p + 5 + (n - 1) ≡ p + 4 + n = omega arith in
      run_along (step m) (step-IsSteady m) end (p + 5) (n - 1) (λ i. in_uri (suc i)) (omega arith)
        (λ i lt. step_uri-in_uri (suc i) (p + 5 + i) (omega arith) (omega (arith, line.not_empty)))
      ∙ ap (λ q. run (step m) end q (in_uri (suc (n - 1)))) reached
      ∙ ap (λ k. run (step m) end (p + 4 + n) (in_uri k)) all

  run_uri_end :
      run (step m) end (p + 4 + n) (in_uri n)
      ≡ run (step m) end (p + 5 + n) (located sw_spaces_before_ver)
  run_uri_end =
      run_one (step m) (step-IsSteady m) end (p + 4 + n) (in_uri n) (located sw_spaces_before_ver)
        (omega arith) ended
      ∙ ap (λ q. run (step m) end q (located sw_spaces_before_ver)) (omega arith)
    where
      size : p + 4 + n - (p + 4) ≡ n
      size = omega arith

      ended : step m end (p + 4 + n) (in_uri n) ≡ next (p + 4 + n) (located sw_spaces_before_ver)
      ended = unfold step_in in ground (arith, line.uri_end, size)

  -- The version starts at `v`.
  abbrev v : ℕ
  v = p + 5 + n

  run_version_start :
      run (step m) end v (located sw_spaces_before_ver)
      ≡ run (step m) end (v + 1) (located (sw_version (some v)))
  run_version_start =
      run_one (step m) (step-IsSteady m) end v _ (located (sw_version (some v))) (omega arith)
        (unfold step_in in refl)

  run_version :
      run (step m) end (v + 1) (located (sw_version (some v)))
      ≡ run (step m) end (v + 8) (located (sw_version (some v)))
  run_version =
      run_skip (step m) (step-IsSteady m) end (v + 1) 7 _ (omega arith) plain
      ∙ ap (λ q. run (step m) end q (located (sw_version (some v)))) (omega arith)
    where
      plain :
          (i : ℕ)
          → i < 7
          → step m end (v + 1 + i) (located (sw_version (some v)))
            ≡ next (v + 1 + i) (located (sw_version (some v)))
      plain i lt =
          let other = version_plain m v digit i line.version line.known lt in
          unfold step_in in ground arith

  run_cr :
      run (step m) end (v + 8) (located (sw_version (some v)))
      ≡ run (step m) end (v + 9) (versioned sw_almost_done)
  run_cr =
      run_one (step m) (step-IsSteady m) end (v + 8) _ (versioned sw_almost_done) (omega arith) cr
      ∙ ap (λ q. run (step m) end q (versioned sw_almost_done)) (omega arith)
    where
      size : v + 8 - p ≡ 13 + n
      size = omega arith

      is_cr : m (v + 8) ≡ b'\r'
      is_cr = ap m (omega arith) ∙ line.cr

      cr :
          step m end (v + 8) (located (sw_version (some v)))
          ≡ next (v + 8) (versioned sw_almost_done)
      cr = elim line.known [
        | inl one ↦
            let newer : matches m v (http_1 b'1') ≡ true = rw one at line.version in
            unfold step_in in ground (arith, is_cr, size)
        | inr nought ↦
            let older : matches m v (http_1 b'0') ≡ true = rw nought at line.version in
            unfold step_in in ground (arith, is_cr, size, version_other m v older)
      ]

  run_lf :
      run (step m) end (v + 9) (versioned sw_almost_done)
      ≡ record { rc = rc_ok; last = p + 15 + n; state = versioned sw_start }
  run_lf =
      run_stop (step m) (step-IsSteady m) end (v + 9) _ _ _ (versioned sw_start) (omega arith) lf
      ∙ ap (λ q. record { rc = rc_ok; last = q; state = versioned sw_start }) (omega arith)
    where
      is_lf : m (v + 9) ≡ b'\n'
      is_lf = ap m (omega arith) ∙ line.lf

      lf :
          step m end (v + 9) (versioned sw_almost_done)
          ≡ stop rc_ok (v + 9 + 1) (versioned sw_start)
      lf = unfold step_in in ground arith

  -- A whole `GET` line with no `?`, ended by CR and LF and all in the buffer, is accepted in one
  -- call: STU_OK, the position behind it, GET, version 11 or 10, the places of the line and of the
  -- uri, and for the target the part of the uri behind its last slash. Nothing else is changed.
  pub parse_request_line-GetLine :
      (t : ℕ) × IsTarget m (p + 4) (p + 4 + n) t
      × (parse_request_line m end p r ≡ record {
        rc = rc_ok;
        last = p + 15 + n;
        state = record r {
          method = http_get;
          http_version = if digit == b'1' then 11 else 10;
          request_line = record { len = 13 + n; start = p };
          uri = record { len = n; start = p + 4 };
          target = record { len = p + 4 + n - t; start = t };
        };
      })
  parse_request_line-GetLine = (target, target_start-IsTarget m (p + 4) n line.not_empty, accepted)
    where
      whole :
          run (step m) end p r
          ≡ record { rc = rc_ok; last = p + 15 + n; state = versioned sw_start }
      whole =
          run_start ∙ run_word ∙ run_space ∙ run_first ∙ run_uri ∙ run_uri_end ∙ run_version_start
          ∙ run_version ∙ run_cr ∙ run_lf

      accepted : parse_request_line m end p r ≡ record {
        rc = rc_ok;
        last = p + 15 + n;
        state = record (versioned sw_start) { state = r.state };
      }
      accepted =
          unfold parse_request_line call finish forget in
          (ap (finish (step m) leave p r) whole
            ∙ ap
                (λ st. record {
                  rc = rc_ok;
                  last = p + 15 + n;
                  state = record (versioned sw_start) { state = st };
                })
                (sym fresh))
