-- ===== src/HttpParse/RequestLine/Cut.antt =====
-- A request line that is cut inside the version.
use chatease_server.Common.Memory.{Mem}
use chatease_server.Common.Scan.{rc_again, rc_undefined, next, stop, run}
use chatease_server.Common.Scan.Along.{run_skip}
use chatease_server.Common.Scan.Call.{call, finish}
use chatease_server.Common.Scan.Resume.{run_stop}
use chatease_server.Common.{ℕ, ◌+◌, ◌<◌, ◌≡◌, ◌≢◌, ◌∙◌, sym, refl, arith, Option, none}
use chatease_server.HttpParse.RequestLine.Steady.{step-IsSteady}
use chatease_server.HttpParse.RequestLine.{
  State, sw_version, Request, step, step_in, forget, leave, parse_request_line,
}

-- A call that is entered inside the version and that meets the end of the line compares through
-- the local pointer `v`, which it never set.
entered_in_version :
    (m : Mem) (end p n : ℕ) (r : Request)
    → r.state ≡ sw_version none
    → ((i : ℕ) → i < n → m (p + i) ≢ b'\r')
    → m (p + n) ≡ b'\r'
    → p + n < end
    → (parse_request_line m end p r).rc ≡ rc_undefined
entered_in_version m end p n r inside plain cr room = ended
  where
    skip : (i : ℕ) → i < n → step m end (p + i) r ≡ next (p + i) r
    skip i lt = unfold step_in in ground (arith, inside, plain i)

    last : step m end (p + n) r ≡ stop rc_undefined (p + n) r
    last = unfold step_in in ground (arith, inside)

    whole : run (step m) end p r ≡ record { rc = rc_undefined; last = p + n; state = r }
    whole =
        run_skip (step m) (step-IsSteady m) end p n r (omega arith) skip
        ∙ run_stop (step m) (step-IsSteady m) end (p + n) r rc_undefined (p + n) r room last

    ended : (parse_request_line m end p r).rc ≡ rc_undefined
    ended = unfold parse_request_line call finish in (rw whole refl)

forget-sw_version : (st : State) (v : Option ℕ) → forget st ≡ sw_version v → v ≡ none
unfolding forget
forget-sw_version (sw_version w) v h = ground (arith, h)
forget-sw_version _ v h = ground (arith, h)

-- A call that answers STU_AGAIN does not keep `v`.
waits_in_version :
    (m : Mem) (end p : ℕ) (r : Request) (v : Option ℕ)
    → let first = parse_request_line m end p r in
      first.rc ≡ rc_again → first.state.state ≡ sw_version v → first.state.state ≡ sw_version none
unfolding parse_request_line call finish
waits_in_version m end p r v again inside =
    let out = run (step m) end p r in
    let kept : (leave out.rc r out.state).state ≡ forget out.state.state = rw again refl in
    let unset : v ≡ none = forget-sw_version out.state.state v (sym kept ∙ inside) in
    rw unset at inside

-- When a call on the first piece of a request line answers STU_AGAIN and leaves the request in the
-- state of the version, and the next piece, which may stand in a memory that has changed, has the
-- end of the line: then the second call, from where the first stopped, compares through the local
-- pointer `v`, which it never set.
pub parse_request_line_cut :
    (m m' : Mem) (end end' p n : ℕ) (r : Request) (v : Option ℕ)
    → let first = parse_request_line m end p r in
      first.rc ≡ rc_again
      → first.state.state ≡ sw_version v
      → ((i : ℕ) → i < n → m' (first.last + i) ≢ b'\r')
      → m' (first.last + n) ≡ b'\r'
      → first.last + n < end'
      → (parse_request_line m' end' first.last first.state).rc ≡ rc_undefined
parse_request_line_cut m m' end end' p n r v again inside plain cr room =
    entered_in_version m' end' _ n _ (waits_in_version m end p r v again inside) plain cr room
