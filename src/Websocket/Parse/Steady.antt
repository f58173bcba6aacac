-- ===== src/Websocket/Parse/Steady.antt =====
-- The steps of the parser of frames go ahead, and bytes that arrive later do not change them.
use chatease_server.Common.Scan.{Rc, rc_again, next, more, stop, IsSteady}
use chatease_server.Common.{ℕ, ◌≤◌, ◌<◌, ◌≡◌, ◌≢◌, ◌⊎◌, arith}
use chatease_server.Websocket.Frame.{State, sw_fin, Request}
use chatease_server.Websocket.Parse.{step_in, step}

step_in-ahead :
    (st : State) (end p : ℕ) (r : Request) (q : ℕ) (t : Request)
    → step_in st end p r ≡ next q t
    → p ≤ q
unfolding step_in
step_in-ahead sw_fin end p r q t e = ground arith
step_in-ahead _ end p r q t e = ground arith

step_in-stays :
    (st : State) (end end' p : ℕ) (r : Request)
    → p < end
    → end ≤ end'
    → (step_in st end p r ≡ more) ⊎ (step_in st end' p r ≡ step_in st end p r)
unfolding step_in
step_in-stays sw_fin end end' p r h le = ground arith
step_in-stays _ end end' p r h le = ground arith

step_in-final :
    (st : State) (end p : ℕ) (r : Request) (rc : Rc) (q : ℕ) (t : Request)
    → step_in st end p r ≡ stop rc q t
    → rc ≢ rc_again
unfolding step_in
step_in-final sw_fin end p r rc q t e = ground arith
step_in-final _ end p r rc q t e = ground arith

pub step-IsSteady : IsSteady step
step-IsSteady = record {
  ahead = λ end p r q t e. step_in-ahead r.state end p r q t e;
  stays = λ end end' p r h le. step_in-stays r.state end end' p r h le;
  stop_final = λ end p r rc q t e. step_in-final r.state end p r rc q t e;
}
