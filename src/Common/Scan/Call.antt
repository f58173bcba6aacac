-- ===== src/Common/Scan/Call.antt =====
-- A parser as its caller sees it. On STU_ERROR the functions of stu_http_parse.c return before
-- they write `b->last`; on every other return they write it. What a return does to the fields
-- that mirror local variables depends on its code: `leave rc s t` is the request after a call
-- that was entered in state `s` and left in state `t`.
use chatease_server.Common.{ℕ, ◌≤◌, ◌≡◌, ◌≢◌, ◌⊎◌, refl, sym, ◌∙◌, arith}
use chatease_server.Common.Scan.{
  Rc, rc_ok, rc_error, rc_again, Verdict, Scanned, run, resume, IsSteady,
}
use chatease_server.Common.Scan.Resume.{resume-run}

-- The codes after which the caller goes on with the same line, or has got it.
abbrev pub GoesOn : Rc → Type 0
GoesOn rc = (rc ≡ rc_ok) ⊎ (rc ≡ rc_again)

-- `second` is the second of two calls, and `whole` one call on all of the input.
pub record Agrees {S : Type 0} (second whole : Scanned S) : Type 0 where
  pub same_rc : second.rc ≡ whole.rc
  pub same_last : whole.rc ≢ rc_error → second.last ≡ whole.last
  pub same_state : GoesOn whole.rc → second ≡ whole

module _ {S : Type 0} (step : ℕ → ℕ → S → Verdict S) (leave : Rc → S → S → S) where
  -- `finish p s out`: the loop was entered at `p` in state `s` and left with `out`.
  unfoldable pub finish : ℕ → S → Scanned S → Scanned S
  finish p s out = record {
    rc = out.rc;
    last = elim out.rc [ rc_error ↦ p | _ ↦ out.last ];
    state = leave out.rc s out.state;
  }

  unfoldable pub call : ℕ → ℕ → S → Scanned S
  call end p s = finish p s (run step end p s)

  finish_entry :
      (p q : ℕ) (s t : S) (out : Scanned S)
      → ((rc : Rc) (u : S) → GoesOn rc → leave rc s u ≡ leave rc t u)
      → Agrees (finish p s out) (finish q t out)
  unfolding finish
  finish_entry p q s t out keeps = record {
    same_rc = refl;
    same_last = λ ne. ground arith;
    same_state = λ ok. ground (arith, keeps out.rc out.state);
  }

  finish_again :
      (p : ℕ) (s : S) (out : Scanned S)
      → out.rc ≡ rc_again
      → leave rc_again s out.state ≡ out.state
      → finish p s out ≡ out
  unfolding finish
  finish_again p s out e kept = ground arith

  resume_again :
      (end : ℕ) (out : Scanned S)
      → out.rc ≡ rc_again
      → resume step end out ≡ run step end out.last out.state
  unfolding resume
  resume_again end out e = ground arith

  -- A second call after STU_AGAIN, when nothing was lost in between.
  pub call_twice :
      IsSteady step
      → ((rc : Rc) (s t u : S) → GoesOn rc → leave rc s u ≡ leave rc t u)
      → (end end' p : ℕ) (s : S) → end ≤ end'
      → (run step end p s).rc ≡ rc_again
      → leave rc_again s (run step end p s).state ≡ (run step end p s).state
      → let first = call end p s in Agrees (call end' first.last first.state) (call end' p s)
  unfolding call
  call_twice steady keeps end end' p s le e kept =
      let out = run step end p s in
      let same : run step end' out.last out.state ≡ run step end' p s =
        sym (resume_again end' out e) ∙ resume-run step steady end end' p s le in
      rw (finish_again p s out e kept, same)
        (finish_entry out.last p out.state s _ (λ rc u. keeps rc out.state s u))
