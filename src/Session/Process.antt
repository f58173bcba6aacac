-- ===== src/Session/Process.antt =====
-- `stu_websocket_wait_request_handler` and `stu_websocket_process_request`: from the bytes that
-- arrive to the texts that are analyzed.
pub mod Ends
pub mod Frames
use chatease_server.Common.Memory.{Mem, slice}
use chatease_server.Common.Scan.{Rc, rc_ok, rc_done}
use chatease_server.Common.{
  ℕ, zero, suc, ◌+◌, ◌-◌, Bool, ◌&&◌, ◌||◌, ltb, leb, ◌==◌, Option, none, some, List, [], ◌∷◌, ◌++◌,
  if◌then◌else◌, length, get_or,
}
use chatease_server.Session.Status
use chatease_server.Websocket.Frame.{
  Frame, empty_frame, Request, opcode_text, opcode_binary, opcode_close,
}
use chatease_server.Websocket.Parse.{parse_frame}

-- What the loop calls: `stu_websocket_analyze_request` on the opcode of the first frame and a
-- text, which gives nothing when it reads what it must not, `stu_websocket_finalize_request` on a
-- status and that opcode, and `stu_websocket_close_connection`.
pub record Handlers (S : Type 0) : Type 0 where
  pub analyze : ℕ → List ℕ → S → Option S
  pub finalize : ℕ → ℕ → S → S
  pub close : S → S

-- The request with its buffer `r->frame_in`, the number of calls of `stu_calloc`, and what the
-- functions above change.
pub record Stream (S : Type 0) : Type 0 where
  pub request : Request
  pub start : ℕ
  pub last : ℕ
  pub end : ℕ
  pub calls : ℕ
  pub rest : S

-- STU_WEBSOCKET_REQUEST_DEFAULT_SIZE
abbrev pub default_size : ℕ
default_size = 1024

-- `end - start` of the payload; `start` is not behind `end` in the frames of a request.
abbrev pub payload_length : Frame → ℕ
payload_length f = f.payload_data.end - f.payload_data.start

-- `f->payload_data.end = f->payload_data.start`, unless the length is 0.
abbrev pub emptied : Frame → Frame
emptied f =
    if payload_length f == 0
    then f
    else record f { payload_data = record f.payload_data { end = f.payload_data.start } }

abbrev pub is_message : Frame → Bool
is_message f = f.opcode == opcode_text || f.opcode == opcode_binary

-- What the loop over the chain leaves: the frames and the text.
pub record Gathered : Type 0 where
  pub frames : List Frame
  pub text : List ℕ

abbrev pub with_message : Mem → Frame → Option Gathered → Option Gathered
with_message m f none = none
with_message m f (some g) = some (record {
  frames = emptied f ∷ g.frames;
  text = slice m f.payload_data.start (payload_length f) ++ g.text;
})

abbrev pub with_skipped : Frame → Option Gathered → Option Gathered
with_skipped f none = none
with_skipped f (some g) = some (record g { frames = f ∷ g.frames })

-- The loop over the chain; it gives nothing when it meets a frame that closes.
unfoldable pub gather : Mem → List Frame → Option Gathered
gather m [] = some (record { frames = []; text = [] })
gather m (f ∷ fs) =
    let rest = gather m fs in
    if is_message f
    then with_message m f rest
    else if f.opcode == opcode_close
    then none
    else with_skipped f rest

-- How many bytes the loop over the chain copies to `temp`, up to a frame that closes.
unfoldable pub copied : List Frame → ℕ
copied [] = 0
copied (f ∷ fs) =
    let rest = copied fs in
    if is_message f then payload_length f + rest else if f.opcode == opcode_close then 0 else rest

-- `stu_memzero(start, STU_WEBSOCKET_REQUEST_DEFAULT_SIZE)`
abbrev pub cleared : ℕ → Mem → Mem
cleared start m a = if leb start a && ltb a (start + default_size) then 0 else m a

-- How a round ends: `again` goes round the loop, `waits` leaves it, `closed` and `refused` return
-- after closing and after an error, `overrun` writes behind the end of `temp`, and `undefined`
-- reads what is not there.
pub data Outcome (S : Type 0) : Type 0 where
  again : Stream S → Outcome S
  waits : Stream S → Outcome S
  closed : S → Outcome S
  refused : S → Outcome S
  overrun : Outcome S
  undefined : Outcome S

abbrev pub first_opcode : Request → ℕ
first_opcode r = (get_or r.frames_in 0 empty_frame).opcode

-- How the loop ends; `spent` is out of fuel.
pub data Ended (S : Type 0) : Type 0 where
  waiting : Stream S → Ended S
  closed : S → Ended S
  refused : S → Ended S
  overrun : Ended S
  undefined : Ended S
  spent : Ended S

-- `granted n` tells whether the n-th call of `stu_calloc` gives memory.
module _ {S : Type 0} (handlers : Handlers S) (granted : ℕ → Bool) where
  -- From the test of `frame_in->last` on.
  unfoldable pub after_text : Stream S → Option S → Outcome S
  after_text st none = undefined
  after_text st (some rest) =
      if st.last == st.end
      then waits (record st {
        request = record st.request { mem = cleared st.start st.request.mem };
        last = st.start;
        end = st.start;
        rest = rest;
      })
      else again (record st { rest = rest })

  abbrev pub analyzed : ℕ → List ℕ → S → Option S
  analyzed op [] s = some s
  analyzed op (c ∷ cs) s = handlers.analyze op (c ∷ cs) s

  abbrev pub gathered : Stream S → Option Gathered → Outcome S
  gathered st none = closed (handlers.close st.rest)
  gathered st (some g) =
      after_text (record st { request = record st.request { frames_in = g.frames } })
        (analyzed (first_opcode st.request) g.text st.rest)

  -- The code for STU_DONE.
  unfoldable pub complete : Stream S → Outcome S
  unfolding after_text
  complete st =
      if ltb default_size (copied st.request.frames_in)
      then overrun
      else gathered st (gather st.request.mem st.request.frames_in)

  -- The code for STU_OK: on to the next frame of the chain.
  unfoldable pub next_frame : Stream S → Outcome S
  next_frame st =
      let r = st.request in
      if ltb (r.frame + 1) (length r.frames_in)
      then again (record st { request = record r { frame = r.frame + 1 } })
      else if granted st.calls
      then again (record st {
        request = record r { frames_in = r.frames_in ++ empty_frame ∷ []; frame = r.frame + 1 };
        calls = st.calls + 1;
      })
      else refused (handlers.finalize Status.internal_server_error (first_opcode r) st.rest)

  -- The request and the buffer after a call of `stu_websocket_parse_frame`.
  abbrev pub parsed : Stream S → Stream S
  parsed st =
      let out = parse_frame st.end st.last st.request in
      record st { request = out.state; last = out.last }

  -- What the loop does with a return code: on STU_AGAIN, and on any that it does not expect, it
  -- stops.
  unfoldable pub dispatch : Rc → Stream S → Outcome S
  unfolding complete next_frame
  dispatch rc_done st = complete st
  dispatch rc_ok st = next_frame st
  dispatch _ st = waits st

  -- One round of the loop.
  unfoldable pub frame_round : Stream S → Outcome S
  unfolding dispatch
  frame_round st = dispatch (parse_frame st.end st.last st.request).rc (parsed st)

  unfoldable pub frame_rounds : ℕ → Stream S → Ended S
  unfolding frame_round
  frame_rounds zero st = spent
  frame_rounds (suc n) st = elim (frame_round st) [
    | again st' ↦ frame_rounds n st'
    | waits st' ↦ waiting st'
    | Outcome.closed s ↦ Ended.closed s
    | Outcome.refused s ↦ Ended.refused s
    | Outcome.overrun ↦ Ended.overrun
    | Outcome.undefined ↦ Ended.undefined
  ]

  -- `stu_websocket_process_request`. A round takes at least a byte but for the first, which may
  -- end a frame without a payload, so this much fuel is enough.
  unfoldable pub process_request : Bool → Stream S → Ended S
  process_request has_channel st =
      if has_channel
      then frame_rounds (st.end - st.last + 2) st
      else refused (handlers.finalize Status.unauthorized (first_opcode st.request) st.rest)
