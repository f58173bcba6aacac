-- ===== src/Session/Serve.antt =====
-- The functions of stu_websocket_request.c put together: what a user's texts make the server send.
use chatease_server.Common.Memory.{Mem}
use chatease_server.Common.{ℕ, ◌+◌, ◌*◌, Bool, true, Option, none, some, List, ◌++◌, length, get_or}
use chatease_server.Hash.Table.{Hash}
use chatease_server.Json.Parse.{parse}
use chatease_server.Json.Print.{Doubles, print_value}
use chatease_server.Session.Answer.{Speaker, Answer, Reading, millis, error_body, analyze_request}
use chatease_server.Session.Process.{Handlers}
use chatease_server.Session.Wire.{Send, frame_bytes, descriptors, request_handler}

-- What does not change while the frames of one buffer are processed: the functions on doubles, the
-- clock at the n-th look, the users of the channel with the descriptors of their connections, and
-- the descriptor of this one.
pub record World : Type 0 where
  pub doubles : Doubles
  pub reading : Reading
  pub clock : ℕ → ℕ × ℕ
  pub users : Hash
  pub fd_of : ℕ → ℕ
  pub self : ℕ

-- The user, how often the clock was looked at, what was sent, and whether the connection is closed.
pub record Serving : Type 0 where
  pub speaker : Speaker
  pub looks : ℕ
  pub sent : List Send
  pub is_closed : Bool

module _ (w : World) where
  open w use {doubles, reading, clock, users, fd_of, self}

  -- The text in the array `temp`, with zeros behind it.
  abbrev pub stacked : List ℕ → Mem
  stacked text a = get_or text a 0

  -- `stu_websocket_request_handler` for a tree that was printed to the outgoing frame.
  unfoldable pub send_tree : ℕ → ℕ → Answer → List Send
  send_tree op status a =
      request_handler status self (descriptors fd_of users)
        (frame_bytes op (print_value doubles a.body))

  unfoldable pub answered : ℕ → Serving → Option Answer → Option Serving
  unfolding send_tree
  answered op s none = none
  answered op s (some a) = some (record s {
    speaker = record s.speaker { active = a.active };
    looks = s.looks + 1;
    sent = s.sent ++ send_tree op a.status a;
  })

  -- `stu_websocket_analyze_request`; the parser has more fuel than it needs.
  unfoldable pub analyze_text : ℕ → List ℕ → Serving → Option Serving
  unfolding answered
  analyze_text op text s =
      let now = clock s.looks in
      answered op s (
        analyze_request reading s.speaker (millis now.0 now.1)
          (parse doubles (stacked text) (3 * length text + 6) 0 (length text)))

  -- `stu_websocket_finalize_request` with a status that is not STU_HTTP_OK and without a number.
  unfoldable pub finalize_request : ℕ → ℕ → Serving → Serving
  unfolding send_tree
  finalize_request status op s =
      let body = error_body reading status reading.minus_one in
      let a : Answer = record { status = status; body = body; active = s.speaker.active } in
      record s { sent = s.sent ++ send_tree op status a }

  -- `stu_websocket_close_connection`, of which only the end of the connection is kept.
  unfoldable pub close_connection : Serving → Serving
  close_connection s = record s { is_closed = true }

  abbrev pub serving : Handlers Serving
  serving = record { analyze = analyze_text; finalize = finalize_request; close = close_connection }
