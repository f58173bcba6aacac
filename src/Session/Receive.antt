-- ===== src/Session/Receive.antt =====
-- `stu_websocket_wait_request_handler` and `stu_websocket_create_request`: bytes arrive.
pub mod Messages
use chatease_server.Common.Memory.{Mem}
use chatease_server.Common.{
  ℕ, ◌+◌, ◌-◌, Bool, not, ◌&&◌, ltb, leb, ◌==◌, List, [], ◌∷◌, if◌then◌else◌, length, get_or,
}
use chatease_server.Session.Process.{Handlers, Stream, Ended, waiting, cleared, process_request}
use chatease_server.Websocket.Frame.{empty_frame, sw_fin, Request}

-- What a call of `recv` gives: some bytes, none because the client has closed the connection, or
-- -1 with EAGAIN, EINTR or another error.
pub data Received : Type 0 where
  bytes : List ℕ → Received
  gone would_block interrupted broken : Received

-- The bytes from address `a` on.
abbrev pub stored : ℕ → List ℕ → Mem → Mem
stored a xs m b = if leb a b && ltb b (a + length xs) then get_or xs (b - a) 0 else m b

-- What is known of the connection: whether its descriptor is still open, whether it has a request
-- and a channel, and where the allocator would put the buffer.
pub record Connection : Type 0 where
  pub is_open : Bool
  pub has_request : Bool
  pub has_channel : Bool
  pub base : ℕ

module _ {S : Type 0} (handlers : Handlers S) (granted : ℕ → Bool) where
  -- The buffer is allocated and cleared when `start` is NULL.
  unfoldable pub with_buffer : ℕ → Stream S → Stream S
  with_buffer base st =
      if st.start == 0
      then record st {
        request = record st.request { mem = cleared base st.request.mem };
        start = base;
        last = base;
        end = base;
      }
      else st

  -- `recv` to `c->buffer.end`, and `c->buffer.end += n`.
  unfoldable pub append_bytes : List ℕ → Stream S → Stream S
  append_bytes xs st = record st {
    request = record st.request { mem = stored st.end xs st.request.mem };
    end = st.end + length xs;
  }

  -- `stu_websocket_create_request`: a new request is all zero; an old one goes on with its first
  -- frame.
  unfoldable pub create_request : Bool → Stream S → Stream S
  create_request has_request st =
      if has_request then record st { request = record st.request { frame = 0 } } else record st {
        request = record st.request { frames_in = empty_frame ∷ []; frame = 0; state = sw_fin };
        calls = st.calls + 1;
      }

  -- From the label `again` on; the list has what the calls of `recv` give one after the other.
  -- A request that is not granted is written to all the same.
  unfoldable pub receive : Connection → List Received → Stream S → Ended S
  receive c [] st = Ended.spent
  receive c (interrupted ∷ more) st = receive c more st
  receive c (would_block ∷ more) st = waiting st
  receive c (gone ∷ more) st = Ended.closed (handlers.close st.rest)
  receive c (broken ∷ more) st = Ended.closed (handlers.close st.rest)
  receive c (bytes xs ∷ more) st =
      let st' = append_bytes xs st in
      if not c.has_request && not (granted st'.calls)
      then Ended.undefined
      else process_request handlers granted c.has_channel (create_request c.has_request st')

  unfoldable pub wait_request_handler : Connection → List Received → Stream S → Ended S
  wait_request_handler c answers st =
      if c.is_open then receive c answers (with_buffer c.base st) else waiting st
