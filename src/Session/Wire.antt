-- ===== src/Session/Wire.antt =====
-- `stu_websocket_request_handler`: the frame that is sent, and to whom.
pub mod Arrives
use chatease_server.Common.Memory.{Mem, slice}
use chatease_server.Common.{
  ℕ, ◌+◌, ◌-◌, ltb, ◌==◌, List, [], ◌∷◌, map, if◌then◌else◌, length, get_or,
}
use chatease_server.Hash.Table.{Hash}
use chatease_server.Session.Status
use chatease_server.Websocket.Encode.{encode_frame}

-- The array `temp`, cleared, with the payload copied to `temp + 10`.
abbrev pub loaded : List ℕ → Mem
loaded payload a = if ltb a 10 then 0 else get_or payload (a - 10) 0

-- The bytes given to `send`: `f->extended + 2 + extened` of them from `data` on.
unfoldable pub frame_bytes : ℕ → List ℕ → List ℕ
frame_bytes op payload =
    let size = length payload in
    let e = encode_frame op 0 size (loaded payload) in slice e.mem e.start (size + 2 + e.extened)

-- A call of `send`.
pub record Send : Type 0 where
  pub fd : ℕ
  pub bytes : List ℕ

-- The descriptors of the users of a channel, in the order of `userlist.keys`; `fd_of` is
-- `stu_atomic_fetch(&t->fd)` of the connection that an element has as its value.
unfoldable pub descriptors : (ℕ → ℕ) → Hash → List ℕ
descriptors fd_of users = map (λ e. fd_of (users.elts e).value) users.keys

-- The calls of `send` for one frame; what `send` returns is not looked at.
unfoldable pub request_handler : ℕ → ℕ → List ℕ → List ℕ → List Send
request_handler status self fds bytes =
    if status == Status.ok
    then map (λ fd. record { fd = fd; bytes = bytes }) fds
    else record { fd = self; bytes = bytes } ∷ []
