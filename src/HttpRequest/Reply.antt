-- ===== src/HttpRequest/Reply.antt =====
-- `stu_http_wait_request_handler`, the head of `stu_http_process_request`, and
-- `stu_http_request_handler`, of stu_http_request.c: what arrives, and the answer to it.
use chatease_server.Common.{ℕ, Option, none, some, List, [], ◌∷◌, ◌++◌, ◌==◌, if◌then◌else◌, length}
use chatease_server.HttpRequest.Handlers.{HeaderElt, Headers, ok, again, http}
use chatease_server.HttpRequest.Lines.{Ended}
use chatease_server.HttpRequest.Table.{upgrade}
use chatease_server.Json.Value.{c_string}
use chatease_server.Session.Receive.{Received, bytes, gone, would_block, interrupted, broken}
use chatease_server.Session.Status
use chatease_server.Strings.Copy.{same_bytes}

-- STU_FLASH_POLICY_REQUEST, up to the zero that ends it.
abbrev pub policy_request : List ℕ
policy_request =
    b'<' ∷ b'p' ∷ b'o' ∷ b'l' ∷ b'i' ∷ b'c' ∷ b'y' ∷ b'-' ∷ b'f' ∷ b'i' ∷ b'l' ∷ b'e' ∷ b'-' ∷ b'r'
    ∷ b'e' ∷ b'q' ∷ b'u' ∷ b'e' ∷ b's' ∷ b't' ∷ b'/' ∷ b'>' ∷ []

-- What `stu_http_wait_request_handler` goes on to do: it returns, closes the connection, sends the
-- policy file, or has a request in the buffer.
pub data Arrival : Type 0 where
  waits closes policy : Arrival
  request : List ℕ → Arrival

-- STU_HTTP_REQUEST_DEFAULT_SIZE
abbrev pub default_size : ℕ
default_size = 1024

-- The code from the label `again` on, for the answers of `recv` one after the other. A buffer that
-- is full is thrown away.
unfoldable pub wait_request : List Received → Arrival
wait_request [] = waits
wait_request (interrupted ∷ more) = wait_request more
wait_request (would_block ∷ more) = waits
wait_request (gone ∷ more) = closes
wait_request (broken ∷ more) = closes
wait_request (bytes xs ∷ more) =
    let rest = wait_request more in
    if length xs == default_size
    then rest
    else if same_bytes 23 (xs ++ 0 ∷ []) (policy_request ++ 0 ∷ [])
    then policy
    else request xs

-- How the head of `stu_http_process_request` ends: it waits for more, finalizes the request with
-- a status and closes the connection, or goes on to the upgrade.
pub data Next : Type 0 where
  waits upgrades : Next
  refuses : ℕ → Next

-- The tests of what `stu_http_process_request_headers` returned; for a loop that did what it must
-- not there is no answer.
unfoldable pub after_headers : Ended → Option Next
after_headers (Ended.left again s) = some waits
after_headers (Ended.left (http status) s) = some (refuses Status.bad_request)
after_headers (Ended.left ok s) = elim (s.headers.slot upgrade) [
  | none ↦ some (refuses Status.not_implemented)
  | some h ↦ some upgrades
]
after_headers Ended.undefined = none
after_headers Ended.spent = none

abbrev crlf : List ℕ
crlf = b'\r' ∷ b'\n' ∷ []

-- __NAME "/" __VERSION
abbrev server_name : List ℕ
server_name =
    b'c' ∷ b'h' ∷ b'a' ∷ b't' ∷ b'e' ∷ b'a' ∷ b's' ∷ b'e' ∷ b'-' ∷ b's' ∷ b'e' ∷ b'r' ∷ b'v' ∷ b'e'
    ∷ b'r' ∷ b'/' ∷ b'1' ∷ b'.' ∷ b'1' ∷ b'.' ∷ b'0' ∷ b'0' ∷ []

abbrev server_line : List ℕ
server_line = b'S' ∷ b'e' ∷ b'r' ∷ b'v' ∷ b'e' ∷ b'r' ∷ b':' ∷ b' ' ∷ [] ++ server_name ++ crlf

-- "%s: %s" and the end of the line; `stu_strncpy` stops at a zero.
abbrev line_of : HeaderElt → List ℕ
line_of h = c_string h.key ++ b':' ∷ b' ' ∷ (c_string h.value ++ crlf)

abbrev protocol_line : Option HeaderElt → List ℕ
protocol_line none = []
protocol_line (some h) = line_of h

abbrev status_line_101 : List ℕ
status_line_101 =
    b'H' ∷ b'T' ∷ b'T' ∷ b'P' ∷ b'/' ∷ b'1' ∷ b'.' ∷ b'1' ∷ b' ' ∷ b'1' ∷ b'0' ∷ b'1' ∷ b' ' ∷ b'S'
    ∷ b'w' ∷ b'i' ∷ b't' ∷ b'c' ∷ b'h' ∷ b'i' ∷ b'n' ∷ b'g' ∷ b' ' ∷ b'P' ∷ b'r' ∷ b'o' ∷ b't'
    ∷ b'o' ∷ b'c' ∷ b'o' ∷ b'l' ∷ b's' ∷ b'\r' ∷ b'\n' ∷ []

abbrev upgrade_lines : List ℕ
upgrade_lines =
    b'U' ∷ b'p' ∷ b'g' ∷ b'r' ∷ b'a' ∷ b'd' ∷ b'e' ∷ b':' ∷ b' ' ∷ b'w' ∷ b'e' ∷ b'b' ∷ b's' ∷ b'o'
    ∷ b'c' ∷ b'k' ∷ b'e' ∷ b't' ∷ b'\r' ∷ b'\n' ∷ b'C' ∷ b'o' ∷ b'n' ∷ b'n' ∷ b'e' ∷ b'c' ∷ b't'
    ∷ b'i' ∷ b'o' ∷ b'n' ∷ b':' ∷ b' ' ∷ b'u' ∷ b'p' ∷ b'g' ∷ b'r' ∷ b'a' ∷ b'd' ∷ b'e' ∷ b'\r'
    ∷ b'\n' ∷ []

abbrev status_line_400 : List ℕ
status_line_400 =
    b'H' ∷ b'T' ∷ b'T' ∷ b'P' ∷ b'/' ∷ b'1' ∷ b'.' ∷ b'1' ∷ b' ' ∷ b'4' ∷ b'0' ∷ b'0' ∷ b' ' ∷ b'B'
    ∷ b'a' ∷ b'd' ∷ b' ' ∷ b'R' ∷ b'e' ∷ b'q' ∷ b'u' ∷ b'e' ∷ b's' ∷ b't' ∷ b'\r' ∷ b'\n' ∷ []

abbrev content_lines : List ℕ
content_lines =
    b'C' ∷ b'o' ∷ b'n' ∷ b't' ∷ b'e' ∷ b'n' ∷ b't' ∷ b'-' ∷ b't' ∷ b'y' ∷ b'p' ∷ b'e' ∷ b':' ∷ b' '
    ∷ b't' ∷ b'e' ∷ b'x' ∷ b't' ∷ b'/' ∷ b'h' ∷ b't' ∷ b'm' ∷ b'l' ∷ b'\r' ∷ b'\n' ∷ b'C' ∷ b'o'
    ∷ b'n' ∷ b't' ∷ b'e' ∷ b'n' ∷ b't' ∷ b'-' ∷ b'l' ∷ b'e' ∷ b'n' ∷ b'g' ∷ b't' ∷ b'h' ∷ b':'
    ∷ b' ' ∷ b'2' ∷ b'3' ∷ b'\r' ∷ b'\n' ∷ b'C' ∷ b'o' ∷ b'n' ∷ b'n' ∷ b'e' ∷ b'c' ∷ b't' ∷ b'i'
    ∷ b'o' ∷ b'n' ∷ b':' ∷ b' ' ∷ b'c' ∷ b'l' ∷ b'o' ∷ b's' ∷ b'e' ∷ b'\r' ∷ b'\n' ∷ b'\r' ∷ b'\n'
    ∷ []

-- The bytes that `stu_http_request_handler` sends for a status; `accept` is read without a test.
unfoldable pub reply : ℕ → Headers → Option (List ℕ)
reply status r =
    if status == Status.switching_protocols
    then elim r.sec_websocket_accept [
      | none ↦ none
      | some accept ↦ some (
          status_line_101
          ++ server_line
          ++ upgrade_lines
          ++ line_of accept
          ++ protocol_line r.protocol
          ++ crlf)
    ]
    else some (status_line_400 ++ server_line ++ content_lines ++ server_name ++ b'\n' ∷ [])
