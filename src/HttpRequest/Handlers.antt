-- ===== src/HttpRequest/Handlers.antt =====
-- The functions of stu_http_request.c that process one header. Memory is always granted.
use chatease_server.Base64.{encode}
use chatease_server.Common.{
  ℕ, ◌+◌, Bool, true, false, Option, none, some, List, [], ◌∷◌, ◌++◌, ltb, within, ◌==◌, length,
  if◌then◌else◌,
}
use chatease_server.HttpRequest.Table.{
  Field, host, user_agent, accept, accept_language, content_length, content_type, sec_websocket_key,
  sec_websocket_key1, sec_websocket_key2, sec_websocket_key3, sec_websocket_protocol,
  sec_websocket_version, sec_websocket_extensions, upgrade, connection, Process, process_host,
  process_connection, process_content_length, process_sec_websocket_key,
  process_sec_websocket_key_for_safari, process_sec_websocket_protocol, process_header_line,
  process_unique_header_line,
}
use chatease_server.Session.Status
use chatease_server.Strings.Copy.{same_bytes}

-- `stu_table_elt_t` but for the hash; a header that is made for the answer has no key in lower
-- case.
pub record HeaderElt : Type 0 where
  pub key : List ℕ
  pub value : List ℕ
  pub lowcase_key : List ℕ

-- STU_HTTP_CONNECTION_CLOSE and the two others.
pub data ConnectionType : Type 0 where
  connection_close connection_keep_alive connection_upgrade : ConnectionType

-- What the functions use of `r->headers_in` (the pointers, the list, the two fields at the end)
-- and of `r->headers_out`.
pub record Headers : Type 0 where
  pub slot : Field → Option HeaderElt
  pub all : List HeaderElt
  pub content_length_n : ℕ
  pub connection_type : ConnectionType
  pub sec_websocket_accept : Option HeaderElt
  pub protocol : Option HeaderElt
  pub out : List HeaderElt

-- What a function returns: STU_OK, STU_AGAIN or a status of HTTP.
pub data Code : Type 0 where
  ok again : Code
  http : ℕ → Code

pub record Handled : Type 0 where
  pub code : Code
  pub headers : Headers

abbrev handled : Code → Headers → Handled
handled code headers = record { code = code; headers = headers }

-- The place of a field in the structure.
unfoldable pub place : Field → ℕ
place host = 0
place user_agent = 1
place accept = 2
place accept_language = 3
place content_type = 4
place content_length = 5
place sec_websocket_key = 6
place sec_websocket_key1 = 7
place sec_websocket_key2 = 8
place sec_websocket_key3 = 9
place sec_websocket_protocol = 10
place sec_websocket_version = 11
place sec_websocket_extensions = 12
place upgrade = 13
place connection = 14

-- `*ph = h`
abbrev pub set_slot : Field → HeaderElt → Headers → Headers
set_slot field h r = record r { slot = λ f. if place f == place field then some h else r.slot f }

unfoldable pub header_line : Field → HeaderElt → Headers → Handled
header_line field h r = elim (r.slot field) [
  | none ↦ handled ok (set_slot field h r)
  | some before ↦ handled ok r
]

unfoldable pub unique_header_line : Field → HeaderElt → Headers → Handled
unique_header_line field h r = elim (r.slot field) [
  | none ↦ handled ok (set_slot field h r)
  | some before ↦ handled (http Status.bad_request) r
]

-- What `stu_http_process_unique_header_line` leaves, whatever it returns.
abbrev after_unique : Field → HeaderElt → Headers → Headers
after_unique field h r = (unique_header_line field h r).headers

-- The loops of `stu_strnstr` for a text that ends with a zero; the text that is searched for
-- begins with `c` and goes on with `rest`.
unfoldable pub find_from : ℕ → List ℕ → ℕ → List ℕ → Bool
find_from c rest n [] = false
find_from c rest n (x ∷ xs) =
    let later = find_from c rest n xs in
    if x == 0
    then false
    else if x == c
    then (if same_bytes n (xs ++ 0 ∷ []) (rest ++ 0 ∷ []) then true else later)
    else later

-- `stu_strnstr(text, word, n)`: whether it finds the word.
unfoldable pub strnstr : List ℕ → List ℕ → ℕ → Bool
unfolding find_from
strnstr text [] n = false
strnstr text (c ∷ rest) n = find_from c rest n text

abbrev keep_alive_word : List ℕ
keep_alive_word = b'K' ∷ b'e' ∷ b'e' ∷ b'p' ∷ b'-' ∷ b'A' ∷ b'l' ∷ b'i' ∷ b'v' ∷ b'e' ∷ []

abbrev upgrade_word : List ℕ
upgrade_word = b'U' ∷ b'p' ∷ b'g' ∷ b'r' ∷ b'a' ∷ b'd' ∷ b'e' ∷ []

unfoldable pub type_of : List ℕ → ConnectionType
unfolding strnstr
type_of value =
    if strnstr value keep_alive_word (length value)
    then connection_keep_alive
    else if strnstr value upgrade_word (length value)
    then connection_upgrade
    else connection_close

abbrev pub accept_name : List ℕ
accept_name =
    b'S' ∷ b'e' ∷ b'c' ∷ b'-' ∷ b'W' ∷ b'e' ∷ b'b' ∷ b'S' ∷ b'o' ∷ b'c' ∷ b'k' ∷ b'e' ∷ b't' ∷ b'-'
    ∷ b'A' ∷ b'c' ∷ b'c' ∷ b'e' ∷ b'p' ∷ b't' ∷ []

abbrev pub protocol_name : List ℕ
protocol_name =
    b'S' ∷ b'e' ∷ b'c' ∷ b'-' ∷ b'W' ∷ b'e' ∷ b'b' ∷ b'S' ∷ b'o' ∷ b'c' ∷ b'k' ∷ b'e' ∷ b't' ∷ b'-'
    ∷ b'P' ∷ b'r' ∷ b'o' ∷ b't' ∷ b'o' ∷ b'c' ∷ b'o' ∷ b'l' ∷ []

-- STU_HTTP_WEBSOCKET_SIGN_KEY
abbrev pub sign_key : List ℕ
sign_key =
    b'2' ∷ b'5' ∷ b'8' ∷ b'E' ∷ b'A' ∷ b'F' ∷ b'A' ∷ b'5' ∷ b'-' ∷ b'E' ∷ b'9' ∷ b'1' ∷ b'4' ∷ b'-'
    ∷ b'4' ∷ b'7' ∷ b'D' ∷ b'A' ∷ b'-' ∷ b'9' ∷ b'5' ∷ b'C' ∷ b'A' ∷ b'-' ∷ b'C' ∷ b'5' ∷ b'A'
    ∷ b'B' ∷ b'0' ∷ b'D' ∷ b'C' ∷ b'8' ∷ b'5' ∷ b'B' ∷ b'1' ∷ b'1' ∷ []

abbrev is_digit : ℕ → Bool
is_digit c = within b'0' b'9' c

unfoldable pub count : (ℕ → Bool) → List ℕ → ℕ
count test [] = 0
count test (c ∷ cs) = let rest = count test cs in if test c then rest + 1 else rest

-- The loop over a key of Safari writes its digits to an array of 16 bytes, which `atoi` reads up to
-- a zero behind them, and their number is then divided by the number of spaces.
unfoldable pub is_computed : HeaderElt → Bool
unfolding count
is_computed h =
    if ltb 15 (count is_digit h.value)
    then false
    else if count (λ c. c == b' ') h.value == 0
    then false
    else true

abbrev zeros_16 : List ℕ
zeros_16 = 0 ∷ 0 ∷ 0 ∷ 0 ∷ 0 ∷ 0 ∷ 0 ∷ 0 ∷ 0 ∷ 0 ∷ 0 ∷ 0 ∷ 0 ∷ 0 ∷ 0 ∷ 0 ∷ []

-- The value of the new header is 16 bytes that are never written: the digest is not copied to it.
abbrev pub safari_answer : Headers → Handled
safari_answer r =
    let e : HeaderElt = record { key = accept_name; value = zeros_16; lowcase_key = [] } in
    handled ok (record r { sec_websocket_accept = some e; out = r.out ++ e ∷ [] })

unfoldable pub accept_safari : HeaderElt → HeaderElt → Headers → Option Handled
unfolding is_computed
accept_safari h1 h2 r =
    if is_computed h1 then (if is_computed h2 then some (safari_answer r) else none) else none

unfoldable pub with_keys : Option HeaderElt → Option HeaderElt → Headers → Option Handled
unfolding accept_safari
with_keys (some h1) (some h2) r = accept_safari h1 h2 r
with_keys _ _ r = some (handled again r)

-- `sha1` is what the three calls of the digest write for a text, and `atol` that of the C library,
-- whose result is known by its bits.
pub record Library : Type 0 where
  pub sha1 : List ℕ → List ℕ
  pub atol : List ℕ → ℕ

module _ (library : Library) where
  open library use {sha1, atol}

  -- `stu_http_process_sec_websocket_key`; the header itself goes to the list of those sent.
  unfoldable pub accept_key : HeaderElt → Headers → Handled
  accept_key h r =
      let e : HeaderElt = record {
        key = accept_name;
        value = encode (sha1 (h.value ++ sign_key));
        lowcase_key = [];
      } in
      handled ok (record r { sec_websocket_accept = some e; out = r.out ++ h ∷ [] })

  -- A header of the request, processed as its entry of the table says; `none` is a division by
  -- zero or a write behind an array.
  unfoldable pub process : Process → Field → HeaderElt → Headers → Option Handled
  unfolding unique_header_line header_line type_of with_keys accept_key
  process process_host field h r = some (unique_header_line field h r)
  process process_connection field h r =
      some (handled ok (record (after_unique field h r) { connection_type = type_of h.value }))
  process process_content_length field h r =
      some
        (header_line field h (record (after_unique field h r) { content_length_n = atol h.value }))
  process process_sec_websocket_key field h r = some (accept_key h (after_unique field h r))
  process process_sec_websocket_key_for_safari field h r =
      let r' = after_unique field h r in
      with_keys (r'.slot sec_websocket_key1) (r'.slot sec_websocket_key2) r'
  process process_sec_websocket_protocol field h r =
      let e : HeaderElt = record { key = protocol_name; value = h.value; lowcase_key = [] } in
      some (handled ok (record (after_unique field h r) { protocol = some e }))
  process process_header_line field h r = some (header_line field h r)
  process process_unique_header_line field h r = some (unique_header_line field h r)
