-- ===== src/HttpRequest/Table.antt =====
-- The table `stu_http_headers_in` of stu_http_request.c, and its hash, which
-- `stu_http_init_headers_in_hash` of stu_http.c makes. STU_HTTP_GZIP is not defined.
use chatease_server.Common.{ℕ, ◌+◌, true, Option, none, some, List, [], ◌∷◌, map, get_elem?}
use chatease_server.Hash.Key.{tolower, hash_key}
use chatease_server.Hash.Table.{Hash, init, insert_locked, find_locked}

-- The pointers to an element of `stu_http_headers_in_t`: `offset` of an entry names one.
pub data Field : Type 0 where
  host user_agent accept accept_language content_length content_type : Field
  sec_websocket_key sec_websocket_key1 sec_websocket_key2 sec_websocket_key3 : Field
  sec_websocket_protocol sec_websocket_version sec_websocket_extensions : Field
  upgrade connection : Field

-- The functions `stu_http_process_...` that stand in the table.
pub data Process : Type 0 where
  process_host process_connection process_content_length process_sec_websocket_key : Process
  process_sec_websocket_key_for_safari process_sec_websocket_protocol : Process
  process_header_line process_unique_header_line : Process

-- `stu_http_header_t`
pub record Entry : Type 0 where
  pub name : List ℕ
  pub field : Field
  pub handler : Process

abbrev entry : List ℕ → Field → Process → Entry
entry name field handler = record { name = name; field = field; handler = handler }

abbrev pub headers_in : List Entry
headers_in =
    entry (b'H' ∷ b'o' ∷ b's' ∷ b't' ∷ []) host process_host
    ∷ entry (b'U' ∷ b's' ∷ b'e' ∷ b'r' ∷ b'-' ∷ b'A' ∷ b'g' ∷ b'e' ∷ b'n' ∷ b't' ∷ []) user_agent
        process_header_line
    ∷ entry (b'A' ∷ b'c' ∷ b'c' ∷ b'e' ∷ b'p' ∷ b't' ∷ []) accept process_header_line
    ∷ entry
        (b'A' ∷ b'c' ∷ b'c' ∷ b'e' ∷ b'p' ∷ b't' ∷ b'-' ∷ b'L' ∷ b'a' ∷ b'n' ∷ b'g' ∷ b'u' ∷ b'a'
          ∷ b'g' ∷ b'e' ∷ [])
        accept_language process_header_line
    ∷ entry
        (b'C' ∷ b'o' ∷ b'n' ∷ b't' ∷ b'e' ∷ b'n' ∷ b't' ∷ b'-' ∷ b'L' ∷ b'e' ∷ b'n' ∷ b'g' ∷ b't'
          ∷ b'h' ∷ [])
        content_length process_content_length
    ∷ entry (b'C' ∷ b'o' ∷ b'n' ∷ b't' ∷ b'e' ∷ b'n' ∷ b't' ∷ b'-' ∷ b'T' ∷ b'y' ∷ b'p' ∷ b'e' ∷ [])
        content_type process_header_line
    ∷ entry
        (b'S' ∷ b'e' ∷ b'c' ∷ b'-' ∷ b'W' ∷ b'e' ∷ b'b' ∷ b's' ∷ b'o' ∷ b'c' ∷ b'k' ∷ b'e' ∷ b't'
          ∷ b'-' ∷ b'K' ∷ b'e' ∷ b'y' ∷ [])
        sec_websocket_key process_sec_websocket_key
    ∷ entry
        (b'S' ∷ b'e' ∷ b'c' ∷ b'-' ∷ b'W' ∷ b'e' ∷ b'b' ∷ b's' ∷ b'o' ∷ b'c' ∷ b'k' ∷ b'e' ∷ b't'
          ∷ b'-' ∷ b'K' ∷ b'e' ∷ b'y' ∷ b'1' ∷ [])
        sec_websocket_key1 process_sec_websocket_key_for_safari
    ∷ entry
        (b'S' ∷ b'e' ∷ b'c' ∷ b'-' ∷ b'W' ∷ b'e' ∷ b'b' ∷ b's' ∷ b'o' ∷ b'c' ∷ b'k' ∷ b'e' ∷ b't'
          ∷ b'-' ∷ b'K' ∷ b'e' ∷ b'y' ∷ b'2' ∷ [])
        sec_websocket_key2 process_sec_websocket_key_for_safari
    ∷ entry (b'(' ∷ b'K' ∷ b'e' ∷ b'y' ∷ b'3' ∷ b')' ∷ []) sec_websocket_key3
        process_sec_websocket_key_for_safari
    ∷ entry
        (b'S' ∷ b'e' ∷ b'c' ∷ b'-' ∷ b'W' ∷ b'e' ∷ b'b' ∷ b's' ∷ b'o' ∷ b'c' ∷ b'k' ∷ b'e' ∷ b't'
          ∷ b'-' ∷ b'P' ∷ b'r' ∷ b'o' ∷ b't' ∷ b'o' ∷ b'c' ∷ b'o' ∷ b'l' ∷ [])
        sec_websocket_protocol process_sec_websocket_protocol
    ∷ entry
        (b'S' ∷ b'e' ∷ b'c' ∷ b'-' ∷ b'W' ∷ b'e' ∷ b'b' ∷ b's' ∷ b'o' ∷ b'c' ∷ b'k' ∷ b'e' ∷ b't'
          ∷ b'-' ∷ b'V' ∷ b'e' ∷ b'r' ∷ b's' ∷ b'i' ∷ b'o' ∷ b'n' ∷ [])
        sec_websocket_version process_unique_header_line
    ∷ entry
        (b'S' ∷ b'e' ∷ b'c' ∷ b'-' ∷ b'W' ∷ b'e' ∷ b'b' ∷ b's' ∷ b'o' ∷ b'c' ∷ b'k' ∷ b'e' ∷ b't'
          ∷ b'-' ∷ b'E' ∷ b'x' ∷ b't' ∷ b'e' ∷ b'n' ∷ b's' ∷ b'i' ∷ b'o' ∷ b'n' ∷ b's' ∷ [])
        sec_websocket_extensions process_unique_header_line
    ∷ entry (b'U' ∷ b'p' ∷ b'g' ∷ b'r' ∷ b'a' ∷ b'd' ∷ b'e' ∷ []) upgrade process_header_line
    ∷ entry (b'C' ∷ b'o' ∷ b'n' ∷ b'n' ∷ b'e' ∷ b'c' ∷ b't' ∷ b'i' ∷ b'o' ∷ b'n' ∷ []) connection
        process_connection
    ∷ []

-- The loop of `stu_http_init_headers_in_hash` over the entries from number `i` on, whose number
-- stands for their address; memory is always granted, and all of these names fit `data`.
unfoldable pub insert_entries : ℕ → List Entry → Hash → Hash
insert_entries i [] h = h
insert_entries i (e ∷ es) h =
    insert_entries (i + 1) es (insert_locked (λ n. true) true true h (map tolower e.name) i).hash

-- STU_HTTP_HEADERS_MAX_SIZE
abbrev pub headers_max_size : ℕ
headers_max_size = 32

unfoldable pub headers_in_hash : Hash
unfolding insert_entries
headers_in_hash = insert_entries 0 headers_in (init headers_max_size 0)

abbrev entry_at : Option ℕ → Option Entry
entry_at none = none
entry_at (some i) = get_elem? headers_in i

-- `stu_hash_key` and `stu_hash_find_locked` on a name in lower case.
unfoldable pub find_header : List ℕ → Option Entry
unfolding headers_in_hash
find_header lowcase_key = entry_at (find_locked headers_in_hash (hash_key lowcase_key) lowcase_key)
