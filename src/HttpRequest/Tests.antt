-- ===== src/HttpRequest/Tests.antt =====
-- Headers of a request, and the theorems at them.
use chatease_server.Common.{ℕ, ◌≡◌, ◌≢◌, refl, none, [], ◌∷◌, get_or, true, false, List}
use chatease_server.Hash.Key.{hash, hash_key, hash_key_from, hash_key_lc, hash_key_lc_from, tolower}
use chatease_server.HttpParse.HeaderLine.{sw_start}
use chatease_server.HttpRequest.Handlers.{Headers, Library, connection_close, place as place_of}
use chatease_server.HttpRequest.Lines.Ends.{process_request_headers_end}
use chatease_server.HttpRequest.Lines.First.{
  AreFirst, belongs, EndsFirst, first_of, process_request_headers-EndsFirst,
}
use chatease_server.HttpRequest.Table.{host, find_header, headers_in_hash, insert_entries}
use chatease_server.Hash.Table.{
  find_locked, find_elt, is_key, insert_locked, insert_hashed, place, append, init, link,
}
use chatease_server.Strings.Copy.{strncpy, copy_loop, same_bytes}
use chatease_server.HttpRequest.Lines.{Reader, Ended, process_request_headers}

-- A digest and an atol for the tests.
abbrev library : Library
library = record { sha1 = λ text. text; atol = λ text. 0 }

abbrev no_headers : Headers
no_headers = record {
  slot = λ f. none;
  all = [];
  content_length_n = 0;
  connection_type = connection_close;
  sec_websocket_accept = none;
  protocol = none;
  out = [];
}

no_headers-AreFirst : AreFirst no_headers
unfolding first_of
no_headers-AreFirst f = refl

-- "Host: a" and "Host: b", each with CR and LF, and an empty line.
abbrev two_hosts : List ℕ
two_hosts =
    b'H' ∷ b'o' ∷ b's' ∷ b't' ∷ b':' ∷ b' ' ∷ b'a' ∷ b'\r' ∷ b'\n' ∷ b'H' ∷ b'o' ∷ b's' ∷ b't'
    ∷ b':' ∷ b' ' ∷ b'b' ∷ b'\r' ∷ b'\n' ∷ b'\r' ∷ b'\n' ∷ []

abbrev start : Reader
start = record {
  parser = record {
    state = sw_start;
    header_hash = 0;
    lowcase_index = 0;
    lowcase_header =
        0 ∷ 0 ∷ 0 ∷ 0 ∷ 0 ∷ 0 ∷ 0 ∷ 0 ∷ 0 ∷ 0 ∷ 0 ∷ 0 ∷ 0 ∷ 0 ∷ 0 ∷ 0 ∷ 0 ∷ 0 ∷ 0 ∷ 0 ∷ 0 ∷ 0 ∷ 0
        ∷ 0 ∷ 0 ∷ 0 ∷ 0 ∷ 0 ∷ 0 ∷ 0 ∷ 0 ∷ 0 ∷ [];
    invalid_header = false;
    header_name_start = 0;
    header_name_end = 0;
    header_start = 0;
    header_end = 0;
  };
  mem = λ a. get_or two_hosts a 0;
  last = 0;
  headers = no_headers;
}

process_request_headers-EndsFirst_example :
    EndsFirst library (process_request_headers library 20 start)
process_request_headers-EndsFirst_example =
    process_request_headers-EndsFirst library 20 start no_headers-AreFirst

process_request_headers_end_example : process_request_headers library 20 start ≢ Ended.spent
process_request_headers_end_example = process_request_headers_end library 20 start

-- The hash of the headers finds a name.
host_found : belongs host (find_header (b'h' ∷ b'o' ∷ b's' ∷ b't' ∷ [])) ≡ true
unfolding find_header headers_in_hash insert_entries find_locked find_elt is_key insert_locked
    insert_hashed place append init link hash_key hash_key_from hash strncpy copy_loop same_bytes
    tolower place_of hash_key_lc hash_key_lc_from
host_found = refl
