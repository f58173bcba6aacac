-- ===== src/Lib.antt =====
-- The parts of chatease-server that turn bytes into requests and frames, and the data structures
-- under them, all from src/cn/studease/core. A connection is first an HTTP one: stu_http_request.c
-- gives what it has read to stu_http_parse_request_line, then line by line to
-- stu_http_parse_header_line, and looks each header up by its hash. After the upgrade, whose keys
-- go through stu_base64.c, stu_websocket_request.c gives the bytes to stu_websocket_parse_frame
-- and sends with stu_websocket_encode_frame.
--
-- Common holds what the modules share. A pointer is an address in a flat memory (Common/Memory:
-- Mem is the byte at each address, Str is stu_str_t). Every parser is one loop over the bytes of a
-- buffer with a switch on its state; Common/Scan is that loop, for a step that says whether to go
-- on, to stop with a return code, or to wait for more bytes (the "goto again" of
-- stu_websocket_parse.c). The loop runs on fuel: every round consumes a byte, so as many rounds as
-- the buffer has bytes left are enough, and more of them change nothing (scan_fuel in
-- Common/Scan/Resume). Common/Scan/Call adds what a return writes to the request,
-- Common/Scan/Along and Common/Scan/Invariant the ways to reason along the bytes and about all of
-- them.
--
-- Websocket: Frame has stu_websocket_frame_t, stu_websocket_request_t (frames_in as the list of
-- the frames of a chain) and the states; Parse is stu_websocket_parse.c, one step function for
-- each case of the switch; Encode is stu_websocket_encode_frame of stu_websocket_request.c. The
-- allocation of following frames is in Session/Process.
--
-- HttpParse: RequestLine, StatusLine and HeaderLine are the three functions of stu_http_parse.c of
-- those names, one step function for each long case. On STU_ERROR they return before they store
-- the position and the state, which "leave" writes out. A local pointer that a later call reads
-- without having set it gives the code rc_undefined, which the source does not have.
--
-- Base64 is stu_base64.c: the two tables, the encoder and the decoder on lists of bytes. Hash/Key
-- has the key functions of stu_hash.c and stu_tolower of stu_string.h, in 64-bit arithmetic.
--
-- Upstream/Balance is the choice of a server in stu_upstream.c, which stu_upstream_create and
-- stu_upstream_next both contain; its loop has fuel for one round over the list, which is enough
-- when each server has a weight. Time/Gmtime is stu_gmtime of stu_time.c, with years that begin in
-- March as in the source; Time/Calendar is the calendar it is compared with, Time/Era is about its
-- years and Time/Date and Time/Clock about its dates and seconds. HttpParse/StatusLine is
-- stu_http_parse_status_line, by which stu_http_upstream.c reads answers; atol of the C library is
-- a parameter. Hash/Table is stu_hash.c: elements are known by number, so that the two queues that
-- link an element share it; Hash/Lookup, Hash/Insert and Hash/Remove are about what a search
-- finds, Hash/Reached about the tables that can be made. Memory that hash->free got back is taken
-- to keep its contents until the loop of stu_hash_remove_locked, which still reads it, is over.
-- Strings/Copy is stu_strncpy of stu_string.c and the test for equality that stu_strncmp is used
-- for.
--
-- Json is stu_json.c. Value has the trees: what item->type and item->value say, with the children
-- of an array or an object in their order. Print is stu_json_stringify, Parse is stu_json_parse,
-- Duplicate is stu_json_duplicate; each state machine has the states of the source. A double is
-- known by the number of its bits, and the functions of the C library on doubles are the fields of
-- Doubles, a parameter. Memory is always granted. The parser calls itself, so all of it runs on
-- one fuel; Ends shows how much is enough. The result "unset" is a string whose length or place
-- was never written, which the source returns as if it were done.
--
-- Channel is stu_channel.c on top of Hash/Table: Cycle has the table of channels, the channels
-- (each with its own table of users) and the connections; stu_channel_insert is insert,
-- stu_channel_remove_locked is remove. Channels and connections are known by number, and "live"
-- says which channels are made and not freed. Locks has the places of threads between the calls of
-- stu_mutex_lock and stu_mutex_unlock, for the lock of the channels and the one of a single table
-- of users. user_maximum is the one for 64-bit words.
--
-- Strings/Unescape is stu_unescape_uri and Strings/Compare is stu_strncasecmp of stu_string.c;
-- Strings/Escaped describes the escaped texts. User is the role and the interval of stu_user.c.
--
-- Queue has the operations of stu_queue.h as assignments to the links of nodes; Queue/Sequence and
-- Queue/Removal are about the sequence that the links stand for, and Queue/Refines puts the
-- operations together. LinkedList is stu_list.c on top of the links. The other modules take a
-- queue as its sequence.
--
-- Session is stu_websocket_request.c. Receive is stu_websocket_wait_request_handler, for the
-- answers that recv gives one after the other; Process is stu_websocket_process_request, one round
-- of its loop on top of Websocket/Parse, for whatever the functions that it calls do (Handlers);
-- its fuel is the number of bytes to read and two, which is enough. Answer is
-- stu_websocket_analyze_request on the tree that Json/Parse gives, and the error objects of
-- stu_websocket_finalize_request; Item, Key and Status have the lookup of fields, the words of
-- stu_protocol.c and the codes. Wire is stu_websocket_request_handler on top of Websocket/Encode,
-- and Serve puts the parts together. The number of a request is read from its item after the
-- request was freed; what that gives is a parameter, as is what the value of a string or of a list
-- reads as a double. The time at each look at the clock is a parameter too. A text that does not
-- fit the array of 1024 bytes in which the loop puts the payloads together is the outcome overrun;
-- the arrays for the answers have no end in the model, and the theorems say what has to fit.
--
-- HttpRequest is stu_http_request.c. Table has the table of headers and the hash that stu_http.c
-- makes of it, with Hash/Table; Handlers are the functions that process one header, on the
-- pointers and the lists of headers; Lines is stu_http_process_request_headers on top of
-- HttpParse/HeaderLine, whose fuel is the number of bytes to read and one, which is enough. Reply
-- has what recv may bring, the tests in front of the upgrade, and the bytes of the answer. The
-- digest and atol are parameters, memory is always granted, and STU_HTTP_GZIP is not defined. A
-- header is kept with the bytes of its key and value as they were when it was read.
--
-- Timer is stu_timer.c over the interface Tree, the calls of stu_rbtree.c, which is the tree of
-- nginx; TreeLaws is what the timers rely on: a node that is in the tree can be taken out. That
-- the tree fulfils it is not shown. Events are known by number, times are 64-bit numbers whose
-- differences are read as signed, and the handler of an event is a note in a list. The loop of
-- stu_timer_expire runs on fuel: with such a tree, one round more than it has nodes is enough.
--
-- Bytes are natural numbers; theorems that need them below 256 say so. Sizes and addresses are
-- unbounded, and the arithmetic of stored machine integers keeps its wrap-around. Not modelled:
-- sockets, events, processes, locks, logs and the allocator, which are calls of the operating
-- system, and above the parsers the connections to upstreams and the configuration.
pub mod Common
pub mod Base64
pub mod Websocket
pub mod HttpParse
pub mod Strings
pub mod Hash
pub mod Time
pub mod Upstream
pub mod Json
pub mod Channel
pub mod User
pub mod Queue
pub mod Session
pub mod HttpRequest
pub mod Timer
pub mod LinkedList
