-- ===== src/Session/Tests.antt =====
-- One user of two sends a message, and the theorems at it.
use chatease_server.Common.{
  ℕ, ◌+◌, ◌-◌, ◌^◌, ◌≤◌, ◌<◌, ◌≡◌, ◌≢◌, ◌↔◌, refl, Bool, true, false, none, some, arith, List, [],
  ◌∷◌, ◌++◌, ◌==◌, inl, inr, length, All, if◌then◌else◌, within,
}
use chatease_server.Hash.Table.{Hash}
use chatease_server.Json.Duplicate.{copy_text, duplicate, duplicate_items}
use chatease_server.Json.Parse.{Root, tree, null_pointer}
use chatease_server.Json.Print.{Doubles, print_value, print_string, print_number}
use chatease_server.Json.Printable.{ReadsBack, IsPrintable}
use chatease_server.Json.Strings.{IsPlain, PlainByte}
use chatease_server.Json.Value.{Text, Items, string, object, nil, cons, add_item, c_string}
use chatease_server.Session.Answer.{Speaker, Reading, req_by, message_fields, answer_object}
use chatease_server.Session.Chat.{IsPassedOn, message-IsPassedOn}
use chatease_server.Session.Delivered.{fields, IsDelivered, analyze_text-IsDelivered}
use chatease_server.Session.Granted.{IsGranted, IsAccepted, answer_object_iff}
use chatease_server.Session.Item.{find_item, has_key, as_string, as_object, word}
use chatease_server.Session.Key
use chatease_server.Session.Process.Ends.{IsOver, process_request_ends}
use chatease_server.Session.Process.Frames.{message, analyze_all, stream, IsEmptied, IsSpent}
use chatease_server.Session.Process.{Handlers, process_request}
use chatease_server.Session.Rate.{times_sent, AreSpaced, times_sent-AreSpaced}
use chatease_server.Session.Receive.Messages.{
  MaskingKey, client_frames, IsSendable, connected, wait_request_handler-messages,
}
use chatease_server.Session.Receive.{bytes, interrupted, wait_request_handler}
use chatease_server.Session.Serve.{World, Serving, analyze_text, serving}
use chatease_server.Strings.Copy.{same_bytes}
use chatease_server.Websocket.Frame.{Frame, empty_frame}

-- A C library for the numbers of one digit.
abbrev digits : Doubles
digits = record {
  is_zero = λ d. d == 0;
  is_int = λ d. true;
  is_infinite = λ d. false;
  is_whole = λ d. false;
  is_extreme = λ d. false;
  print_int = λ d. (b'0' + d) ∷ [];
  print_whole = λ d. [];
  print_exp = λ d. [];
  print_fixed = λ d. [];
  strtod = λ m p. if within b'0' b'9' (m p) then (m p - b'0', 1) else (0, 0);
}

-- Small numbers stand for themselves; what was freed still reads as zero.
abbrev plain_reading : Reading
plain_reading = record {
  of_int = λ i. i;
  minus_one = 999;
  at_least_zero = λ d. if d == 999 then false else true;
  inside = λ v. 0;
  freed = λ v. some 0;
}

abbrev hi : Text
hi = word (b'H' ∷ b'i' ∷ [])

abbrev room : Items
room = cons (word Key.id) (string (word (b'a' ∷ []))) nil

abbrev request_fields : Items
request_fields = cons (word Key.cmd) (string (word Key.text_word)) (
    cons (word Key.data') (string hi) (
      cons (word Key.type) (string (word (b'm' ∷ []))) (cons (word Key.channel) (object room) nil)))

abbrev speaker : Speaker
speaker = record {
  id = word (b'7' ∷ []);
  name = word (b'A' ∷ b'n' ∷ []);
  icon = word (b'i' ∷ []);
  role = 1;
  interval = 1000;
  active = 0;
  state = 0;
}

-- Two users, whose connections have the descriptors 5 and 6.
abbrev two_users : Hash
two_users = record {
  elts = λ e. record { chars = []; len = 0; key_hash = 0; value = e };
  next = 2;
  buckets = λ i. none;
  keys = 0 ∷ 1 ∷ [];
  size = 1;
  length = 2;
  calls = 0;
}

abbrev world : World
world = record {
  doubles = digits;
  reading = plain_reading;
  clock = λ n. (5, 0);
  users = two_users;
  fd_of = λ c. c + 5;
  self = 5;
}

abbrev quiet : Serving
quiet = record { speaker = speaker; looks = 0; sent = []; is_closed = false }

granted_request : IsGranted speaker 5000 request_fields
unfolding find_item has_key as_string as_object same_bytes
granted_request = record {
  cmd = (word Key.cmd, word Key.text_word);
  data' = (word Key.data', hi);
  type = (word Key.type, word (b'm' ∷ []));
  channel = (word Key.channel, room);
  late = omega arith;
  cmd_is = refl;
  allowed = inl (refl, omega arith);
  data_is = refl;
  type_is = refl;
  channel_is = refl;
}

read_absent : req_by plain_reading plain_reading.freed (find_item Key.req request_fields) ≢ none
unfolding find_item has_key req_by same_bytes
read_absent e = ground (arith, e)

answer_object_iff_example :
    IsGranted speaker 5000 request_fields
    ↔ IsAccepted plain_reading speaker 5000 request_fields
        (answer_object plain_reading speaker 5000 request_fields)
answer_object_iff_example = answer_object_iff plain_reading speaker 5000 request_fields read_absent

one-ReadsBack : ReadsBack digits 1
unfolding print_number
one-ReadsBack = record { starts = refl; reads = λ m p at ends. rw at.0 refl }

request-IsPrintable : IsPrintable digits (object request_fields)
request-IsPrintable = (
  record { plain = ground arith; whole = refl },
  record { plain = ground arith; whole = refl },
  (
    record { plain = ground arith; whole = refl },
    record { plain = ground arith; whole = refl },
    (
      record { plain = ground arith; whole = refl },
      record { plain = ground arith; whole = refl },
      (
        record { plain = ground arith; whole = refl },
        (
          record { plain = ground arith; whole = refl },
          record { plain = ground arith; whole = refl },
          tt,
        ),
        tt,
      ),
    ),
  ),
)

abbrev sent_fields : Items
sent_fields = fields world 1 quiet request_fields granted_request

word-IsPlain : (cs : List ℕ) → All PlainByte cs → IsPlain (word cs)
word-IsPlain cs h = record { plain = h; whole = refl }

sent-IsPrintable : IsPrintable digits (object sent_fields)
unfolding message_fields copy_text c_string add_item duplicate duplicate_items find_item has_key
    same_bytes granted_request
sent-IsPrintable = (
  word-IsPlain _ (ground arith),
  word-IsPlain _ (ground arith),
  (
    word-IsPlain _ (ground arith),
    word-IsPlain _ (ground arith),
    (
      word-IsPlain _ (ground arith),
      word-IsPlain _ (ground arith),
      (
        word-IsPlain _ (ground arith),
        (word-IsPlain _ (ground arith), word-IsPlain _ (ground arith), tt),
        (
          word-IsPlain _ (ground arith),
          (
            word-IsPlain _ (ground arith),
            word-IsPlain _ (ground arith),
            (
              word-IsPlain _ (ground arith),
              word-IsPlain _ (ground arith),
              (
                word-IsPlain _ (ground arith),
                word-IsPlain _ (ground arith),
                (word-IsPlain _ (ground arith), one-ReadsBack, tt),
              ),
            ),
          ),
          tt,
        ),
      ),
    ),
  ),
)

sent_fits : 10 + length (print_value digits (object sent_fields)) ≤ 1024
unfolding message_fields copy_text c_string add_item duplicate duplicate_items find_item has_key
    same_bytes print_value print_string print_number granted_request
sent_fits = omega arith

request_fits : length (print_value digits (object request_fields)) < 2 ^ 64
unfolding print_value print_string
request_fits = omega arith

analyze_text-IsDelivered_example :
    IsDelivered world 1 quiet request_fields sent_fields
      (analyze_text world 1 (print_value digits (object request_fields)) quiet)
analyze_text-IsDelivered_example =
    analyze_text-IsDelivered world 1 quiet request_fields (omega arith) request-IsPrintable
      request_fits read_absent granted_request sent-IsPrintable sent_fits

-- Three messages: the second comes too early, and the third is no JSON.
abbrev asked : List (ℕ × Root)
asked =
    (5000, tree (object request_fields))
    ∷ (5500, tree (object request_fields))
    ∷ (7000, null_pointer)
    ∷ []

times_sent-AreSpaced_example : AreSpaced 1000 0 (times_sent plain_reading speaker asked)
times_sent-AreSpaced_example =
    times_sent-AreSpaced plain_reading speaker asked (omega arith) (omega arith)
      (omega arith, (omega arith, (omega arith, tt)))

-- Handlers that keep the texts.
abbrev keep_texts : Handlers (List (List ℕ))
keep_texts = record {
  analyze = λ op text s. some (s ++ text ∷ []);
  finalize = λ status op s. s;
  close = λ s. s;
}

abbrev key : MaskingKey
key = record { k0 = 1; k1 = 2; k2 = 3; k3 = 4 }

abbrev text_hi : List ℕ
text_hi = b'H' ∷ b'i' ∷ []

abbrev text_ok : List ℕ
text_ok = b'o' ∷ b'k' ∷ []

abbrev always : ℕ → Bool
always n = true

-- A frame of an earlier message, whose payload was taken.
abbrev taken : Frame
taken = record empty_frame {
  fin = 1;
  opcode = 1;
  payload_data = record { start = 9; last = 9; end = 9 };
}

taken-IsSpent : All IsSpent (taken ∷ [])
taken-IsSpent = (inl (refl, refl), tt)

two_analyzed :
    analyze_all keep_texts (message 1 text_hi ∷ message 2 text_ok ∷ []) []
    ≡ some (text_hi ∷ text_ok ∷ [])
unfolding analyze_all
two_analyzed = refl

wait_request_handler-messages_example : IsEmptied keep_texts always 16 (text_hi ∷ text_ok ∷ []) (
    wait_request_handler keep_texts always
      (connected keep_texts always 16)
      (interrupted
        ∷ bytes (client_frames ((key, message 1 text_hi) ∷ (key, message 2 text_ok) ∷ []))
        ∷ [])
      (stream keep_texts always 1 empty_frame (taken ∷ []) (λ a. 0) 16 16 16 0 []))
wait_request_handler-messages_example =
    wait_request_handler-messages keep_texts always (key, message 1 text_hi)
      ((key, message 2 text_ok) ∷ []) 1 empty_frame (taken ∷ []) (λ a. 0) 16 16 0 [] []
      (text_hi ∷ text_ok ∷ []) (omega arith) taken-IsSpent
      (
        (inl refl, omega arith, omega arith, ground arith, ground arith),
        ((inr refl, omega arith, omega arith, ground arith, ground arith), tt),
      )
      two_analyzed

process_request_ends_example : IsOver keep_texts always (
    process_request keep_texts always true
      (stream keep_texts always 1 empty_frame (taken ∷ []) (λ a. 0) 16 16 40 0 []))
process_request_ends_example =
    process_request_ends keep_texts always true
      (stream keep_texts always 1 empty_frame (taken ∷ []) (λ a. 0) 16 16 40 0 [])

request-IsSendable : IsSendable (key, message 1 (print_value digits (object request_fields)))
unfolding print_value print_string
request-IsSendable = (inl refl, omega arith, omega arith, ground arith, ground arith)

message-IsPassedOn_example : IsPassedOn world always key 1 quiet request_fields 16 sent_fields (
    wait_request_handler
      (serving world)
      always
      (connected (serving world) always 16)
      (interrupted
        ∷ bytes (client_frames ((key, message 1 (print_value digits (object request_fields))) ∷ []))
        ∷ [])
      (stream (serving world) always 1 empty_frame (taken ∷ []) (λ a. 0) 16 16 16 0 quiet))
message-IsPassedOn_example =
    message-IsPassedOn world always key 1 quiet request_fields 1 empty_frame (taken ∷ []) (λ a. 0)
      16 16 0 (omega arith) taken-IsSpent request-IsSendable request-IsPrintable read_absent
      granted_request sent-IsPrintable sent_fits
