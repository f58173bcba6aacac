-- ===== src/Session/Delivered.antt =====
-- A message on its way from the text of one user to all users of the channel.
use chatease_server.Common.Memory.{Holds-get}
use chatease_server.Common.{
  ℕ, zero, suc, ◌+◌, ◌*◌, ◌^◌, ◌≤◌, ◌<◌, ◌≡◌, ◌≢◌, refl, Option, none, some, arith, List, [], ◌∷◌,
  ◌++◌, map, length, get_or, All, ap,
}
use chatease_server.Json.Parse.{tree, parse}
use chatease_server.Json.Print.{print_value}
use chatease_server.Json.Printable.{IsPrintable}
use chatease_server.Json.RoundTrip.{parse-print_value}
use chatease_server.Json.Value.{Items, object}
use chatease_server.Session.Answer.{millis, req_by, message_fields, analyze_request}
use chatease_server.Session.Granted.{IsGranted, granted-IsAnswered}
use chatease_server.Session.Item.{find_item}
use chatease_server.Session.Key
use chatease_server.Session.Serve.{World, Serving, stacked, send_tree, answered, analyze_text}
use chatease_server.Session.Status
use chatease_server.Session.Wire.Arrives.{ReadsAs, request_handler-ReadsAs}
use chatease_server.Session.Wire.{Send, descriptors}

get_or_behind : (xs : List ℕ) (i : ℕ) → length xs ≤ i → get_or xs i 0 ≡ 0
get_or_behind [] i h = refl
get_or_behind (x ∷ xs) zero h = absurd (omega arith)
get_or_behind (x ∷ xs) (suc i) h = get_or_behind xs i (omega arith)

module _ (w : World) (op : ℕ) (s : Serving) (xs : Items) where
  open w use {doubles, reading, clock, users, fd_of}

  abbrev text : List ℕ
  text = print_value doubles (object xs)

  abbrev pub now : ℕ
  now = millis (clock s.looks).0 (clock s.looks).1

  text_parsed :
      IsPrintable doubles (object xs)
      → length text < 2 ^ 64
      → parse doubles (stacked w text) (3 * length text + 6) 0 (length text) ≡ tree (object xs)
  text_parsed ok small =
      parse-print_value doubles (stacked w text) (object xs) (3 * length text + 6) 0 (length text)
        ok (Holds-get (stacked w text) 0 text (λ j lt. ap (λ i. get_or text i 0) (omega arith)))
        (get_or_behind text (0 + length text) (omega arith)) (omega arith) small (omega arith)

  -- The fields of the object that is made of a message.
  abbrev pub fields : IsGranted s.speaker now xs → Items
  fields g =
      message_fields reading s.speaker g.cmd.1 (find_item Key.req xs) g.data' g.type g.channel

  -- One frame was sent for each user of the channel, in order, in which a client reads the object.
  abbrev pub IsDelivered : Items → Option Serving → Type 0
  IsDelivered body out =
      (sends : List Send) × (out
        ≡ some (record s {
          speaker = record s.speaker { active = now };
          looks = s.looks + 1;
          sent = s.sent ++ sends;
        }))
      × (map (λ x. x.fd) sends ≡ descriptors fd_of users)
      × All (λ x. ReadsAs doubles op body x.bytes) sends

  -- When the text is the printed form of an object that can be read back, that is shorter than
  -- 2^64 bytes, comes late enough and has all that a message needs, when the number of the request
  -- can still be read, and when the object made of the message can be read back too and fits the
  -- array: the analysis sends one frame with the opcode of the message for each user of the
  -- channel, in the order of the list of users, and nothing else. Wherever a client has the bytes
  -- of its frame with a zero behind them, its frame parser and, with fuel of 4096 or more, its JSON
  -- parser read that object.
  pub analyze_text-IsDelivered :
      op < 16
      → IsPrintable doubles (object xs)
      → length (print_value doubles (object xs)) < 2 ^ 64
      → req_by reading reading.freed (find_item Key.req xs) ≢ none
      → (g : IsGranted s.speaker now xs) → IsPrintable doubles (object (fields g))
      → 10 + length (print_value doubles (object (fields g))) ≤ 1024
      → IsDelivered (fields g) (analyze_text w op (print_value doubles (object xs)) s)
  unfolding analyze_text answered send_tree analyze_request
  analyze_text-IsDelivered small ok len read g ok' room =
      let reach =
        request_handler-ReadsAs doubles op (fields g) small ok' room Status.ok w.self
          (descriptors fd_of users) in
      let answer = granted-IsAnswered reading s.speaker now xs g read in
      (_, rw (text_parsed ok len, answer) refl, reach.0, reach.1)
