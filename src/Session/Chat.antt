-- ===== src/Session/Chat.antt =====
-- A chat message from the bytes that one client sends to the objects that all of them read.
use chatease_server.Common.{
  ℕ, ◌+◌, ◌^◌, ◌≤◌, ◌<◌, ◌≡◌, ◌≢◌, refl, Bool, none, some, arith, List, [], ◌∷◌, ◌++◌, map, length,
  All,
}
use chatease_server.Json.Print.{print_value}
use chatease_server.Json.Printable.{IsPrintable}
use chatease_server.Json.Value.{Items, object}
use chatease_server.Session.Answer.{req_by}
use chatease_server.Session.Delivered.{now, fields, IsDelivered, analyze_text-IsDelivered}
use chatease_server.Session.Granted.{IsGranted}
use chatease_server.Session.Item.{find_item}
use chatease_server.Session.Key
use chatease_server.Session.Process.Frames.{message, analyze_all, stream, IsEmptied, IsSpent}
use chatease_server.Session.Receive.Messages.{
  MaskingKey, client_frames, IsSendable, connected, wait_request_handler-messages,
}
use chatease_server.Session.Process.{Ended}
use chatease_server.Session.Receive.{bytes, interrupted, wait_request_handler}
use chatease_server.Session.Serve.{World, Serving, serving, analyze_text}
use chatease_server.Session.Wire.Arrives.{ReadsAs}
use chatease_server.Session.Wire.{Send, descriptors}
use chatease_server.Websocket.Frame.{Frame}
use chatease_server.Common.Memory.{Mem}

module _ (w : World) (granted : ℕ → Bool) (key : MaskingKey) (op : ℕ) (s : Serving)
    (xs : Items) where
  open w use {doubles, reading, users, fd_of}

  abbrev text : List ℕ
  text = print_value doubles (object xs)

  -- The buffer is empty again, and what was sent besides is one frame for each user, in order, in
  -- which a client reads the object.
  abbrev pub IsPassedOn : ℕ → Items → Ended Serving → Type 0
  IsPassedOn start body out =
      (s' : Serving) × (sends : List Send) × IsEmptied (serving w) granted start s' out
      × (s'.sent ≡ s.sent ++ sends)
      × (map (λ x. x.fd) sends ≡ descriptors fd_of users)
      × All (λ x. ReadsAs doubles op body x.bytes) sends

  analyzed_once :
      (body : Items)
      → IsDelivered w op s xs body (analyze_text w op text s)
      → (s' : Serving) × (sends : List Send) × (analyze_all (serving w) (message op text ∷ []) s
          ≡ some s')
        × (s'.sent ≡ s.sent ++ sends)
        × (map (λ x. x.fd) sends ≡ descriptors fd_of users)
        × All (λ x. ReadsAs doubles op body x.bytes) sends
  unfolding analyze_all
  analyzed_once body d =
      let s' : Serving = record s {
        speaker = record s.speaker { active = now w op s xs };
        looks = s.looks + 1;
        sent = s.sent ++ d.0;
      } in
      (s', d.0, rw (analyze_all, d.1) refl, refl, d.2, d.3)

  -- On an open connection of a user with a channel, with an empty buffer at an address that is not
  -- zero and a request that expects a new frame, wherever it is in its chain, which after its first
  -- frame has only frames that add nothing, as those of earlier messages are, recv is interrupted once and then gives a masked
  -- frame, text or binary, of 1 to 125 bytes. When these are the printed form of an object that can
  -- be read back, that comes late enough and has all that a message needs, when the number of the
  -- request can still be read, and when the object made of the message can be read back too and
  -- fits the array: then besides what was sent before, one frame is sent for each user of the
  -- channel, in the order of the list of users; wherever a client has the bytes of its frame with a
  -- zero behind them, its frame parser and, with fuel of 4096 or more, its JSON parser read that
  -- object; and the loop waits for bytes with the buffer empty again, a new frame expected, and no
  -- frame of the chain that adds anything.
  pub message-IsPassedOn :
      (k : ℕ) (f : Frame) (fs : List Frame) (m : Mem) (start base calls : ℕ)
      → 0 < start
      → All IsSpent fs
      → IsSendable (key, message op text)
      → IsPrintable doubles (object xs)
      → req_by reading reading.freed (find_item Key.req xs) ≢ none
      → (g : IsGranted s.speaker (now w op s xs) xs)
      → IsPrintable doubles (object (fields w op s xs g))
      → 10 + length (print_value doubles (object (fields w op s xs g))) ≤ 1024
      → IsPassedOn start (fields w op s xs g) (
          wait_request_handler
            (serving w)
            granted
            (connected (serving w) granted base)
            (interrupted ∷ bytes (client_frames ((key, message op text) ∷ [])) ∷ [])
            (stream (serving w) granted k f fs m start start start calls s))
  message-IsPassedOn k f fs m start base calls address spent sendable ok read g ok' room =
      let small : op < 16 = ground (arith, sendable.0) in
      let fits : length text < 2 ^ 64 = omega (arith, sendable.2) in
      let one =
        analyzed_once (fields w op s xs g)
          (analyze_text-IsDelivered w op s xs small ok fits read g ok' room) in
      let read_all =
        wait_request_handler-messages (serving w) granted (key, message op text) [] k f fs m start
          base calls [] s one.0 address spent (sendable, tt) one.2 in
      (one.0, one.1, read_all, one.3, one.4, one.5)
