-- ===== src/Session/Receive/Messages.antt =====
-- Messages that a client sends at once.
use mathlib.Core.Path.{subst}
use chatease_server.Common.Memory.{Mem, Holds, Holds-append, Holds-get}
use chatease_server.Common.{
  ℕ, zero, suc, ◌+◌, ◌%◌, ◌<◌, ◌≡◌, ◌⊎◌, refl, Bool, true, false, some, arith, List, [], ◌∷◌, ◌++◌,
  ◌==◌, length, get_or, All, bit_xor, length-append, sym,
}
use chatease_server.Session.Process.{Handlers}
use chatease_server.Session.Process.Frames.{
  Message, message, byte_of, AreFrames, analyze_all, stream, IsEmptied, IsSpent,
  process_request-frames,
}
use chatease_server.Session.Receive.{
  Received, bytes, interrupted, Connection, stored, with_buffer, append_bytes, create_request,
  receive, wait_request_handler,
}
use chatease_server.Websocket.Frame.{Frame, opcode_text, opcode_binary}
use chatease_server.Websocket.Parse.Unmask.{ClientFrame}
use chatease_server.Websocket.Parse.{key_at}

-- Four bytes.
pub record MaskingKey : Type 0 where
  pub k0 : ℕ
  pub k1 : ℕ
  pub k2 : ℕ
  pub k3 : ℕ

abbrev key_list : MaskingKey → List ℕ
key_list k = k.k0 ∷ k.k1 ∷ k.k2 ∷ k.k3 ∷ []

-- The bytes of a text from the `i`-th on, under a key.
unfoldable pub masked : List ℕ → ℕ → List ℕ → List ℕ
masked key i [] = []
masked key i (c ∷ cs) = bit_xor c (get_or key (i % 4) 0) ∷ masked key (i + 1) cs

-- The final frame that a client makes of a text of 1 to 125 bytes, as RFC 6455 has it.
unfoldable pub client_frame : MaskingKey → ℕ → List ℕ → List ℕ
client_frame k op text =
    (0x80 + op) ∷ (0x80 + length text) ∷ k.k0 ∷ k.k1 ∷ k.k2 ∷ k.k3 ∷ masked (key_list k) 0 text

-- The frames of some messages, all with a key of their own.
unfoldable pub client_frames : List (MaskingKey × Message) → List ℕ
client_frames [] = []
client_frames ((k, message op text) ∷ xs) = client_frame k op text ++ client_frames xs

abbrev pub messages : List (MaskingKey × Message) → List Message
messages [] = []
messages ((k, x) ∷ xs) = x ∷ messages xs

-- A text or a binary message of 1 to 125 bytes, and a key of bytes.
abbrev pub IsSendable : MaskingKey × Message → Type 0
IsSendable (k, message op text) =
    ((op ≡ opcode_text) ⊎ (op ≡ opcode_binary))
    × (0 < length text)
    × (length text < 126)
    × All (λ c. c < 256) text
    × All (λ c. c < 256) (key_list k)

length-masked : (key : List ℕ) (i : ℕ) (text : List ℕ) → length (masked key i text) ≡ length text
unfolding masked
length-masked key i [] = refl
length-masked key i (c ∷ cs) = omega (arith, length-masked key (i + 1) cs)

masked-Holds :
    (key : List ℕ) (i : ℕ) (text : List ℕ) (m : Mem) (a : ℕ)
    → Holds m a (masked key i text)
    → (j : ℕ) → j < length text
    → m (a + j) ≡ bit_xor (get_or text j 0) (get_or key ((i + j) % 4) 0)
unfolding masked
masked-Holds key i [] m a h j lt = absurd (omega arith)
masked-Holds key i (c ∷ cs) m a (h, rest) zero lt =
    let here : a + 0 ≡ a = omega arith in let first : i + 0 ≡ i = omega arith in rw (here, first) h
masked-Holds key i (c ∷ cs) m a (h, rest) (suc j) lt =
    let there : a + suc j ≡ a + 1 + j = omega arith in
    let next : i + suc j ≡ i + 1 + j = omega arith in
    rw (there, next) (masked-Holds key (i + 1) cs m (a + 1) rest j (omega arith))

module _ (m : Mem) (k : MaskingKey) (op : ℕ) (text : List ℕ)
    (ok : IsSendable (k, message op text)) where
  client_frame-ClientFrame :
      (p : ℕ)
      → Holds m p (client_frame k op text)
      → ClientFrame m p op (length text) (byte_of text) × All (λ c. c < 256) (key_at m (p + 2))
  unfolding client_frame
  client_frame-ClientFrame p (h0, (h1, (h2, (h3, (h4, (h5, rest)))))) =
      let a1 : p + 2 ≡ p + 1 + 1 = omega arith in
      let a2 : p + 2 + 1 ≡ p + 1 + 1 + 1 = omega arith in
      let a3 : p + 2 + 2 ≡ p + 1 + 1 + 1 + 1 = omega arith in
      let a4 : p + 2 + 3 ≡ p + 1 + 1 + 1 + 1 + 1 = omega arith in
      let a5 : p + 6 ≡ p + 1 + 1 + 1 + 1 + 1 + 1 = omega arith in
      let keys : key_at m (p + 2) ≡ key_list k = rw (a2, a3, a4, a1, h2, h3, h4, h5) refl in
      let keys_are_bytes = subst (λ ks. All (λ c. c < 256) ks) (sym keys) ok.4 in
      (
        record {
          op_is = ok.0;
          len_fits = ok.2;
          not_empty = ok.1;
          opening = h0;
          length_byte = h1;
          payload = λ j lt.
              let zero_first : 0 + j ≡ j = omega arith in
              rw (a5, keys) (rw zero_first at (masked-Holds (key_list k) 0 text m _ rest j lt));
        },
        keys_are_bytes,
      )

client_frames-AreFrames :
    (xs : List (MaskingKey × Message)) (m : Mem) (p : ℕ)
    → All IsSendable xs
    → Holds m p (client_frames xs)
    → AreFrames m p (messages xs) (p + length (client_frames xs))
unfolding client_frames client_frame
client_frames-AreFrames [] m p ok h = omega arith
client_frames-AreFrames ((k, message op text) ∷ xs) m p (good, ok) h =
    let parts = Holds-append m p (client_frame k op text) (client_frames xs) h in
    let one = client_frame-ClientFrame m k op text good p parts.0 in
    let size = length-masked (key_list k) 0 text in
    let total = length-append (client_frame k op text) (client_frames xs) in
    let next : p + length (client_frame k op text) ≡ p + 6 + length text = omega (arith, size) in
    let rest : Holds m (p + 6 + length text) (client_frames xs) = rw next at parts.1 in
    let end : p + length (client_frame k op text ++ client_frames xs)
        ≡ p + 6 + length text + length (client_frames xs) =
      omega (arith, total, size) in
    (one.0, good.3, one.1, rw end (client_frames-AreFrames xs m (p + 6 + length text) ok rest))

module _ {S : Type 0} (handlers : Handlers S) (granted : ℕ → Bool) where
  stored-Holds : (m : Mem) (a : ℕ) (xs : List ℕ) → Holds (stored a xs m) a xs
  stored-Holds m a xs = Holds-get (stored a xs m) a xs (λ j lt. ground arith)

  -- An open connection with a channel, a request and an address for the buffer.
  abbrev pub connected : ℕ → Connection
  connected base = record { is_open = true; has_request = true; has_channel = true; base = base }

  -- On an open connection with a channel and a request that expects a new frame, with a buffer at
  -- an address that is not zero and that is empty, wherever the request is in its chain, which after
  -- its first frame has only frames that add nothing, as those of earlier messages are: when `recv` is interrupted once and then
  -- gives all the bytes of one or more masked messages, text or binary ones of 1 to 125 bytes, the
  -- texts are analyzed one by one in the order in which they were sent, and when none of them reads
  -- what it must not, the loop then waits for bytes with the buffer empty again, the request expects
  -- a new frame, and no frame of its chain adds anything.
  pub wait_request_handler-messages :
      (x : MaskingKey × Message) (xs : List (MaskingKey × Message)) (k : ℕ) (f : Frame)
      (fs : List Frame) (m : Mem) (start base calls : ℕ) (more : List Received) (rest s : S)
      → 0 < start
      → All IsSpent fs
      → All IsSendable (x ∷ xs)
      → analyze_all handlers (messages (x ∷ xs)) rest ≡ some s
      → IsEmptied handlers granted start s (
          wait_request_handler handlers granted
            (connected base)
            (interrupted ∷ bytes (client_frames (x ∷ xs)) ∷ more)
            (stream handlers granted k f fs m start start start calls rest))
  unfolding wait_request_handler with_buffer receive append_bytes create_request
  wait_request_handler-messages x xs k f fs m start base calls more rest s some_address spent ok e =
      let there : (start == 0) ≡ false = ground (arith, some_address) in
      let frames = client_frames (x ∷ xs) in
      let m' = stored start frames m in
      rw there (
        process_request-frames handlers granted x.1 (messages xs) f fs m' start start
          (start + length frames) calls rest s spent
          (client_frames-AreFrames (x ∷ xs) m' start ok (stored-Holds m start frames)) e)
