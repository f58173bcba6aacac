-- ===== src/Session/Process/Frames.antt =====
-- The frames of a client that lie in the buffer one behind the other.
use mathlib.Core.List.{append-nil}
use chatease_server.Common.Memory.{Mem, Holds, slice, slice-Holds, Holds-get}
use chatease_server.Common.{
  ℕ, zero, suc, ◌+◌, ◌-◌, ◌≤◌, ◌<◌, ◌≡◌, refl, Bool, true, false, Option, none, some, arith, List,
  [], ◌∷◌, ◌==◌, ltb, ◌⊎◌, inl, inr, length, get_or, All, ◌∙◌, ◌||◌, All-get, Option-cases,
}
use chatease_server.Session.Process.{
  Handlers, Stream, gather, copied, is_message, payload_length, default_size, Ended, waiting,
  after_text, complete, dispatch, frame_round, frame_rounds, process_request, cleared, emptied,
}
use chatease_server.Websocket.Frame.{
  Frame, sw_fin, Request, opcode_text, opcode_binary, opcode_close,
}
use chatease_server.Websocket.Parse.Unmask.{
  unmask_outside, ClientFrame, final_frame, final_request, parse_frame-request,
  parse_frame-ClientFrame,
}
use chatease_server.Websocket.Parse.{key_at}

-- A message of a client: its opcode and its text.
pub data Message : Type 0 where
  message : ℕ → List ℕ → Message

-- A text as `ClientFrame` takes it.
abbrev pub byte_of : List ℕ → ℕ → ℕ
byte_of text j = get_or text j 0

-- The masked frames of the messages stand one behind the other from `p` on, the last one in front
-- of `end`; texts and keys are bytes.
abbrev pub AreFrames : Mem → ℕ → List Message → ℕ → Type 0
AreFrames m p [] end = p ≡ end
AreFrames m p (message op text ∷ xs) end =
    ClientFrame m p op (length text) (byte_of text)
    × All (λ c. c < 256) text
    × All (λ k. k < 256) (key_at m (p + 2))
    × AreFrames m (p + 6 + length text) xs end

-- The texts are analyzed in order, as long as nothing is read that must not be.
unfoldable pub analyze_all : {S : Type 0} → Handlers S → List Message → S → Option S
analyze_all handlers [] s = some s
analyze_all handlers (message op text ∷ xs) s = elim (handlers.analyze op text s) [
  | none ↦ none
  | some s' ↦ analyze_all handlers xs s'
]

-- A frame of the chain that adds nothing to a message: its payload was taken, or it is neither a
-- text nor a binary frame and does not close.
abbrev pub IsSpent : Frame → Type 0
IsSpent f =
    ((is_message f ≡ true) × (payload_length f ≡ 0))
    ⊎ ((is_message f ≡ false) × ((f.opcode == opcode_close) ≡ false))

gather-IsSpent :
    (m : Mem) (fs : List Frame)
    → All IsSpent fs
    → gather m fs ≡ some (record { frames = fs; text = [] })
unfolding gather slice
gather-IsSpent m [] h = refl
gather-IsSpent m (f ∷ fs) (inl (message', taken), h) =
    rw (message', gather-IsSpent m fs h, taken) refl
gather-IsSpent m (f ∷ fs) (inr (other, stays), h) = rw (other, stays, gather-IsSpent m fs h) refl

copied-IsSpent : (fs : List Frame) → All IsSpent fs → copied fs ≡ 0
unfolding copied
copied-IsSpent [] h = refl
copied-IsSpent (f ∷ fs) (inl (message', taken), h) = rw (message', taken, copied-IsSpent fs h) refl
copied-IsSpent (f ∷ fs) (inr (other, stays), h) = rw (other, stays) (copied-IsSpent fs h)

ClientFrame-elsewhere :
    (m m' : Mem) (p op len : ℕ) (text : ℕ → ℕ)
    → ((a : ℕ) → p ≤ a → m' a ≡ m a)
    → ClientFrame m p op len text
    → ClientFrame m' p op len text
ClientFrame-elsewhere m m' p op len text same c = record {
  op_is = c.op_is;
  len_fits = c.len_fits;
  not_empty = c.not_empty;
  opening = same p (omega arith) ∙ c.opening;
  length_byte = same (p + 1) (omega arith) ∙ c.length_byte;
  payload = λ j lt.
      rw
        (
          same (p + 6 + j) (omega arith),
          same (p + 2) (omega arith),
          same (p + 2 + 1) (omega arith),
          same (p + 2 + 2) (omega arith),
          same (p + 2 + 3) (omega arith),
        )
        (c.payload j lt);
}

AreFrames-elsewhere :
    (m m' : Mem) (p : ℕ) (xs : List Message) (end : ℕ)
    → ((a : ℕ) → p ≤ a → m' a ≡ m a)
    → AreFrames m p xs end
    → AreFrames m' p xs end
AreFrames-elsewhere m m' p [] end same h = h
AreFrames-elsewhere m m' p (message op text ∷ xs) end same
      (c, bytes, (k0, (k1, (k2, (k3, t)))), rest) =
    (
      ClientFrame-elsewhere m m' p op (length text) (byte_of text) same c,
      bytes,
      rw
          (
            same (p + 2) (omega arith),
            same (p + 2 + 1) (omega arith),
            same (p + 2 + 2) (omega arith),
            same (p + 2 + 3) (omega arith),
          )
          (k0, (k1, (k2, (k3, tt)))),
      AreFrames-elsewhere m m' (p + 6 + length text) xs end (λ a le. same a (omega arith)) rest,
    )

-- A request at the frame `k` of a chain, before the parser has read anything of the frame at `p`.
module _ {S : Type 0} (handlers : Handlers S) (granted : ℕ → Bool) where
  abbrev pub stream : ℕ → Frame → List Frame → Mem → ℕ → ℕ → ℕ → ℕ → S → Stream S
  stream k f fs m start p end calls rest = record {
    request = record { frames_in = f ∷ fs; frame = k; state = sw_fin; mem = m };
    start = start;
    last = p;
    end = end;
    calls = calls;
    rest = rest;
  }

  module _ (f : Frame) (fs : List Frame) (spent : All IsSpent fs) (m : Mem) (start p end calls : ℕ)
      (rest : S) (op : ℕ) (c : ℕ) (cs : List ℕ)
      (frame : ClientFrame m p op (suc (length cs)) (byte_of (c ∷ cs)))
      (bytes : All (λ b. b < 256) (c ∷ cs)) (keys : All (λ k. k < 256) (key_at m (p + 2)))
      (room : p + 6 + suc (length cs) ≤ end) where
    abbrev len : ℕ
    len = suc (length cs)

    abbrev read : Request
    read = final_request m p op len (byte_of (c ∷ cs)) frame f fs

    abbrev left : Frame
    left = emptied (final_frame m p op len (byte_of (c ∷ cs)) frame f fs)

    text_read : Holds read.mem (p + 6) (c ∷ cs)
    text_read =
        let facts = rw (parse_frame-request m p op len (byte_of (c ∷ cs)) frame f fs end room) at (
          parse_frame-ClientFrame m p op len (byte_of (c ∷ cs)) frame f fs end room
            (λ j lt. All-get (λ b. b < 256) 0 (c ∷ cs) j bytes lt)
            (λ i lt. All-get (λ k. k < 256) 0 (key_at m (p + 2)) i keys lt)) in
        Holds-get read.mem (p + 6) (c ∷ cs) facts.3

    outside : (a : ℕ) → p + 6 + len ≤ a → read.mem a ≡ m a
    outside a le = unmask_outside (key_at m (p + 2)) (p + 6) 0 len m a (inr (omega arith))

    gather_frame :
        gather read.mem read.frames_in ≡ some (record { frames = left ∷ fs; text = c ∷ cs })
    unfolding gather
    gather_frame =
        let message : (op == opcode_text || op == opcode_binary) ≡ true =
          ground (arith, frame.op_is) in
        let size : p + 6 + len - (p + 6) ≡ len = omega arith in
        rw
          (
            message,
            gather-IsSpent read.mem fs spent,
            size,
            slice-Holds read.mem (p + 6) (c ∷ cs) text_read,
            append-nil cs,
          )
          refl

    copied_frame : ltb default_size (copied read.frames_in) ≡ false
    unfolding copied
    copied_frame =
        let message : (op == opcode_text || op == opcode_binary) ≡ true =
          ground (arith, frame.op_is) in
        let size : p + 6 + len - (p + 6) ≡ len = omega arith in
        rw (message, size, copied-IsSpent fs spent) (ground (arith, frame.len_fits))

    left-IsSpent : IsSpent left
    left-IsSpent =
        let message : (op == opcode_text || op == opcode_binary) ≡ true =
          ground (arith, frame.op_is) in
        let size : p + 6 + len - (p + 6) ≡ len = omega arith in
        let some_bytes : (len == 0) ≡ false = ground arith in
        inl (rw (size, some_bytes) message, rw (size, some_bytes) (omega arith))

    pass_frame :
        frame_round handlers granted (stream 0 f fs m start p end calls rest)
        ≡ after_text handlers granted
            (stream 0 left fs read.mem start (p + 6 + len) end calls rest)
            (handlers.analyze op (c ∷ cs) rest)
    unfolding frame_round dispatch complete
    pass_frame =
        rw
          (
            parse_frame-request m p op len (byte_of (c ∷ cs)) frame f fs end room,
            copied_frame,
            gather_frame,
          )
          refl

  -- The loop waits for bytes: the buffer was emptied, the request expects a new frame, no frame of
  -- its chain adds anything to the next message, and `s` is what the functions that are called left.
  abbrev pub IsEmptied : ℕ → S → Ended S → Type 0
  IsEmptied start s out =
      (st : Stream S) × (out ≡ waiting st)
      × (st.start ≡ start)
      × (st.last ≡ start)
      × (st.end ≡ start)
      × (st.request.state ≡ sw_fin)
      × All IsSpent st.request.frames_in
      × (st.rest ≡ s)

  room_left :
      (m : Mem) (p : ℕ) (xs : List Message) (end : ℕ) → AreFrames m p xs end → p + length xs ≤ end
  room_left m p [] end h = omega (arith, h)
  room_left m p (message op text ∷ xs) end (c, bytes, keys, h) =
      omega (arith, room_left m (p + 6 + length text) xs end h)

  after_last :
      (n start : ℕ) (st st' : Stream S) (s : S)
      → st'.last ≡ st'.end
      → st'.start ≡ start
      → st'.request.state ≡ sw_fin
      → All IsSpent st'.request.frames_in
      → frame_round handlers granted st ≡ after_text handlers granted st' (some s)
      → IsEmptied start s (frame_rounds handlers granted (suc n) st)
  unfolding frame_rounds after_text
  after_last n start st st' s all at fin spent e =
      let read : (st'.last == st'.end) ≡ true = ground (arith, all) in
      let emptied' : Stream S = record st' {
        request = record st'.request { mem = cleared st'.start st'.request.mem };
        last = st'.start;
        end = st'.start;
        rest = s;
      } in
      (emptied', rw (frame_rounds, e, after_text, read) refl, at, at, at, fin, spent, refl)

  after_other :
      (n start : ℕ) (st st' : Stream S) (s t : S)
      → st'.last < st'.end
      → frame_round handlers granted st ≡ after_text handlers granted st' (some t)
      → IsEmptied start s (frame_rounds handlers granted n (record st' { rest = t }))
      → IsEmptied start s (frame_rounds handlers granted (suc n) st)
  unfolding frame_rounds after_text
  after_other n start st st' s t part e h =
      let unread : (st'.last == st'.end) ≡ false = ground (arith, part) in
      rw (frame_rounds, e, after_text, unread) h

  frames_run :
      (n op : ℕ) (text : List ℕ) (xs : List Message) (f : Frame) (fs : List Frame) (m : Mem)
      (start p end calls : ℕ) (rest s : S)
      → All IsSpent fs
      → AreFrames m p (message op text ∷ xs) end
      → length xs < n
      → analyze_all handlers (message op text ∷ xs) rest ≡ some s
      → IsEmptied start s (frame_rounds handlers granted n (stream 0 f fs m start p end calls rest))
  unfolding analyze_all
  frames_run zero op text xs f fs m start p end calls rest s spent h lt e = absurd (omega arith)
  frames_run (suc n) op [] xs f fs m start p end calls rest s spent (frame, bytes, keys, h) lt e =
      absurd (omega (arith, frame.not_empty))
  frames_run (suc n) op (c ∷ cs) [] f fs m start p end calls rest s spent (frame, bytes, keys, h) lt
        e =
      let one =
        pass_frame f fs spent m start p end calls rest op c cs frame bytes keys (omega arith) in
      elim (Option-cases (handlers.analyze op (c ∷ cs) rest)) [
        | inl bad ↦ absurd (cc (rw (analyze_all, bad) at e))
        | inr (t, good) ↦
            let same : t ≡ s =
              (let h : some t ≡ some s = rw (analyze_all, good) at e in ground (arith, h)) in
            after_last n start _ _ s h refl refl
              (
                left-IsSpent f fs spent m start p end calls rest op c cs frame bytes keys
                    (omega arith),
                spent,
              )
              (rw (good, same) at one)
      ]
  frames_run (suc n) op (c ∷ cs) (message op' text ∷ xs) f fs m start p end calls rest s spent
        (frame, bytes, keys, h) lt e =
      let further = room_left m (p + 6 + suc (length cs)) (message op' text ∷ xs) end h in
      let room : p + 6 + suc (length cs) ≤ end = omega arith in
      let one = pass_frame f fs spent m start p end calls rest op c cs frame bytes keys room in
      elim (Option-cases (handlers.analyze op (c ∷ cs) rest)) [
        | inl bad ↦ absurd (cc (rw (analyze_all, bad) at e))
        | inr (t, good) ↦
            let moved =
              AreFrames-elsewhere m _ (p + 6 + suc (length cs)) (message op' text ∷ xs) end
                (λ a le.
                  outside f fs spent m start p end calls rest op c cs frame bytes keys room a le)
                h in
            after_other n start _ _ s t (omega arith) (rw good at one) (
              frames_run n op' text xs _ fs _ start (p + 6 + suc (length cs)) end calls t s spent
                moved (omega arith) (rw (analyze_all, good) at e))
      ]

  -- When the request is at the first frame of its chain and no other frame of it adds anything: a
  -- buffer that has the masked frames of one or more messages, final text or binary ones of 1 to
  -- 125 bytes each, one behind the other and nothing else, is read at once: the texts are analyzed
  -- one by one in their order, each with the opcode of its frame, and when none of them reads what
  -- it must not, the loop then waits for bytes with the buffer empty again, and no frame of the
  -- chain adds anything.
  pub process_request-frames :
      (x : Message) (xs : List Message) (f : Frame) (fs : List Frame) (m : Mem)
      (start p end calls : ℕ) (rest s : S)
      → All IsSpent fs
      → AreFrames m p (x ∷ xs) end
      → analyze_all handlers (x ∷ xs) rest ≡ some s
      → IsEmptied start s
          (process_request handlers granted true (stream 0 f fs m start p end calls rest))
  unfolding process_request
  process_request-frames (message op text) xs f fs m start p end calls rest s spent h e =
      let room = room_left m p (message op text ∷ xs) end h in
      frames_run (end - p + 2) op text xs f fs m start p end calls rest s spent h (omega arith) e
