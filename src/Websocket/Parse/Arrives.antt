-- ===== src/Websocket/Parse/Arrives.antt =====
-- A frame of which not all bytes have arrived: between two calls the bytes behind the end of the
-- buffer are written.
use chatease_server.Common.Memory.{Mem, write}
use chatease_server.Common.Scan.{
  rc_again, Verdict, next, more, stop, Scanned, Verdict-cases, scan, run, scan_at_end, scan_more,
  scan_next, scan_stop,
}
use chatease_server.Common.Scan.Resume.{le_or_lt, run_next, run_stop}
use chatease_server.Common.{
  ℕ, zero, suc, ◌+◌, ◌-◌, ◌≤◌, ◌<◌, ◌%◌, ◌≡◌, ◌≢◌, ◌⊎◌, inl, inr, refl, arith, bit_and, bit_xor,
  ◌==◌, ◌||◌, ltb, Bool-cases, false, List, get_or,
}
use chatease_server.Websocket.Frame.{
  State, sw_fin, sw_mask, sw_extended_2, sw_extended_8, sw_masking_key, sw_payload_data, Request,
  current, opcode_text, opcode_binary,
}
use chatease_server.Websocket.Parse.{unmask, unmasked, step_in, step, parse_frame}
use chatease_server.Websocket.Parse.Steady.{step-IsSteady}

-- The bytes in front of `end` are the same; those behind it may be any.
abbrev pub Agrees : ℕ → Mem → Mem → Type 0
Agrees end m m' = (a : ℕ) → a < end → m' a ≡ m a

abbrev pub with_mem : Mem → Request → Request
with_mem m r = record r { mem = m }

unmask-Agrees :
    (key : List ℕ) (p i left end : ℕ) (m m' : Mem)
    → p + i + left ≤ end
    → Agrees end m m'
    → Agrees end (unmask key p i left m) (unmask key p i left m')
unfolding unmask
unmask-Agrees key p i zero end m m' h same = same
unmask-Agrees key p i (suc left) end m m' h same =
    let k = get_or key (i % 4) 0 in
    unmask-Agrees key p (i + 1) left end (write m (p + i) (bit_xor (m (p + i)) k))
      (write m' (p + i) (bit_xor (m' (p + i)) k)) (omega arith)
      (λ a lt. elim (Bool-cases (a == p + i)) [
        | inl here ↦ rw (here, same (p + i) (omega arith)) refl
        | inr other ↦ rw other (same a lt)
      ])

unmasked-Agrees :
    (p end : ℕ) (r : Request) (m' : Mem)
    → p + (current r).extended ≤ end
    → Agrees end r.mem m'
    → Agrees end (unmasked p r) (unmasked p (with_mem m' r))
unmasked-Agrees p end r m' h same =
    let f = current r in
    elim (Bool-cases (f.opcode == opcode_text || f.opcode == opcode_binary)) [
      | inr other ↦ rw other same
      | inl message ↦ elim (Bool-cases (f.mask == 0)) [
        | inl plain ↦ rw (message, plain) same
        | inr masked ↦
            rw (message, masked)
              (unmask-Agrees f.masking_key p 0 f.extended end r.mem m' (omega arith) same)
      ]
    ]

-- A round that does not wait goes the same way when more has arrived in memory `m'`.
IsSame : ℕ → Mem → Mem → Verdict Request → Verdict Request → Type 0
IsSame end m m' (next q t) v = (v ≡ next q (with_mem m' t)) × (t.mem ≡ m)
IsSame end m m' more v = Unit
IsSame end m m' (stop rc q t) v = (mm : Mem) × (v ≡ stop rc q (with_mem mm t)) × Agrees end t.mem mm

module _ (end end' p : ℕ) (r : Request) (m' : Mem) (inside : p < end) (le : end ≤ end')
    (same : Agrees end r.mem m') where
  step_in-IsSame :
      (st : State) → IsSame end r.mem m' (step_in st end p r) (step_in st end' p (with_mem m' r))
  unfolding step_in IsSame
  step_in-IsSame sw_fin = (rw (same p inside) refl, refl)
  step_in-IsSame sw_mask = elim (Bool-cases (bit_and (r.mem p) 0x7F == 126)) [
    | inl two ↦ rw (same p inside, IsSame, two) (refl, refl)
    | inr short ↦ elim (Bool-cases (bit_and (r.mem p) 0x7F == 127)) [
      | inl eight ↦ rw (same p inside, IsSame, short, eight) (refl, refl)
      | inr own ↦ rw (same p inside, IsSame, short, own) (refl, refl)
    ]
  ]
  step_in-IsSame sw_extended_2 = elim (Bool-cases (ltb (end - p) 2)) [
    | inl few ↦ rw (IsSame, few) tt
    | inr all ↦
        let all' : ltb (end' - p) 2 ≡ false = ground arith in
        rw (IsSame, all, all', same p inside, same (p + 1) (ground arith)) (refl, refl)
  ]
  step_in-IsSame sw_extended_8 = elim (Bool-cases (ltb (end - p) 8)) [
    | inl few ↦ rw (IsSame, few) tt
    | inr all ↦
        let all' : ltb (end' - p) 8 ≡ false = ground arith in
        rw
          (
            IsSame,
            all,
            all',
            same p inside,
            same (p + 1) (ground arith),
            same (p + 2) (ground arith),
            same (p + 3) (ground arith),
            same (p + 4) (ground arith),
            same (p + 5) (ground arith),
            same (p + 6) (ground arith),
            same (p + 7) (ground arith),
          )
          (refl, refl)
  ]
  step_in-IsSame sw_masking_key = elim (Bool-cases (ltb (end - p) 4)) [
    | inl few ↦ rw (IsSame, few) tt
    | inr all ↦
        let all' : ltb (end' - p) 4 ≡ false = ground arith in
        rw
          (
            IsSame,
            all,
            all',
            same p inside,
            same (p + 1) (ground arith),
            same (p + 2) (ground arith),
            same (p + 3) (ground arith),
          )
          (refl, refl)
  ]
  step_in-IsSame sw_payload_data = elim (Bool-cases (ltb (end - p) (current r).extended)) [
    | inl few ↦ rw (IsSame, few) tt
    | inr all ↦
        let all' : ltb (end' - p) (current r).extended ≡ false = ground arith in
        rw (IsSame, all, all') (_, refl, unmasked-Agrees p end r m' (ground arith) same)
  ]

-- The first call waits, with memory as it was, and the second, from where it stopped, gives what
-- one call on all bytes gives; or the first call does not wait, and one call on all bytes gives the
-- same code, position and frames, and the same bytes in front of `end`.
abbrev pub IsResumed : ℕ → ℕ → ℕ → Request → Mem → Scanned Request → Type 0
IsResumed end end' p r m' out =
    ((out.rc ≡ rc_again)
      × (out.state.mem ≡ r.mem)
      × (parse_frame end' out.last (with_mem m' out.state) ≡ parse_frame end' p (with_mem m' r)))
    ⊎ ((out.rc ≢ rc_again)
        × (mm : Mem) × Agrees end out.state.mem mm
        × (parse_frame end' p (with_mem m' r)
            ≡ record { rc = out.rc; last = out.last; state = with_mem mm out.state }))

waits-IsResumed :
    (end end' p : ℕ) (r : Request) (m' : Mem)
    → IsResumed end end' p r m' (record { rc = rc_again; last = p; state = r })
waits-IsResumed end end' p r m' = inl (refl, refl, refl)

scan-IsResumed :
    (f end end' p : ℕ) (r : Request) (m' : Mem)
    → end ≤ end'
    → end ≤ p + f
    → Agrees end r.mem m'
    → IsResumed end end' p r m' (scan step f end p r)
unfolding IsSame parse_frame
scan-IsResumed zero end end' p r m' le h same =
    rw (scan_at_end step zero end p r (omega arith)) (waits-IsResumed end end' p r m')
scan-IsResumed (suc f) end end' p r m' le h same = elim (le_or_lt p end) [
  | inl done ↦ rw (scan_at_end step (suc f) end p r done) (waits-IsResumed end end' p r m')
  | inr left ↦
      let one = step_in-IsSame end end' p r m' left le same r.state in
      elim (Verdict-cases (step end p r)) [
        | inl e ↦ rw (scan_more step (suc f) end p r e) (waits-IsResumed end end' p r m')
        | inr (inl (q, t, e)) ↦
            let moved : p ≤ q = step-IsSteady.ahead end p r q t e in
            let (there, kept) = rw (e, IsSame) at one in
            let all =
              run_next step step-IsSteady end' p (with_mem m' r) q (with_mem m' t) (omega arith)
                there in
            rw (scan_next step f end p r q t left e, all, ← kept)
              (scan-IsResumed f end end' (q + 1) t m' le (omega arith) (rw kept same))
        | inr (inr (rc, q, t, e)) ↦
            let (mm, there, agrees) = rw (e, IsSame) at one in
            rw (scan_stop step f end p r rc q t left e) (
              inr (
                step-IsSteady.stop_final end p r rc q t e,
                mm,
                agrees,
                run_stop step step-IsSteady end' p (with_mem m' r) rc q (with_mem mm t)
                    (omega arith) there,
              ))
      ]
]

-- A call sees the bytes up to `end` only. When it answers STU_AGAIN, memory is as it was, and a
-- second call from where it stopped, in a memory where the bytes up to `end'` are there and those up
-- to `end` are the same, gives the code, the position, the frames and the memory that one call on
-- all of them gives. When it answers anything else, one call on all bytes gives the same code,
-- position and frames and leaves the same bytes in front of `end`.
pub parse_frame-IsResumed :
    (end end' p : ℕ) (r : Request) (m' : Mem)
    → end ≤ end'
    → Agrees end r.mem m'
    → IsResumed end end' p r m' (parse_frame end p r)
unfolding parse_frame run
parse_frame-IsResumed end end' p r m' le same =
    scan-IsResumed (end - p) end end' p r m' le (omega arith) same
