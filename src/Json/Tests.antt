-- ===== src/Json/Tests.antt =====
-- Runs of the printer and the parser, and the theorems at inputs that meet their hypotheses.
use chatease_server.Common.Memory.{Mem, Holds}
use chatease_server.Common.{
  ℕ, zero, suc, ◌+◌, ◌-◌, ◌≡◌, ◌≢◌, ◌↔◌, refl, inr, arith, true, false, ◌==◌, within, List, [], ◌∷◌,
  if◌then◌else◌,
}
use chatease_server.Json.Duplicate.{duplicate, HasNoTrue, HasPlain, duplicate_iff}
use chatease_server.Json.Ends.{parse_ends}
use chatease_server.Json.Parse.{Root, tree, null_pointer, parse}
use chatease_server.Json.Print.{Doubles, print_string, print_number, print_value}
use chatease_server.Json.Printable.{ReadsBack, IsPrintable}
use chatease_server.Json.Refused.{parse_empty}
use chatease_server.Json.RoundTrip.{parse-print_value}
use chatease_server.Json.Value.{Json, null, boolean, number, array, object, nil, cons, no_key}

-- A C library for the numbers of one digit.
abbrev digits : Doubles
digits = record {
  is_zero = λ d. d == 0;
  is_int = λ d. true;
  is_infinite = λ d. false;
  is_whole = λ d. false;
  is_extreme = λ d. false;
  print_int = λ d. (b'0' + d) ∷ [];
  print_whole = λ d. [];
  print_exp = λ d. [];
  print_fixed = λ d. [];
  strtod = λ m p. if within b'0' b'9' (m p) then (m p - b'0', 1) else (0, 0);
}

-- A buffer with these bytes, and zeros behind them.
abbrev loaded : List ℕ → Mem
loaded [] a = 0
loaded (c ∷ cs) zero = c
loaded (c ∷ cs) (suc a) = loaded cs a

abbrev reply : Json
reply = object (
    cons (record { chars = b'o' ∷ b'k' ∷ []; len = 2 }) (boolean true)
      (cons (record { chars = b'i' ∷ b'd' ∷ []; len = 2 })
        (array (cons no_key (number 7) (cons no_key null nil))) nil))

abbrev reply_text : List ℕ
reply_text =
    b'{' ∷ b'"' ∷ b'o' ∷ b'k' ∷ b'"' ∷ b':' ∷ b't' ∷ b'r' ∷ b'u' ∷ b'e' ∷ b',' ∷ b'"' ∷ b'i' ∷ b'd'
    ∷ b'"' ∷ b':' ∷ b'[' ∷ b'7' ∷ b',' ∷ b'n' ∷ b'u' ∷ b'l' ∷ b'l' ∷ b']' ∷ b'}' ∷ []

reply_printed : print_value digits reply ≡ reply_text
unfolding print_value print_number print_string
reply_printed = refl

seven-ReadsBack : ReadsBack digits 7
unfolding print_number
seven-ReadsBack = record { starts = refl; reads = λ m p at ends. rw at.0 refl }

reply-IsPrintable : IsPrintable digits reply
reply-IsPrintable = (
  record { plain = ground arith; whole = refl },
  tt,
  (record { plain = ground arith; whole = refl }, (refl, seven-ReadsBack, (refl, tt, tt)), tt),
)

reply_held : Holds (loaded reply_text) 0 reply_text
reply_held = (
  refl,
  (
    refl,
    (
      refl,
      (
        refl,
        (
          refl,
          (
            refl,
            (
              refl,
              (
                refl,
                (
                  refl,
                  (
                    refl,
                    (
                      refl,
                      (
                        refl,
                        (
                          refl,
                          (
                            refl,
                            (
                              refl,
                              (
                                refl,
                                (
                                  refl,
                                  (
                                    refl,
                                    (refl, (refl, (refl, (refl, (refl, (refl, (refl, tt))))))),
                                  ),
                                ),
                              ),
                            ),
                          ),
                        ),
                      ),
                    ),
                  ),
                ),
              ),
            ),
          ),
        ),
      ),
    ),
  ),
)

parse-print_value_example : parse digits (loaded reply_text) 80 0 30 ≡ tree reply
parse-print_value_example =
    parse-print_value digits (loaded reply_text) reply 80 0 30 reply-IsPrintable
      (rw reply_printed reply_held) (rw reply_printed refl) (rw reply_printed (omega arith))
      (omega arith) (rw reply_printed (omega arith))

parse_empty_example : parse digits (loaded (b'{' ∷ b' ' ∷ b'}' ∷ [])) 9 0 3 ≡ null_pointer
parse_empty_example =
    parse_empty digits (loaded (b'{' ∷ b' ' ∷ b'}' ∷ [])) 9 0 1 3 (omega arith) (omega arith)
      (omega arith) (refl, tt) (inr (refl, refl))

parse_ends_example : parse digits (loaded reply_text) 99 0 25 ≢ Root.out_of_fuel
parse_ends_example = parse_ends digits (loaded reply_text) 99 0 25 refl (omega arith) (omega arith)

reply-HasPlain : HasPlain reply
reply-HasPlain = (
  record { plain = ground arith; whole = refl },
  tt,
  (
    record { plain = ground arith; whole = refl },
    (record { plain = tt; whole = refl }, tt, (record { plain = tt; whole = refl }, tt, tt)),
    tt,
  ),
)

duplicate_iff_example :
    HasNoTrue (duplicate true reply) × ((duplicate true reply ≡ reply) ↔ HasNoTrue reply)
duplicate_iff_example = duplicate_iff reply reply-HasPlain
