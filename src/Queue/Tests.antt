-- ===== src/Queue/Tests.antt =====
-- A queue that is filled and emptied.
use chatease_server.Common.{arith, List, [], ◌∷◌}
use chatease_server.Queue.Refines.{
  Op, push, take, run, Sequences, ended, pushed, taken, run-Sequences,
}
use chatease_server.Queue.Sequence.{IsQueue}
use chatease_server.Queue.{Links, init}

abbrev blank : Links
blank = record { prev = λ j. 0; next = λ j. 0 }

abbrev script : List Op
script = push 10 ∷ push 20 ∷ push 30 ∷ take 20 ∷ []

script-Sequences : Sequences 1 [] script (10 ∷ 30 ∷ [])
script-Sequences = pushed 10 [] _ _ (ground arith) (
    pushed 20 (10 ∷ []) _ _ (ground arith) (
      pushed 30 (10 ∷ 20 ∷ []) _ _ (ground arith)
        (taken 20 (10 ∷ []) (30 ∷ []) _ _ (ended (10 ∷ 30 ∷ [])))))

run-Sequences_example : IsQueue (run (init blank 1) 1 script) 1 (10 ∷ 30 ∷ [])
run-Sequences_example = run-Sequences blank 1 script (10 ∷ 30 ∷ []) script-Sequences
