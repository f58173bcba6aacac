-- ===== src/LinkedList/Tests.antt =====
-- A list of two objects, and the theorems at it.
use chatease_server.Common.{arith, true, [], ◌∷◌}
use chatease_server.LinkedList.Kept.{
  IsList, IsPushed, list_init-IsList, link-IsList, push_remove-IsList,
}
use chatease_server.LinkedList.{list_init, link, list_push, list_remove}
use chatease_server.Queue.{Links}

abbrev blank : Links
blank = record { prev = λ j. 0; next = λ j. 0 }

one-IsList : IsList (link (list_init blank 1) 70 8) (2 ∷ [])
unfolding list_init
one-IsList = link-IsList (list_init blank 1) [] 70 8 (omega arith) (list_init-IsList blank 1)

push_remove-IsList_example :
    IsPushed
      (link (list_init blank 1) 70 8)
      (2 ∷ [])
      71
      8
      (list_push (λ n. true) (link (list_init blank 1) 70 8) 71 8)
    × IsList (list_remove (link (list_init blank 1) 70 8) 2) []
push_remove-IsList_example =
    push_remove-IsList (λ n. true) (link (list_init blank 1) 70 8) [] 2 [] 71 8 (omega arith)
      one-IsList
