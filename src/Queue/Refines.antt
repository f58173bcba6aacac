-- ===== src/Queue/Refines.antt =====
-- The links implement sequences.
use chatease_server.Common.{ℕ, List, [], ◌∷◌, ◌++◌}
use chatease_server.Queue.Removal.{remove-IsQueue}
use chatease_server.Queue.Sequence.{Apart, IsQueue, insert_tail-IsQueue, set_same}
use chatease_server.Queue.{Links, init, insert_tail, remove}

pub data Op : Type 0 where
  push take : ℕ → Op

-- The operations on the links, one after the other.
unfoldable pub run : Links → ℕ → List Op → Links
run l h [] = l
run l h (push x ∷ ops) = run (insert_tail l h x) h ops
run l h (take x ∷ ops) = run (remove l x) h ops

-- `Sequences h xs ops ys`: the operations make `ys` of the sequence `xs`. A node is put in when
-- it is not in, and is no sentinel; it is taken out when it is in.
pub data Sequences (h : ℕ) : List ℕ → List Op → List ℕ → Type 0 where
  ended : (xs : List ℕ) → Sequences h xs [] xs
  pushed :
      (x : ℕ) (xs ys : List ℕ) (ops : List Op)
      → Apart x (h ∷ xs)
      → Sequences h (xs ++ x ∷ []) ops ys
      → Sequences h xs (push x ∷ ops) ys
  taken :
      (x : ℕ) (xs xs' ys : List ℕ) (ops : List Op)
      → Sequences h (xs ++ xs') ops ys
      → Sequences h (xs ++ x ∷ xs') (take x ∷ ops) ys

run-IsQueue :
    (h : ℕ) (l : Links) (xs : List ℕ) (ops : List Op) (ys : List ℕ)
    → IsQueue l h xs
    → Sequences h xs ops ys
    → IsQueue (run l h ops) h ys
unfolding run
run-IsQueue h l _ _ _ q (ended xs) = q
run-IsQueue h l _ _ _ q (pushed x xs ys ops out rest) =
    run-IsQueue h (insert_tail l h x) (xs ++ x ∷ []) ops ys (insert_tail-IsQueue l h xs x q out)
      rest
run-IsQueue h l _ _ _ q (taken x xs xs' ys ops rest) =
    run-IsQueue h (remove l x) (xs ++ xs') ops ys (remove-IsQueue l h xs x xs' q) rest

pub init-IsQueue : (l : Links) (h : ℕ) → IsQueue (init l h) h []
unfolding init
init-IsQueue l h = record {
  chain = (set_same l.next h h, set_same l.prev h h);
  distinct = (tt, tt);
}

-- Insertions at the tail of nodes that are not in the queue, and removals of nodes that are,
-- made in any order on a queue that was just initialised, leave links that stand for the sequence
-- which the same operations make of the empty one: in both directions, and back to the sentinel.
pub run-Sequences :
    (l : Links) (h : ℕ) (ops : List Op) (ys : List ℕ)
    → Sequences h [] ops ys
    → IsQueue (run (init l h) h ops) h ys
run-Sequences l h ops ys spec = run-IsQueue h (init l h) [] ops ys (init-IsQueue l h) spec
