-- ===== src/Queue.antt =====
-- stu_queue.h: the circular lists of the server, as links on nodes.
pub mod Sequence
pub mod Removal
pub mod Refines
mod Tests
use chatease_server.Common.{ℕ, ◌≡◌, ◌==◌, if◌then◌else◌}
use chatease_server.Hash.Table.{set_at}

-- The fields of every node; NULL is 0.
pub record Links : Type 0 where
  pub prev : ℕ → ℕ
  pub next : ℕ → ℕ

abbrev pub set_prev : Links → ℕ → ℕ → Links
set_prev l x a = record l { prev = set_at l.prev x a }

abbrev pub set_next : Links → ℕ → ℕ → Links
set_next l x a = record l { next = set_at l.next x a }

unfoldable pub init : Links → ℕ → Links
init l q = let l1 = set_prev l q q in set_next l1 q q

unfoldable pub insert_tail : Links → ℕ → ℕ → Links
insert_tail l h x =
    let l1 = set_prev l x (l.prev h) in
    let l2 = set_next l1 x h in let l3 = set_next l2 (l2.prev h) x in set_prev l3 h x

unfoldable pub remove : Links → ℕ → Links
remove l x =
    let l1 = set_prev l (l.next x) (l.prev x) in
    let l2 = set_next l1 (l1.prev x) (l1.next x) in let l3 = set_prev l2 x 0 in set_next l3 x 0
