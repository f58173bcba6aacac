-- ===== src/LinkedList.antt =====
-- stu_list.c: a queue of elements that carry objects, and how many they are.
pub mod Kept
mod Tests
use chatease_server.Common.{ℕ, ◌+◌, ◌-◌, ◌%◌, ◌^◌, Bool, ◌==◌, if◌then◌else◌}
use chatease_server.Common.Scan.{Rc, rc_ok, rc_error}
use chatease_server.Hash.Table.{set_at}
use chatease_server.Queue.{Links, init, insert_tail, remove}

-- `stu_list_t`. Elements are known by number; `elts` is the sentinel, `next` the number of the
-- next element that `palloc` makes, and `calls` counts its calls.
pub record LinkedList : Type 0 where
  pub links : Links
  pub obj : ℕ → ℕ
  pub size : ℕ → ℕ
  pub elts : ℕ
  pub length : ℕ
  pub next : ℕ
  pub calls : ℕ

pub record Pushed : Type 0 where
  pub rc : Rc
  pub list : LinkedList

-- `stu_list_init`; the sentinel is made before all elements.
unfoldable pub list_init : Links → ℕ → LinkedList
list_init links elts = record {
  links = init links elts;
  obj = λ e. 0;
  size = λ e. 0;
  elts = elts;
  length = 0;
  next = elts + 1;
  calls = 0;
}

-- `stu_list_push`, with an element from `palloc`.
unfoldable pub link : LinkedList → ℕ → ℕ → LinkedList
link l obj size = record l {
  links = insert_tail l.links l.elts l.next;
  obj = set_at l.obj l.next obj;
  size = set_at l.size l.next size;
  length = (l.length + 1) % 2 ^ 64;
  next = l.next + 1;
  calls = l.calls + 1;
}

unfoldable pub list_push : (ℕ → Bool) → LinkedList → ℕ → ℕ → Pushed
list_push palloc l obj size =
    if palloc l.calls
    then record { rc = rc_ok; list = link l obj size }
    else record { rc = rc_error; list = record l { calls = l.calls + 1 } }

-- `stu_list_remove`
unfoldable pub list_remove : LinkedList → ℕ → LinkedList
list_remove l elt = record l {
  links = remove l.links elt;
  length = (l.length + 2 ^ 64 - 1) % 2 ^ 64;
}
