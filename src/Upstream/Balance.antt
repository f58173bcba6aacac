-- ===== src/Upstream/Balance.antt =====
-- How stu_upstream.c picks the next server of a list: the part that `stu_upstream_create` and
-- `stu_upstream_next` share, on a list that is not empty.
use chatease_server.Common.{
  ℕ, zero, suc, ◌+◌, Option, none, some, List, [], ◌∷◌, leb, ◌==◌, get_or, length, if◌then◌else◌,
}

-- `upstream->elts.obj`, the current server by its place in the list, and `upstream->elts.size`,
-- how often it was picked.
pub record Turn : Type 0 where
  pub obj : ℕ
  pub size : ℕ

module _ (weights : List ℕ) where
  abbrev pub weight : ℕ → ℕ
  weight i = get_or weights i 0

  -- `stu_queue_next`, past the sentinel to the head.
  abbrev pub next_server : ℕ → ℕ
  next_server i = if i + 1 == length weights then 0 else i + 1

  -- `while (upstream->elts.size++ >= s->weight)`, for so many rounds; the loop does not end if no
  -- server has a weight.
  unfoldable pub search_server : ℕ → ℕ → ℕ → Option Turn
  search_server zero i size =
      if leb (weight i) size then none else some (record { obj = i; size = size + 1 })
  search_server (suc fuel) i size =
      let rest = search_server fuel (next_server i) 0 in
      if leb (weight i) size then rest else some (record { obj = i; size = size + 1 })

  -- `elts.obj` is NULL before the first server was picked.
  unfoldable pub pick : Option Turn → Option Turn
  pick none = search_server (length weights) 0 0
  pick (some t) = search_server (length weights) t.obj t.size

  -- The servers picked one after the other, and the turn that is left.
  unfoldable pub picks : ℕ → Option Turn → Option (List ℕ × Option Turn)
  picks zero s = some ([], s)
  picks (suc n) s = elim (pick s) [
    | none ↦ none
    | some t ↦ elim (picks n (some t)) [ none ↦ none | some (xs, s') ↦ some (t.obj ∷ xs, s') ]
  ]
