-- ===== src/Timer.antt =====
-- stu_timer.c: the timers of events. The red-black tree that it calls is an interface; the lock is
-- held in every function.
pub mod Expired
use chatease_server.Common.{
  ℕ, zero, suc, ◌+◌, ◌-◌, ◌%◌, ◌^◌, ◌<◌, ◌≡◌, Bool, true, false, ◌&&◌, ◌||◌, ltb, leb, ◌==◌, Option,
  none, some, List, [], ◌∷◌, ◌++◌, if◌then◌else◌,
}
use chatease_server.Hash.Table.{set_at}

-- The calls of stu_rbtree.h on nodes that are known by the number of their event.
pub record Tree (T : Type 0) : Type 0 where
  pub empty : T
  -- `stu_rbtree_insert` of a node with a key
  pub insert : T → ℕ → ℕ → T
  -- `stu_rbtree_delete`
  pub delete : T → ℕ → T
  -- `stu_rbtree_min`, when the root is not the sentinel
  pub min : T → Option ℕ

-- What the timers need of the tree: it knows which nodes are in it, a node that is in it can be
-- taken out, its least node is one of them, and it has fewer nodes without it.
pub record TreeLaws {T : Type 0} (tree : Tree T) : Type 0 where
  pub holds : T → ℕ → Bool
  pub size : T → ℕ
  pub holds_insert :
      (t : T) (e key e' : ℕ)
      → holds (tree.insert t e key) e' ≡ (if e' == e then true else holds t e')
  pub holds_delete :
      (t : T) (e e' : ℕ)
      → holds t e ≡ true
      → holds (tree.delete t e) e' ≡ (if e' == e then false else holds t e')
  pub min_held : (t : T) (e : ℕ) → tree.min t ≡ some e → holds t e ≡ true
  pub size_delete : (t : T) (e : ℕ) → tree.min t ≡ some e → size (tree.delete t e) < size t

-- The tree of the cycle, and of every event the key of its timer, `timer_set` and `timedout`;
-- `fired` lists the events whose handlers were called.
pub record Timers (T : Type 0) : Type 0 where
  pub tree : T
  pub key : ℕ → ℕ
  pub timer_set : ℕ → Bool
  pub timedout : ℕ → Bool
  pub fired : List ℕ

-- STU_TIMER_LAZY_DELAY
abbrev pub lazy_delay : ℕ
lazy_delay = 300

-- `a - b` in 64 bits.
abbrev pub difference : ℕ → ℕ → ℕ
difference a b = (a + 2 ^ 64 - b) % 2 ^ 64

-- `(stu_msec_int_t) (a - b) > 0`
abbrev pub is_later : ℕ → ℕ → Bool
is_later a b = ltb 0 (difference a b) && ltb (difference a b) (2 ^ 63)

-- `stu_abs((stu_msec_int_t) (a - b)) < STU_TIMER_LAZY_DELAY`; the least number of 64 bits is its
-- own negative.
abbrev pub is_near : ℕ → ℕ → Bool
is_near a b =
    ltb (difference a b) lazy_delay
    || ltb (2 ^ 64) (difference a b + lazy_delay)
    || difference a b == 2 ^ 63

module _ {T : Type 0} (tree : Tree T) where
  open tree use {insert, delete, min}

  -- `stu_timer_find`; `none` is STU_TIMER_INFINITE.
  unfoldable pub find : ℕ → Timers T → Option ℕ
  find now s = elim (min s.tree) [
    | none ↦ none
    | some e ↦ some (if is_later (s.key e) now then difference (s.key e) now else 0)
  ]

  -- `stu_timer_del_locked`
  unfoldable pub del_locked : ℕ → Timers T → Timers T
  del_locked e s = record s { tree = delete s.tree e; timer_set = set_at s.timer_set e false }

  abbrev start_timer : ℕ → ℕ → Timers T → Timers T
  start_timer e key s = record s {
    tree = insert s.tree e key;
    key = set_at s.key e key;
    timer_set = set_at s.timer_set e true;
  }

  -- `stu_timer_add_locked`, at the time `now`.
  unfoldable pub add_locked : ℕ → ℕ → ℕ → Timers T → Timers T
  unfolding del_locked
  add_locked now e timer s =
      let key = (now + timer) % 2 ^ 64 in
      if s.timer_set e
      then (if is_near key (s.key e) then s else start_timer e key (del_locked e s))
      else start_timer e key s

  -- The timer is over: it is taken out, and the handler is called.
  unfoldable pub fire : ℕ → Timers T → Timers T
  fire e s = record s {
    tree = delete s.tree e;
    timer_set = set_at s.timer_set e false;
    timedout = set_at s.timedout e true;
    fired = s.fired ++ e ∷ [];
  }

  -- The loop of `stu_timer_expire`, with handlers that leave the timers alone; `none` is out of
  -- fuel.
  unfoldable pub expire : ℕ → ℕ → Timers T → Option (Timers T)
  unfolding fire
  expire zero now s = none
  expire (suc fuel) now s = elim (min s.tree) [
    | none ↦ some s
    | some e ↦
        let rest = expire fuel now (fire e s) in if is_later (s.key e) now then some s else rest
  ]
