-- ===== src/Timer/Expired.antt =====
-- Which timers are set, and which are over after `stu_timer_expire`.
use chatease_server.Common.{
  ℕ, zero, suc, ◌+◌, ◌%◌, ◌^◌, ◌<◌, ◌≡◌, ◌⊎◌, refl, sym, ◌∙◌, arith, true, false, ◌==◌, Option,
  none, some, List, [], ◌∷◌, ◌++◌, All, Bool-cases, Option-cases, inl, inr,
}
use mathlib.Core.List.{append-nil, append_assoc}
use chatease_server.Timer.{
  Tree, TreeLaws, Timers, is_later, is_near, del_locked, start_timer, add_locked, fire, expire,
}

module _ {T : Type 0} (tree : Tree T) (laws : TreeLaws tree) where
  open laws use {holds, size, holds_insert, holds_delete, min_held, size_delete}

  -- `timer_set` says which events are in the tree.
  abbrev pub AreSet : Timers T → Type 0
  AreSet s = (e : ℕ) → s.timer_set e ≡ holds s.tree e

  del_locked-AreSet :
      (e : ℕ) (s : Timers T) → s.timer_set e ≡ true → AreSet s → AreSet (del_locked tree e s)
  unfolding del_locked
  del_locked-AreSet e s set ok e' =
      let held = sym (ok e) ∙ set in
      elim (Bool-cases (e' == e)) [
        | inl same ↦ rw (holds_delete s.tree e e' held, same) refl
        | inr other ↦ rw (holds_delete s.tree e e' held, other) (ok e')
      ]

  start_timer-AreSet : (e key : ℕ) (s : Timers T) → AreSet s → AreSet (start_timer tree e key s)
  start_timer-AreSet e key s ok e' = elim (Bool-cases (e' == e)) [
    | inl same ↦ rw (holds_insert s.tree e key e', same) refl
    | inr other ↦ rw (holds_insert s.tree e key e', other) (ok e')
  ]

  add_locked-AreSet :
      (now e timer : ℕ) (s : Timers T) → AreSet s → AreSet (add_locked tree now e timer s)
  unfolding add_locked
  add_locked-AreSet now e timer s ok = elim (Bool-cases (s.timer_set e)) [
    | inr unset ↦ simp unset (start_timer-AreSet e ((now + timer) % 2 ^ 64) s ok)
    | inl set ↦ elim (Bool-cases (is_near ((now + timer) % 2 ^ 64) (s.key e))) [
      | inl near ↦ simp (set, near) ok
      | inr far ↦
          simp (set, far)
            (start_timer-AreSet e ((now + timer) % 2 ^ 64) (del_locked tree e s)
              (del_locked-AreSet e s set ok))
    ]
  ]

  fire-AreSet : (e : ℕ) (s : Timers T) → s.timer_set e ≡ true → AreSet s → AreSet (fire tree e s)
  unfolding fire del_locked
  fire-AreSet e s set ok e' = del_locked-AreSet e s set ok e'

  -- Nothing is left that is over at the time `now`.
  abbrev pub IsQuiet : ℕ → Timers T → Type 0
  IsQuiet now s =
      (tree.min s.tree ≡ none)
      ⊎ ((e : ℕ) × (tree.min s.tree ≡ some e) × (is_later (s.key e) now ≡ true))

  -- The loop has ended; the timers that were fired were over.
  abbrev pub IsExpired : ℕ → Timers T → Option (Timers T) → Type 0
  IsExpired now s out =
      (s' : Timers T) × (fired : List ℕ) × (out ≡ some s')
      × AreSet s'
      × IsQuiet now s'
      × (s'.fired ≡ s.fired ++ fired)
      × All (λ e. is_later (s.key e) now ≡ false) fired

  expire-IsExpired :
      (fuel now : ℕ) (s : Timers T)
      → AreSet s
      → size s.tree < fuel
      → IsExpired now s (expire tree fuel now s)
  unfolding expire fire
  expire-IsExpired zero now s ok h = absurd (omega arith)
  expire-IsExpired (suc fuel) now s ok h = elim (Option-cases (tree.min s.tree)) [
    | inl empty ↦ (s, [], rw (expire, empty) refl, ok, inl empty, sym (append-nil s.fired), tt)
    | inr (e, least) ↦ elim (Bool-cases (is_later (s.key e) now)) [
      | inl later ↦ (
        s,
        [],
        rw (expire, least, later) refl,
        ok,
        inr (e, least, later),
        sym (append-nil s.fired),
        tt,
      )
      | inr over ↦
          let smaller = size_delete s.tree e least in
          let set = ok e ∙ min_held s.tree e least in
          let ih =
            expire-IsExpired fuel now (fire tree e s) (fire-AreSet e s set ok) (omega arith) in
          (
            ih.0,
            e ∷ ih.1,
            rw (expire, least, over) ih.2,
            ih.3,
            ih.4,
            ih.5 ∙ append_assoc s.fired (e ∷ []) ih.1,
            (over, ih.6),
          )
    ]
  ]

  -- With a tree that knows its nodes and gets smaller when its least one is taken out, and when
  -- `timer_set` says which events are in the tree: that stays so when a timer is added, in any of
  -- the three ways, and when one that is set is deleted. `stu_timer_expire`, whose handlers leave
  -- the timers alone, ends after as many rounds as the tree has nodes and one; it fires timers that
  -- are over only, it leaves the tree empty or with a least timer that is not over, and `timer_set`
  -- is right again.
  pub timers-AreSet :
      (now e e' timer : ℕ) (s : Timers T)
      → AreSet s
      → s.timer_set e' ≡ true
      → AreSet (add_locked tree now e timer s)
        × AreSet (del_locked tree e' s)
        × IsExpired now s (expire tree (size s.tree + 1) now s)
  timers-AreSet now e e' timer s ok set = (
    add_locked-AreSet now e timer s ok,
    del_locked-AreSet e' s set ok,
    expire-IsExpired (size s.tree + 1) now s ok (omega arith),
  )
