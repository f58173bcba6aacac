-- ===== src/Channel/Reached.antt =====
-- The states of the channels that a program can reach.
use chatease_server.Channel.Cases.{
  channel_inserted, created, create-cases, insert-found, insert-new,
}
use chatease_server.Channel.Cycle.{
  Connection, Cycle, join_locked, insert, remove_user, remove_empty, remove, find_user, fd_in,
}
use chatease_server.Channel.Safety.{
  IsSound, with_userlist-IsSound, reconnected, init-IsLinked, join-IsSound, created-IsSound,
}
use chatease_server.Common.{
  ℕ, ◌+◌, ◌%◌, ◌<◌, ◌≡◌, ◌≢◌, inl, inr, sym, ◌∙◌, arith, Bool, true, false, ◌==◌, List, [], ◌∷◌,
  some, All, Bool-cases, Option-cases, same_or_not,
}
use chatease_server.Common.Scan.{rc_error}
use chatease_server.Hash.Insert.{find_locked-insert_failed}
use chatease_server.Hash.Key.{hash_key_lc}
use chatease_server.Hash.Lookup.{IsLinked}
use chatease_server.Hash.Reached.{insert-IsLinked, remove-IsLinked}
use chatease_server.Hash.Remove.{find_locked-remove_locked, find_locked-remove_other, queue-or_null}
use chatease_server.Hash.Table.{
  Hash, set_at, find_elt, find_locked, init, remove_locked, drop_id, or_null,
}
use chatease_server.Strings.Copy.{IsText}

All-drop_id : (e n : ℕ) (q : List ℕ) → All (λ d. d < n) q → All (λ d. d < n) (drop_id e q)
unfolding drop_id
All-drop_id e n [] h = tt
All-drop_id e n (k ∷ q) (hk, h) = elim (Bool-cases (k == e)) [
  | inl same ↦ rw same (All-drop_id e n q h)
  | inr apart ↦ rw apart (hk, All-drop_id e n q h)
]

bucket-IsLinked :
    (h : Hash) (i n : ℕ) (keys q : List ℕ)
    → IsLinked h
    → All (λ e. e < h.next) q
    → IsLinked (record h { buckets = set_at h.buckets i (or_null q); keys = keys; length = n })
bucket-IsLinked h i n keys q ok new = record {
  below = λ j. elim (Bool-cases (j == i)) [
    | inl here ↦ rw (here, queue-or_null q) new
    | inr apart ↦ rw apart (ok.below j)
  ];
}

remove_user-IsLinked :
    (h : Hash) (fd_of : ℕ → ℕ) (name : List ℕ) (fd : ℕ)
    → IsLinked h
    → IsLinked (remove_user h fd_of name fd)
unfolding remove_user
remove_user-IsLinked h fd_of name fd ok =
    let kh = hash_key_lc name in
    elim (Option-cases (h.buckets (kh % h.size))) [
      | inl e ↦ rw (remove_user, e) ok
      | inr (q, e) ↦
          let mine : All (λ d. d < h.next) q = rw e at (ok.below (kh % h.size)) in
          elim (Option-cases (find_user h.elts fd_of kh name fd q)) [
            | inl gone ↦
                rw (remove_user, e, gone)
                  (bucket-IsLinked h (kh % h.size) h.length h.keys q ok mine)
            | inr (d, found) ↦
                rw (remove_user, e, found)
                  (bucket-IsLinked h (kh % h.size) _ (drop_id d h.keys) (drop_id d q) ok
                    (All-drop_id d h.next q mine))
          ]
    ]

freed-named :
    (s : Cycle) (ch : ℕ)
    → s.live ch ≡ true
    → IsSound s
    → (kh : ℕ) (name : List ℕ) (j : ℕ) → IsText name
    → find_locked
        (remove_locked s.channels (hash_key_lc (s.channel ch).id) (s.channel ch).id)
        kh
        name
      ≡ some j
    → ((s.channel j).id ≡ name) × (kh ≡ hash_key_lc name) × (set_at s.live ch false j ≡ true)
freed-named s ch alive ok kh name j t e = elim (same_or_not name (s.channel ch).id) [
  | inl same ↦
      let id = (s.channel ch).id in
      let t' : IsText id = rw (← same) t in
      let e' : find_locked (remove_locked s.channels (hash_key_lc id) id) kh id ≡ some j =
        rw same at e in
      elim (Bool-cases (kh == hash_key_lc id)) [
        | inl here ↦
            let eq : kh ≡ hash_key_lc id = ground (arith, here) in
            let gone = find_locked-remove_locked s.channels (hash_key_lc id) id in
            let e'' = rw (eq, gone) at e' in absurd (ground (arith, e''))
        | inr apart ↦
            let ne : kh ≢ hash_key_lc id = ground (arith, apart) in
            let before =
              sym (find_locked-remove_other s.channels (hash_key_lc id) kh id id t' (inl ne))
              ∙ e' in
            absurd (ne (ok.named kh id j t' before).1)
      ]
  | inr apart ↦
      let before =
        sym (
          find_locked-remove_other s.channels (hash_key_lc (s.channel ch).id) kh (s.channel ch).id
            name t (inr apart))
        ∙ e in
      let (id, hash, live) = ok.named kh name j t before in
      elim (Bool-cases (j == ch)) [
        | inl here ↦
            let eq : j ≡ ch = ground (arith, here) in
            let id' : (s.channel ch).id ≡ name = rw eq at id in absurd (apart (sym id'))
        | inr other ↦ rw other (id, hash, live)
      ]
]

remove_empty-IsSound :
    (s : Cycle) (ch : ℕ) → s.live ch ≡ true → IsSound s → IsSound (remove_empty s ch)
unfolding remove_empty
remove_empty-IsSound s ch alive ok = elim (Bool-cases ((s.channel ch).userlist.length == 0)) [
  | inr some_left ↦ rw (remove_empty, some_left) ok
  | inl empty ↦
      rw (remove_empty, empty)
        (record {
          linked = remove-IsLinked s.channels _ _ ok.linked;
          named = freed-named s ch alive ok;
          text = λ j h. ok.text j (still s ch j h);
          made = λ j h. ok.made j (still s ch j h);
          users = λ j h. ok.users j (still s ch j h);
        })
]
  where
    still : (s : Cycle) (ch j : ℕ) → set_at s.live ch false j ≡ true → s.live j ≡ true
    still s ch j h = elim (Bool-cases (j == ch)) [
      | inl here ↦ absurd (let h' = rw here at h in ground (arith, h'))
      | inr other ↦ rw other at h
    ]

remove-IsSound : (s : Cycle) (ch c : ℕ) → s.live ch ≡ true → IsSound s → IsSound (remove s ch c)
unfolding remove
remove-IsSound s ch c alive ok =
    let users =
      remove_user-IsLinked (s.channel ch).userlist (fd_in s) (s.connection c).user_id (fd_in s c)
        (ok.users ch alive) in
    remove_empty-IsSound _ ch alive (with_userlist-IsSound s ch _ users ok)

module _ (palloc : ℕ → Bool) (calloc : ℕ → ℕ → Bool) where
  skipped-IsSound : (s : Cycle) → IsSound s → IsSound (record s { next = s.next + 1 })
  skipped-IsSound s ok = record {
    linked = ok.linked;
    named = ok.named;
    text = ok.text;
    made = λ j alive. let lt = ok.made j alive in omega arith;
    users = ok.users;
  }

  failed-IsSound :
      (s : Cycle) (id : List ℕ)
      → (channel_inserted palloc s id).rc ≡ rc_error
      → IsSound s
      → IsSound (record s { channels = (channel_inserted palloc s id).hash; next = s.next + 1 })
  failed-IsSound s id rc ok = record {
    linked = insert-IsLinked palloc true true s.channels id s.next ok.linked;
    named = λ kh name j t e.
        ok.named kh name j t
          (sym (find_locked-insert_failed palloc true true s.channels id s.next kh name rc) ∙ e);
    text = ok.text;
    made = λ j alive. let lt = ok.made j alive in omega arith;
    users = ok.users;
  }

  insert-IsSound :
      (s : Cycle) (id : List ℕ) (c : ℕ)
      → IsText id
      → IsSound s
      → IsSound (insert palloc calloc s id c).cycle
  unfolding join_locked
  insert-IsSound s id c t ok = elim (Option-cases (find_locked s.channels (hash_key_lc id) id)) [
    | inr (ch, e) ↦
        rw (insert-found palloc calloc s id c ch e)
          (join-IsSound palloc calloc s ch c (ok.named (hash_key_lc id) id ch t e).2 ok)
    | inl e ↦ rw (insert-new palloc calloc s id c e) (elim (create-cases palloc calloc s id) [
      | inl made ↦ rw made (skipped-IsSound s ok)
      | inr (inl (rc, made)) ↦ rw made (failed-IsSound s id rc ok)
      | inr (inr (rc, made)) ↦ rw made (
          let alive : set_at s.live s.next true s.next ≡ true = ground arith in
          join-IsSound palloc calloc (created palloc s id) s.next c alive
            (created-IsSound palloc calloc s id t e rc ok))
    ])
  ]

  -- Insertions and removals of users, and whatever else happens to connections.
  pub data Reached : Cycle → Type 0 where
    started :
        (size calls : ℕ) (s : Cycle)
        → s.channels ≡ init size calls
        → ((ch : ℕ) → s.live ch ≡ false)
        → Reached s
    inserted :
        (s : Cycle) (id : List ℕ) (c : ℕ)
        → IsText id
        → Reached s
        → Reached (insert palloc calloc s id c).cycle
    removed : (s : Cycle) (ch c : ℕ) → s.live ch ≡ true → Reached s → Reached (remove s ch c)
    changed :
        (s : Cycle) (conns : ℕ → Connection) → Reached s → Reached (record s { connection = conns })

  pub Reached-IsSound : (s : Cycle) → Reached s → IsSound s
  unfolding find_locked init find_elt
  Reached-IsSound _ (started size calls s e dead) = record {
    linked = rw e (init-IsLinked size calls);
    named = λ kh name ch t found. absurd (let found' = rw e at found in ground (arith, found'));
    text = λ ch alive. absurd (let d = dead ch in ground (arith, alive, d));
    made = λ ch alive. absurd (let d = dead ch in ground (arith, alive, d));
    users = λ ch alive. absurd (let d = dead ch in ground (arith, alive, d));
  }
  Reached-IsSound _ (inserted s id c t r) = insert-IsSound s id c t (Reached-IsSound s r)
  Reached-IsSound _ (removed s ch c alive r) = remove-IsSound s ch c alive (Reached-IsSound s r)
  Reached-IsSound _ (changed s conns r) = reconnected s conns (Reached-IsSound s r)

  -- In every state that insertions of users into channels, removals from channels that are not
  -- freed and changes of connections reach, whatever memory is refused, a channel that is found
  -- in the table by a name without a zero has that name, is found by the hash of that name only,
  -- and has not been freed.
  pub find_locked-live :
      (s : Cycle) (kh : ℕ) (name : List ℕ) (ch : ℕ)
      → Reached s
      → IsText name
      → find_locked s.channels kh name ≡ some ch
      → ((s.channel ch).id ≡ name) × (kh ≡ hash_key_lc name) × (s.live ch ≡ true)
  find_locked-live s kh name ch r t e = (Reached-IsSound s r).named kh name ch t e
