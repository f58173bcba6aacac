-- ===== src/Channel/Cases.antt =====
-- What each function of stu_channel.c can do.
use chatease_server.Channel.Cycle.{
  Cycle, with_userlist, joined, new_channel, join_locked, create, join_created, insert,
}
use chatease_server.Common.{
  ℕ, ◌+◌, ◌≡◌, ◌⊎◌, inl, inr, refl, Bool, true, false, List, none, some, Bool-cases,
}
use chatease_server.Common.Scan.{rc_ok, rc_error}
use chatease_server.Hash.Insert.{insert_locked-rc}
use chatease_server.Hash.Key.{hash_key_lc}
use chatease_server.Hash.Table.{Result, set_at, find_locked, insert_locked}

-- The insertion of a user into the table of a channel, and of a channel into the table of all.
abbrev pub user_inserted : (ℕ → ℕ → Bool) → Cycle → ℕ → ℕ → Result
user_inserted calloc s ch c =
    insert_locked (calloc ch) true false (s.channel ch).userlist (s.connection c).user_id c

abbrev pub channel_inserted : (ℕ → Bool) → Cycle → List ℕ → Result
channel_inserted palloc s id = insert_locked palloc true true s.channels id s.next

-- The state with a new channel.
abbrev pub created : (ℕ → Bool) → Cycle → List ℕ → Cycle
created palloc s id = record s {
  channels = (channel_inserted palloc s id).hash;
  channel = set_at s.channel s.next (new_channel id);
  live = set_at s.live s.next true;
  next = s.next + 1;
}

module _ (palloc : ℕ → Bool) (calloc : ℕ → ℕ → Bool) (s : Cycle) where
  pub join-cases :
      (ch c : ℕ)
      → ((user_inserted calloc s ch c).rc ≡ rc_error)
          × (join_locked palloc calloc s ch c ≡ record {
            rc = rc_error;
            cycle = with_userlist s ch (user_inserted calloc s ch c).hash;
          })
        ⊎ ((user_inserted calloc s ch c).rc ≡ rc_ok)
          × (join_locked palloc calloc s ch c ≡ record {
            rc = rc_ok;
            cycle = joined (with_userlist s ch (user_inserted calloc s ch c).hash) ch c;
          })
  unfolding join_locked
  join-cases ch c =
      elim (insert_locked-rc (calloc ch) true false (s.channel ch).userlist (s.connection c).user_id
        c) [
          | inl ok ↦ inr (ok, rw (join_locked, ok) refl)
          | inr failed ↦ inl (failed, rw (join_locked, failed) refl)
        ]

  pub create-cases :
      (id : List ℕ)
      → (create palloc calloc s id ≡ (none, record s { next = s.next + 1 }))
        ⊎ (((channel_inserted palloc s id).rc ≡ rc_error)
            × (create palloc calloc s id ≡ (
              none,
              record s { channels = (channel_inserted palloc s id).hash; next = s.next + 1 },
            )))
        ⊎ (((channel_inserted palloc s id).rc ≡ rc_ok)
            × (create palloc calloc s id ≡ (some s.next, created palloc s id)))
  unfolding create
  create-cases id = elim (Bool-cases (calloc s.next 0)) [
    | inr h ↦ inl (rw h refl)
    | inl h ↦ elim (Bool-cases (calloc s.next 1)) [
      | inr h' ↦ inl (rw (h, h') refl)
      | inl h' ↦ elim (Bool-cases (calloc s.next 2)) [
        | inr h'' ↦ inl (rw (h, h', h'') refl)
        | inl h'' ↦ elim (insert_locked-rc palloc true true s.channels id s.next) [
          | inl ok ↦ inr (inr (ok, rw (h, h', h'', ok) refl))
          | inr failed ↦ inr (inl (failed, rw (h, h', h'', failed) refl))
        ]
      ]
    ]
  ]

  pub insert-found :
      (id : List ℕ) (c ch : ℕ)
      → find_locked s.channels (hash_key_lc id) id ≡ some ch
      → insert palloc calloc s id c ≡ join_locked palloc calloc s ch c
  unfolding insert
  insert-found id c ch e = rw (insert, e) refl

  pub insert-new :
      (id : List ℕ) (c : ℕ)
      → find_locked s.channels (hash_key_lc id) id ≡ none
      → insert palloc calloc s id c ≡ join_created palloc calloc (create palloc calloc s id) c
  unfolding insert
  insert-new id c e = rw (insert, e) refl
