-- ===== src/Channel/Left.antt =====
-- A user who joins a new channel and leaves it.
use chatease_server.Channel.Cases.{user_inserted, created, join-cases, create-cases, insert-new}
use chatease_server.Channel.Cycle.{
  Cycle, with_userlist, joined, user_maximum, insert, find_user, remove_user, remove_empty, remove,
  fd_in,
}
use chatease_server.Channel.Joined.{channel_found}
use chatease_server.Channel.Safety.{id_kept}
use chatease_server.Common.{
  ℕ, ◌%◌, ◌≡◌, inl, inr, refl, ◌∙◌, arith, Bool, true, false, ◌==◌, List, none, Bool-cases,
}
use chatease_server.Common.Scan.{rc_ok}
use chatease_server.Hash.Insert.{opened}
use chatease_server.Hash.Key.{hash_key_lc}
use chatease_server.Hash.Remove.{find_locked-remove_locked}
use chatease_server.Hash.Search.{is_key-new_elt}
use chatease_server.Hash.Table.{Hash, init, link, append, place, insert_hashed, insert_locked}

-- The table with its first user.
abbrev first_user : List ℕ → ℕ → Hash
first_user uid c = link (opened (init user_maximum 3) (hash_key_lc uid)) (hash_key_lc uid) uid c

insert-first_user :
    (palloc : ℕ → Bool) (uid : List ℕ) (c : ℕ)
    → (insert_locked palloc true false (init user_maximum 3) uid c).rc ≡ rc_ok
    → (insert_locked palloc true false (init user_maximum 3) uid c).hash ≡ first_user uid c
unfolding insert_locked insert_hashed place append init
insert-first_user palloc uid c ok = elim (Bool-cases (palloc 3)) [
  | inr h ↦ absurd (let ok' = rw h at ok in ground arith)
  | inl h ↦ elim (Bool-cases (palloc 4)) [
    | inr h' ↦ absurd (let ok' = rw (h, h') at ok in ground arith)
    | inl h' ↦ elim (Bool-cases (palloc 5)) [
      | inr h'' ↦ absurd (let ok' = rw (h, h', h'') at ok in ground arith)
      | inl h'' ↦ rw (h, h', h'') refl
    ]
  ]
]

remove_user-first_user :
    (fd_of : ℕ → ℕ) (uid : List ℕ) (c : ℕ)
    → (remove_user (first_user uid c) fd_of uid (fd_of c)).length ≡ 0
unfolding remove_user find_user link init
remove_user-first_user fd_of uid c =
    let here : (hash_key_lc uid % 512 == hash_key_lc uid % 512) ≡ true = ground arith in
    let mine = is_key-new_elt (hash_key_lc uid) uid c in
    let same : (fd_of c == fd_of c) ≡ true = ground arith in
    rw (remove_user, here, here, mine, same) refl

abbrev IsClosed : Cycle → ℕ → List ℕ → Type 0
IsClosed s ch id = (channel_found s id ≡ none) × (s.live ch ≡ false)

remove_empty-IsClosed :
    (s : Cycle) (ch : ℕ) (id : List ℕ)
    → (s.channel ch).id ≡ id
    → (s.channel ch).userlist.length ≡ 0
    → IsClosed (remove_empty s ch) ch id
unfolding remove_empty
remove_empty-IsClosed s ch id e empty =
    let none_left : ((s.channel ch).userlist.length == 0) ≡ true = ground (arith, empty) in
    let here : (ch == ch) ≡ true = ground arith in
    rw (remove_empty, none_left, e)
      (find_locked-remove_locked s.channels (hash_key_lc id) id, rw here refl)

-- The only user of a channel leaves it.
remove-IsClosed :
    (s : Cycle) (ch c : ℕ) (id uid : List ℕ)
    → (s.channel ch).id ≡ id
    → (s.connection c).user_id ≡ uid
    → (s.channel ch).userlist ≡ first_user uid c
    → IsClosed (remove s ch c) ch id
unfolding remove
remove-IsClosed s ch c id uid name user one =
    let here : (ch == ch) ≡ true = ground arith in
    let users =
      remove_user (s.channel ch).userlist (fd_in s) (s.connection c).user_id (fd_in s c) in
    let gone : users.length ≡ 0 = rw (user, one) (remove_user-first_user (fd_in s) uid c) in
    remove_empty-IsClosed (with_userlist s ch users) ch id (id_kept s ch users ch ∙ name)
      (rw here gone)

userlist_new : (s : Cycle) (ch : ℕ) (h : Hash) → ((with_userlist s ch h).channel ch).userlist ≡ h
userlist_new s ch h = let here : (ch == ch) ≡ true = ground arith in rw here refl

user_id_kept :
    (s : Cycle) (ch c : ℕ) → ((joined s ch c).connection c).user_id ≡ (s.connection c).user_id
user_id_kept s ch c = let here : (c == c) ≡ true = ground arith in rw here refl

module _ (palloc : ℕ → Bool) (calloc : ℕ → ℕ → Bool) where
  -- The first user of a channel joins it and leaves it.
  remove-join :
      (s : Cycle) (ch c : ℕ) (id : List ℕ)
      → (s.channel ch).id ≡ id
      → (s.channel ch).userlist ≡ init user_maximum 3
      → (user_inserted calloc s ch c).rc ≡ rc_ok
      → IsClosed
          (remove (joined (with_userlist s ch (user_inserted calloc s ch c).hash) ch c) ch c)
          ch
          id
  remove-join s ch c id name new rc =
      let users = (user_inserted calloc s ch c).hash in
      let uid = (s.connection c).user_id in
      let one : users ≡ first_user uid c =
        rw new (insert-first_user (calloc ch) uid c (rw new at rc)) in
      remove-IsClosed (joined (with_userlist s ch users) ch c) ch c id uid
        (id_kept s ch users ch ∙ name) (user_id_kept (with_userlist s ch users) ch c)
        (userlist_new s ch users ∙ one)

  -- When an insertion makes a new channel and answers STU_OK, the removal of the same connection
  -- from it takes the channel out of the table and frees it.
  pub remove-insert :
      (s : Cycle) (id : List ℕ) (c : ℕ)
      → channel_found s id ≡ none
      → (insert palloc calloc s id c).rc ≡ rc_ok
      → let after = remove (insert palloc calloc s id c).cycle s.next c in
        (channel_found after id ≡ none) × (after.live s.next ≡ false)
  remove-insert s id c missing ok =
      let same = insert-new palloc calloc s id c missing in
      elim (create-cases palloc calloc s id) [
        | inl made ↦ absurd (let h = rw (same, made) at ok in ground arith)
        | inr (inl (rc, made)) ↦ absurd (let h = rw (same, made) at ok in ground arith)
        | inr (inr (rc, made)) ↦ elim (join-cases palloc calloc (created palloc s id) s.next c) [
          | inl (rc', done) ↦ absurd (let h = rw (same, made, done) at ok in ground arith)
          | inr (rc', done) ↦
              let there : (s.next == s.next) ≡ true = ground arith in
              let name : ((created palloc s id).channel s.next).id ≡ id = rw there refl in
              let new : ((created palloc s id).channel s.next).userlist ≡ init user_maximum 3 =
                rw there refl in
              rw (same, made, done) (remove-join (created palloc s id) s.next c id name new rc')
        ]
      ]
