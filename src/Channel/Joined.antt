-- ===== src/Channel/Joined.antt =====
-- What `stu_channel_insert` leaves when it answers STU_OK.
use chatease_server.Channel.Cases.{created, join-cases, create-cases, insert-found, insert-new}
use chatease_server.Channel.Cycle.{Cycle, join_locked, insert}
use chatease_server.Channel.Reached.{Reached, Reached-IsSound}
use chatease_server.Channel.Safety.{created-IsSound}
use chatease_server.Common.{
  ℕ, ◌≡◌, inl, inr, refl, ap, ◌∙◌, arith, Bool, true, false, ◌==◌, List, [], ◌∷◌, ◌++◌, Option,
  none, some, Option-cases,
}
use chatease_server.Common.Scan.{rc_ok}
use chatease_server.Hash.Insert.{find_locked-insert_locked, insert_locked-IsAdded}
use chatease_server.Hash.Key.{hash_key_lc}
use chatease_server.Hash.Lookup.{IsLinked, kept}
use chatease_server.Hash.Table.{new_elt, bucket, find_elt, find_locked, init}
use chatease_server.Strings.Copy.{IsText}

-- What the table of users of a channel finds under an id.
abbrev pub user_found : Cycle → ℕ → List ℕ → Option ℕ
user_found s ch uid = find_locked (s.channel ch).userlist (hash_key_lc uid) uid

abbrev pub channel_found : Cycle → List ℕ → Option ℕ
channel_found s id = find_locked s.channels (hash_key_lc id) id

-- Who was found under a user id before the channel was entered: nobody, if it is new.
abbrev pub found_before : Cycle → List ℕ → Option ℕ → Option ℕ
found_before s uid none = none
found_before s uid (some ch) = user_found s ch uid

-- The list of users of a channel before it was entered: empty, if it is new.
abbrev pub keys_before : Cycle → Option ℕ → List ℕ
keys_before s none = []
keys_before s (some ch) = (s.channel ch).userlist.keys

-- The table of users of `ch` has a new element for connection `c` and its user id: at the end of the
-- list that frames are sent along, whose other elements are those of before, and in its bucket.
abbrev pub IsEntered : Cycle → List ℕ → List ℕ → ℕ → ℕ → Type 0
IsEntered after uid keys c ch =
    let users = (after.channel ch).userlist in
    (e : ℕ) × (users.elts e ≡ new_elt (hash_key_lc uid) uid c)
    × (users.keys ≡ keys ++ e ∷ [])
    × (q : List ℕ) × (bucket users (hash_key_lc uid) ≡ q ++ e ∷ [])

-- Connection `c` is a user of channel `ch`, which is live and found under `id`, and it was entered
-- into its table. Under its user id it is found itself, or the connection that was found there
-- before.
pub record IsMember (before after : Cycle) (id : List ℕ) (c ch : ℕ) : Type 0 where
  pub found : channel_found after id ≡ some ch
  pub live : after.live ch ≡ true
  pub own : (after.connection c).channel ≡ some ch
  pub listed :
      let uid = (before.connection c).user_id in
      user_found after ch uid ≡ kept false (found_before before uid (channel_found before id)) c
  pub entered :
      IsEntered after
        (before.connection c).user_id
        (keys_before before (channel_found before id))
        c
        ch

module _ (palloc : ℕ → Bool) (calloc : ℕ → ℕ → Bool) where
  join-IsMember :
      (was s : Cycle) (id : List ℕ) (ch c : ℕ)
      → IsLinked (s.channel ch).userlist
      → s.live ch ≡ true
      → channel_found s id ≡ some ch
      → was.connection c ≡ s.connection c
      → found_before was (s.connection c).user_id (channel_found was id)
        ≡ user_found s ch (s.connection c).user_id
      → keys_before was (channel_found was id) ≡ (s.channel ch).userlist.keys
      → (join_locked palloc calloc s ch c).rc ≡ rc_ok
      → IsMember was (join_locked palloc calloc s ch c).cycle id c ch
  join-IsMember was s id ch c linked alive e conn same keys ok =
      elim (join-cases palloc calloc s ch c) [
        | inl (rc, failed) ↦ absurd (let h = rw failed at ok in ground arith)
        | inr (rc, done) ↦
            let here : (c == c) ≡ true = ground arith in
            let there : (ch == ch) ≡ true = ground arith in
            let uid = (s.connection c).user_id in
            let listed =
              find_locked-insert_locked (calloc ch) true false (s.channel ch).userlist uid c linked
                rc in
            let entry = insert_locked-IsAdded (calloc ch) (s.channel ch).userlist uid c rc in
            rw done (record {
              found = e;
              live = alive;
              own = rw here refl;
              listed = rw (conn, there, same) listed;
              entered =
                  rw (conn, there, keys)
                    ((s.channel ch).userlist.next, entry.0, entry.1, _, entry.2);
            })
      ]

  -- In a reachable state, an insertion under a name without a zero that answers STU_OK makes the
  -- connection a user of the live channel that the name then finds: it is the last of the list of
  -- its users, behind those who were there before, and in the bucket of its user id, under which it is
  -- found unless another connection had that id.
  pub insert-IsMember :
      (s : Cycle) (id : List ℕ) (c : ℕ)
      → Reached palloc calloc s
      → IsText id
      → (insert palloc calloc s id c).rc ≡ rc_ok
      → (ch : ℕ) × IsMember s (insert palloc calloc s id c).cycle id c ch
  unfolding find_locked init find_elt
  insert-IsMember s id c r t ok =
      let sound = Reached-IsSound palloc calloc s r in
      elim (Option-cases (channel_found s id)) [
        | inr (ch, e) ↦
            let same = insert-found palloc calloc s id c ch e in
            let alive = (sound.named (hash_key_lc id) id ch t e).2 in
            let ok' = rw same at ok in
            (
              ch,
              rw same (
                  join-IsMember s s id ch c (sound.users ch alive) alive e refl (rw e refl)
                    (rw e refl) ok'),
            )
        | inl e ↦
            let same = insert-new palloc calloc s id c e in
            elim (create-cases palloc calloc s id) [
              | inl made ↦ absurd (let h = rw (same, made) at ok in ground arith)
              | inr (inl (rc, made)) ↦ absurd (let h = rw (same, made) at ok in ground arith)
              | inr (inr (rc, made)) ↦
                  let ok' = rw (same, made) at ok in
                  let top : (s.next == s.next) ≡ true = ground arith in
                  let made_sound = created-IsSound palloc calloc s id t e rc sound in
                  let alive : (created palloc s id).live s.next ≡ true = rw top refl in
                  let found =
                    find_locked-insert_locked palloc true true s.channels id s.next sound.linked
                      rc in
                  let found' : channel_found (created palloc s id) id ≡ some s.next =
                    found ∙ ap (λ o. kept true o s.next) e in
                  let nobody : found_before s (s.connection c).user_id (channel_found s id)
                      ≡ user_found (created palloc s id) s.next (s.connection c).user_id =
                    rw (e, top) refl in
                  let no_keys : keys_before s (channel_found s id)
                      ≡ ((created palloc s id).channel s.next).userlist.keys =
                    rw (e, top) refl in
                  (
                    s.next,
                    rw (same, made)
                        (join-IsMember s (created palloc s id) id s.next c
                          (made_sound.users s.next alive) alive found' refl nobody no_keys ok'),
                  )
            ]
      ]
