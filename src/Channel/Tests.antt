-- ===== src/Channel/Tests.antt =====
-- Users join and leave channels, and the theorems at inputs that meet their hypotheses.
use chatease_server.Channel.Cycle.{Cycle, insert, join_locked, create, remove, new_channel}
use chatease_server.Channel.Joined.{IsMember, channel_found, insert-IsMember}
use chatease_server.Channel.Left.{remove-insert}
use chatease_server.Channel.Reached.{Reached, started, inserted, find_locked-live}
use chatease_server.Channel.Deadlock.{deadlock}
use chatease_server.Channel.Progress.{Crossing, progress}
use chatease_server.Channel.Locks.{
  Place, entering, found, joining, removing, emptied, finished, lock_channels, lock_users_last,
  here, there, number, Step, Reachable, waiting, stepped,
}
use chatease_server.Common.Scan.{rc_ok}
use chatease_server.Common.{
  ℕ, ◌≡◌, refl, arith, Bool, true, false, ◌⊎◌, All, List, [], ◌∷◌, none, some,
}
use chatease_server.Hash.Key.{hash_key_lc, hash_key_lc_from, hash, tolower}
use chatease_server.Hash.Table.{
  init, find_locked, find_elt, is_key, insert_locked, insert_hashed, place, append, link,
}
use chatease_server.Strings.Copy.{strncpy, same_bytes, copy_loop}

abbrev granted : ℕ → Bool
granted n = true

abbrev granted_all : ℕ → ℕ → Bool
granted_all ch n = true

-- No channel, and connections with the same user.
abbrev quiet : Cycle
quiet = record {
  channels = init 512 1;
  channel = λ ch. new_channel [];
  live = λ ch. false;
  next = 0;
  connection = λ c. record { fd = c; user_id = b'7' ∷ []; channel = none };
}

abbrev room : List ℕ
room = b'0' ∷ b'1' ∷ []

entered_ok : (insert granted granted_all quiet room 5).rc ≡ rc_ok
unfolding insert join_locked create insert_locked insert_hashed place append link init find_locked
    find_elt hash_key_lc hash_key_lc_from hash tolower
entered_ok = refl

quiet-Reached : Reached granted granted_all quiet
quiet-Reached = started 512 1 quiet refl (λ ch. refl)

insert-IsMember_example :
    (ch : ℕ) × IsMember quiet (insert granted granted_all quiet room 5).cycle room 5 ch
insert-IsMember_example =
    insert-IsMember granted granted_all quiet room 5 quiet-Reached (ground arith) entered_ok

entered_found :
    find_locked (insert granted granted_all quiet room 5).cycle.channels (hash_key_lc room) room
    ≡ some 0
unfolding insert join_locked create insert_locked insert_hashed place append link init find_locked
    find_elt is_key strncpy same_bytes copy_loop hash_key_lc hash_key_lc_from hash tolower
entered_found = refl

find_locked-live_example :
    let s = (insert granted granted_all quiet room 5).cycle in
    ((s.channel 0).id ≡ room) × (hash_key_lc room ≡ hash_key_lc room) × (s.live 0 ≡ true)
find_locked-live_example =
    find_locked-live granted granted_all (insert granted granted_all quiet room 5).cycle
      (hash_key_lc room) room 0 (inserted quiet room 5 (ground arith) quiet-Reached) (ground arith)
      entered_found

nothing_found : channel_found quiet room ≡ none
unfolding init find_locked find_elt
nothing_found = refl

remove-insert_example :
    let after = remove (insert granted granted_all quiet room 5).cycle 0 5 in
    (channel_found after room ≡ none) × (after.live 0 ≡ false)
remove-insert_example = remove-insert granted granted_all quiet room 5 nothing_found entered_ok

-- One thread inserts a user into the channel that another is about to leave empty.
abbrev crossed : List Place
crossed = found ∷ emptied ∷ []

crossed-Reachable : Reachable crossed
unfolding number
crossed-Reachable =
    stepped (found ∷ removing ∷ []) crossed
      (stepped (entering ∷ removing ∷ []) (found ∷ removing ∷ [])
        (waiting (entering ∷ removing ∷ []) (refl, (refl, tt))) (here (lock_channels refl)))
      (there (here (lock_users_last refl)))

crossed-Crossing : Crossing crossed
unfolding number
crossed-Crossing = (omega arith, omega arith)

deadlock_example : ¬ Step crossed (joining ∷ emptied ∷ [])
deadlock_example = deadlock crossed (joining ∷ emptied ∷ []) crossed-Reachable crossed-Crossing

progress_example :
    ((ts : List Place) × Step (found ∷ removing ∷ []) ts)
    ⊎ (All (λ a. a ≡ finished) (found ∷ removing ∷ []) ⊎ Crossing (found ∷ removing ∷ []))
progress_example = progress (found ∷ removing ∷ [])
