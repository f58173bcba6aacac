-- ===== src/Channel/Locks.antt =====
-- The two locks that insertions and removals of users take: `stu_cycle->channels.lock`, and
-- `userlist.lock` of one channel. Any number of threads run them.
use chatease_server.Common.{ℕ, ◌+◌, ◌≤◌, ◌≡◌, arith, Bool, true, false, ◌==◌, List, [], ◌∷◌, All}

-- Where a thread is. `stu_channel_insert`: before the lock of the channels (`entering`), with it
-- and before the lock of the users (`found`), with both (`joining`), and before the release of
-- the lock of the channels (`leaving`). `stu_channel_remove`: before the lock of the users
-- (`removing`), with it and before the lock that `stu_hash_remove` takes when no user is left
-- (`emptied`), with both (`unlinking`), and before the release of the lock of the users (`kept`).
pub data Place : Type 0 where
  entering found joining leaving removing emptied unlinking kept finished : Place

abbrev pub has_channels : Place → Bool
has_channels found = true
has_channels joining = true
has_channels leaving = true
has_channels unlinking = true
has_channels _ = false

abbrev pub has_users : Place → Bool
has_users joining = true
has_users emptied = true
has_users unlinking = true
has_users kept = true
has_users _ = false

-- What a thread does next; a lock is taken only when it is free.
pub data Move (channels users : Bool) : Place → Place → Type 0 where
  lock_channels : channels ≡ true → Move channels users entering found
  lock_channels_failed : channels ≡ true → Move channels users entering leaving
  lock_users : users ≡ true → Move channels users found joining
  unlock_users : Move channels users joining leaving
  unlock_channels : Move channels users leaving finished
  lock_users_last : users ≡ true → Move channels users removing emptied
  lock_users_kept : users ≡ true → Move channels users removing kept
  lock_unlinking : channels ≡ true → Move channels users emptied unlinking
  unlock_unlinking : Move channels users unlinking kept
  unlock_kept : Move channels users kept finished

-- One of the threads makes its move.
pub data Turn (channels users : Bool) : List Place → List Place → Type 0 where
  here :
      {a b : Place} {ts : List Place}
      → Move channels users a b
      → Turn channels users (a ∷ ts) (b ∷ ts)
  there :
      {a : Place} {ts ts' : List Place}
      → Turn channels users ts ts'
      → Turn channels users (a ∷ ts) (a ∷ ts')

abbrev pub one_if : Bool → ℕ
one_if true = 1
one_if false = 0

-- How many threads are at places of a kind.
unfoldable pub number : (Place → Bool) → List Place → ℕ
number p [] = 0
number p (a ∷ ts) = one_if (p a) + number p ts

abbrev pub Step : List Place → List Place → Type 0
Step ts ts' = Turn (number has_channels ts == 0) (number has_users ts == 0) ts ts'

abbrev pub is_start : Place → Bool
is_start entering = true
is_start removing = true
is_start _ = false

pub data Reachable : List Place → Type 0 where
  waiting : (ts : List Place) → All (λ a. is_start a ≡ true) ts → Reachable ts
  stepped : (ts ts' : List Place) → Reachable ts → Step ts ts' → Reachable ts'

-- What a turn changes.
pub Turn-Move :
    (channels users : Bool) (ts ts' : List Place)
    → Turn channels users ts ts'
    → (a : Place) × (b : Place) × Move channels users a b
      × ((p : Place → Bool) → number p ts + one_if (p b) ≡ number p ts' + one_if (p a))
      × ((p : Place → Bool) → one_if (p a) ≤ number p ts)
unfolding number
Turn-Move channels users _ _ (here {a} {b} {ts} move) =
    (a, b, move, (λ p. omega arith), λ p. omega arith)
Turn-Move channels users _ _ (there {a} {ts} {ts'} turn) =
    let (b, c, move, same, one) = Turn-Move channels users ts ts' turn in
    (b, c, move, (λ p. let h = same p in omega arith), λ p. let h = one p in omega arith)
