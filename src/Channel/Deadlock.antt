-- ===== src/Channel/Deadlock.antt =====
-- Threads that insert and remove users, and wait for each other.
use chatease_server.Channel.Locks.{
  Place, entering, found, joining, leaving, removing, emptied, unlinking, kept, has_channels,
  has_users, Move, lock_channels, lock_users, unlock_users, unlock_channels, lock_users_kept,
  lock_channels_failed, lock_users_last, lock_unlinking, unlock_unlinking, unlock_kept, one_if,
  number, Step, is_start, Reachable, waiting, stepped, Turn-Move,
}
use chatease_server.Channel.Progress.{is_found, is_emptied, Crossing}
use chatease_server.Common.{
  ℕ, ◌+◌, ◌≤◌, ◌≡◌, refl, arith, Bool, true, false, ◌==◌, List, [], ◌∷◌, All,
}

number-ge :
    (p q r : Place → Bool)
    → ((a : Place) → one_if (q a) + one_if (r a) ≤ one_if (p a))
    → (ts : List Place) → number q ts + number r ts ≤ number p ts
unfolding number
number-ge p q r each [] = omega arith
number-ge p q r each (a ∷ ts) =
    let one = each a in let rest = number-ge p q r each ts in omega (arith, one, rest)

-- At most one thread has each lock.
abbrev IsExclusive : List Place → Type 0
IsExclusive ts = (number has_channels ts ≤ 1) × (number has_users ts ≤ 1)

start_number :
    (p : Place → Bool) (ts : List Place)
    → (p entering ≡ false)
    → (p removing ≡ false)
    → All (λ a. is_start a ≡ true) ts
    → number p ts ≡ 0
unfolding number
start_number p [] h h' all = refl
start_number p (entering ∷ ts) h h' (_, all) =
    let rest = start_number p ts h h' all in rw h (omega (arith, rest))
start_number p (removing ∷ ts) h h' (_, all) =
    let rest = start_number p ts h h' all in rw h' (omega (arith, rest))
start_number p (_ ∷ ts) h h' (e, all) = absurd (ground (arith, e))

-- A move keeps both counts at one or less.
moved :
    (a b : Place) (channels users : Bool) {n n' k k' : ℕ}
    → n + one_if (has_channels b) ≡ n' + one_if (has_channels a)
    → k + one_if (has_users b) ≡ k' + one_if (has_users a)
    → (n == 0) ≡ channels
    → (k == 0) ≡ users
    → Move channels users a b
    → n ≤ 1
    → k ≤ 1
    → (n' ≤ 1) × (k' ≤ 1)
moved _ _ channels users c u ec eu (lock_channels e) hc hu = ground (arith, c, u, ec, eu, hc, hu)
moved _ _ channels users c u ec eu (lock_channels_failed e) hc hu =
    ground (arith, c, u, ec, eu, hc, hu)
moved _ _ channels users c u ec eu (lock_users e) hc hu = ground (arith, c, u, ec, eu, hc, hu)
moved _ _ channels users c u ec eu unlock_users hc hu = ground (arith, c, u, ec, eu, hc, hu)
moved _ _ channels users c u ec eu unlock_channels hc hu = ground (arith, c, u, ec, eu, hc, hu)
moved _ _ channels users c u ec eu (lock_users_last e) hc hu = ground (arith, c, u, ec, eu, hc, hu)
moved _ _ channels users c u ec eu (lock_users_kept e) hc hu = ground (arith, c, u, ec, eu, hc, hu)
moved _ _ channels users c u ec eu (lock_unlinking e) hc hu = ground (arith, c, u, ec, eu, hc, hu)
moved _ _ channels users c u ec eu unlock_unlinking hc hu = ground (arith, c, u, ec, eu, hc, hu)
moved _ _ channels users c u ec eu unlock_kept hc hu = ground (arith, c, u, ec, eu, hc, hu)

Reachable-IsExclusive : (ts : List Place) → Reachable ts → IsExclusive ts
Reachable-IsExclusive _ (waiting ts all) =
    let c = start_number has_channels ts refl refl all in
    let u = start_number has_users ts refl refl all in (omega arith, omega arith)
Reachable-IsExclusive _ (stepped ts ts' r step) =
    let (c, u) = Reachable-IsExclusive ts r in
    let (a, b, move, same, one) = Turn-Move _ _ ts ts' step in
    moved a b _ _ (same has_channels) (same has_users) refl refl move c u

abbrev other_channels : Place → Bool
other_channels joining = true
other_channels leaving = true
other_channels unlinking = true
other_channels _ = false

abbrev other_users : Place → Bool
other_users joining = true
other_users unlinking = true
other_users kept = true
other_users _ = false

found_apart :
    (a : Place) → one_if (is_found a) + one_if (other_channels a) ≤ one_if (has_channels a)
found_apart found = omega arith
found_apart joining = omega arith
found_apart leaving = omega arith
found_apart unlinking = omega arith
found_apart _ = omega arith

emptied_apart : (a : Place) → one_if (is_emptied a) + one_if (other_users a) ≤ one_if (has_users a)
emptied_apart emptied = omega arith
emptied_apart joining = omega arith
emptied_apart unlinking = omega arith
emptied_apart kept = omega arith
emptied_apart _ = omega arith

-- With both locks taken, a thread without one has no move.
blocked :
    (a b : Place)
    → Move false false a b
    → one_if (other_channels a) ≡ 0
    → one_if (other_users a) ≡ 0
    → ⊥
blocked _ _ (lock_channels e) hc hu = ground (arith, e)
blocked _ _ (lock_channels_failed e) hc hu = ground (arith, e)
blocked _ _ (lock_users e) hc hu = ground (arith, e)
blocked _ _ unlock_users hc hu = ground (arith, hc)
blocked _ _ unlock_channels hc hu = ground (arith, hc)
blocked _ _ (lock_users_last e) hc hu = ground (arith, e)
blocked _ _ (lock_users_kept e) hc hu = ground (arith, e)
blocked _ _ (lock_unlinking e) hc hu = ground (arith, e)
blocked _ _ unlock_unlinking hc hu = ground (arith, hc)
blocked _ _ unlock_kept hc hu = ground (arith, hu)

-- When threads that insert and remove users, all of which started before their first lock, have
-- come so far that one inserts with the lock of the channels and another removes the last user
-- with the lock of the users, no thread ever makes a move again.
pub deadlock : (ts ts' : List Place) → Reachable ts → Crossing ts → ¬ Step ts ts'
deadlock ts ts' r (f, e) step =
    let (c, u) = Reachable-IsExclusive ts r in
    let others = number-ge has_channels is_found other_channels found_apart ts in
    let others' = number-ge has_users is_emptied other_users emptied_apart ts in
    let taken : (number has_channels ts == 0) ≡ false = ground (arith, others, f) in
    let taken' : (number has_users ts == 0) ≡ false = ground (arith, others', e) in
    let (a, b, move, same, one) = Turn-Move _ _ ts ts' step in
    let one_c = one other_channels in
    let one_u = one other_users in
    blocked a b (rw (taken, taken') at move) (omega (arith, others, one_c, c, f))
      (omega (arith, others', one_u, u, e))
