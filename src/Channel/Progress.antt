-- ===== src/Channel/Progress.antt =====
-- When some thread that inserts or removes users can go on.
use chatease_server.Channel.Locks.{
  Place, entering, found, joining, leaving, removing, emptied, unlinking, kept, finished,
  has_channels, has_users, Move, lock_channels, lock_users, unlock_users, unlock_channels,
  lock_users_kept, lock_unlinking, unlock_unlinking, unlock_kept, Turn, here, there, one_if, number,
  Step, is_start,
}
use chatease_server.Common.{
  ◌+◌, ◌≤◌, ◌<◌, ◌≡◌, ◌⊎◌, inl, inr, refl, arith, Bool, true, false, ◌==◌, List, [], ◌∷◌, All,
  Bool-cases,
}

abbrev pub is_found : Place → Bool
is_found found = true
is_found _ = false

abbrev pub is_emptied : Place → Bool
is_emptied emptied = true
is_emptied _ = false

-- A thread that has the lock of the channels, and one that waits for it and has the other lock.
abbrev pub Crossing : List Place → Type 0
Crossing ts = (0 < number is_found ts) × (0 < number is_emptied ts)

-- With a lock, and waiting for none.
abbrev is_running : Place → Bool
is_running joining = true
is_running leaving = true
is_running unlinking = true
is_running kept = true
is_running _ = false

abbrev is_finished : Place → Bool
is_finished finished = true
is_finished _ = false

-- A thread of a kind that can move makes a turn.
turn :
    (channels users : Bool) (p : Place → Bool)
    → ((a : Place) → p a ≡ true → (b : Place) × Move channels users a b)
    → (ts : List Place) → 0 < number p ts
    → (ts' : List Place) × Turn channels users ts ts'
unfolding number
turn channels users p move [] some_one = absurd (omega arith)
turn channels users p move (a ∷ ts) some_one = elim (Bool-cases (p a)) [
  | inl yes' ↦ let (b, m) = move a yes' in (b ∷ ts, here m)
  | inr other ↦
      let more : 0 < number p ts = let h = rw other at some_one in omega arith in
      let (ts', t) = turn channels users p move ts more in (a ∷ ts', there t)
]

run :
    (channels users : Bool) (a : Place)
    → is_running a ≡ true
    → (b : Place) × Move channels users a b
run channels users joining h = (leaving, unlock_users)
run channels users leaving h = (finished, unlock_channels)
run channels users unlinking h = (kept, unlock_unlinking)
run channels users kept h = (finished, unlock_kept)
run channels users _ h = absurd (ground (arith, h))

join : (channels : Bool) (a : Place) → is_found a ≡ true → (b : Place) × Move channels true a b
join channels found h = (joining, lock_users refl)
join channels _ h = absurd (ground (arith, h))

unlink : (users : Bool) (a : Place) → is_emptied a ≡ true → (b : Place) × Move true users a b
unlink users emptied h = (unlinking, lock_unlinking refl)
unlink users _ h = absurd (ground (arith, h))

begin : (a : Place) → is_start a ≡ true → (b : Place) × Move true true a b
begin entering h = (found, lock_channels refl)
begin removing h = (kept, lock_users_kept refl)
begin _ h = absurd (ground (arith, h))

number-le :
    (p q r : Place → Bool)
    → ((a : Place) → one_if (p a) ≤ one_if (q a) + one_if (r a))
    → (ts : List Place) → number p ts ≤ number q ts + number r ts
unfolding number
number-le p q r each [] = omega arith
number-le p q r each (a ∷ ts) =
    let one = each a in let rest = number-le p q r each ts in omega (arith, one, rest)

channels_held : (a : Place) → one_if (has_channels a) ≤ one_if (is_found a) + one_if (is_running a)
channels_held found = omega arith
channels_held joining = omega arith
channels_held leaving = omega arith
channels_held unlinking = omega arith
channels_held _ = omega arith

users_held : (a : Place) → one_if (has_users a) ≤ one_if (is_emptied a) + one_if (is_running a)
users_held emptied = omega arith
users_held joining = omega arith
users_held kept = omega arith
users_held unlinking = omega arith
users_held _ = omega arith

nobody_waits :
    (ts : List Place)
    → number is_running ts ≡ 0
    → number is_start ts ≡ 0
    → number is_found ts ≡ 0
    → number is_emptied ts ≡ 0
    → All (λ a. a ≡ finished) ts
unfolding number
nobody_waits [] h h1 h2 h3 = tt
nobody_waits (finished ∷ ts) h h1 h2 h3 =
    (refl, nobody_waits ts (omega arith) (omega arith) (omega arith) (omega arith))
nobody_waits (_ ∷ ts) h h1 h2 h3 = absurd (omega arith)

none_or_some : (p : Place → Bool) (ts : List Place) → (number p ts ≡ 0) ⊎ (0 < number p ts)
none_or_some p ts = ground arith

-- With any number of threads, each at any place: one of them can make its move, or all of them
-- have finished, or one inserts with the lock of the channels while another removes the last user
-- with the lock of the users.
pub progress :
    (ts : List Place)
    → ((ts' : List Place) × Step ts ts') ⊎ (All (λ a. a ≡ finished) ts ⊎ Crossing ts)
progress ts =
    let channels = number-le has_channels is_found is_running channels_held ts in
    let users = number-le has_users is_emptied is_running users_held ts in
    elim (none_or_some is_running ts) [
      | inr r ↦ inl (turn _ _ is_running (run _ _) ts r)
      | inl r ↦ elim (none_or_some is_found ts) [
        | inr f ↦ elim (none_or_some is_emptied ts) [
          | inr e ↦ inr (inr (f, e))
          | inl e ↦
              let free : (number has_users ts == 0) ≡ true = ground (arith, users, r, e) in
              inl (rw free (turn _ true is_found (join _) ts f))
        ]
        | inl f ↦ elim (none_or_some is_emptied ts) [
          | inr e ↦
              let free : (number has_channels ts == 0) ≡ true = ground (arith, channels, r, f) in
              inl (rw free (turn true _ is_emptied (unlink _) ts e))
          | inl e ↦
              let free : (number has_channels ts == 0) ≡ true = ground (arith, channels, r, f) in
              let free' : (number has_users ts == 0) ≡ true = ground (arith, users, r, e) in
              elim (none_or_some is_start ts) [
                | inr s ↦ inl (rw (free, free') (turn true true is_start begin ts s))
                | inl s ↦ inr (inl (nobody_waits ts r s f e))
              ]
        ]
      ]
    ]
