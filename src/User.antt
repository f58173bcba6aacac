-- ===== src/User.antt =====
-- stu_user.c: the role of a user, and how long it waits between messages.
mod Tests
use chatease_server.Common.{
  ℕ, zero, suc, ◌+◌, ◌-◌, ◌*◌, ◌≤◌, ◌<◌, ◌≡◌, refl, arith, Bool, true, ◌==◌, leb, leb→le, bit_and,
  List, if◌then◌else◌, passes_below, passes_at, Bool-cases, inl, inr,
}

-- Of `stu_user_t` the role and the interval in milliseconds.
pub record User : Type 0 where
  pub role : ℕ
  pub interval : ℕ

-- `stu_user_get_interval`; halving 2000 is exact.
unfoldable pub get_interval : ℕ → ℕ
get_interval role =
    let vip = role - 1 in
    if bit_and role 0xF0 == 0
    then (if role == 0
        then 2000
        else if vip == 0
        then 1000
        else if leb (vip * 100) 1000
        then 1000 - vip * 100
        else 0)
    else 0

-- `stu_user_set_role`; `u` is what the user was.
unfoldable pub set_role : User → ℕ → User
set_role u role = record u { role = role; interval = get_interval role }

next_run : passes_below (λ role. leb (get_interval (role + 1)) (get_interval role)) 255 ≡ true
unfolding passes_below get_interval
next_run = refl

next_interval : (role : ℕ) → role < 255 → get_interval (role + 1) ≤ get_interval role
next_interval role h =
    leb→le (get_interval (role + 1)) (get_interval role)
      (passes_at (λ i. leb (get_interval (i + 1)) (get_interval i)) 255 role next_run h)

higher_interval : (role n : ℕ) → role + n < 256 → get_interval (role + n) ≤ get_interval role
higher_interval role zero h = let same : role + 0 ≡ role = omega arith in rw same (omega arith)
higher_interval role (suc n) h =
    let ih = higher_interval role n (omega arith) in
    let one = next_interval (role + n) (omega arith) in
    let same : role + suc n ≡ role + n + 1 = omega arith in rw same (omega (arith, ih, one))

-- A user with a role of one byte that is as high as that of another or higher never waits longer
-- than the other, and 2000 milliseconds at most.
pub set_role-interval :
    (u v : User) (low high : ℕ)
    → low ≤ high
    → high < 256
    → ((set_role u high).interval ≤ (set_role v low).interval) × ((set_role v low).interval ≤ 2000)
unfolding set_role get_interval
set_role-interval u v low high le lt =
    let same : low + (high - low) ≡ high = omega arith in
    let step = higher_interval low (high - low) (omega arith) in
    let bound = higher_interval 0 low (omega arith) in
    let here : 0 + low ≡ low = omega arith in (rw same at step, rw here at bound)
