-- ===== src/HttpParse/RequestLine/Target.antt =====
-- What the uri loop makes of the target: the part of the uri behind its last slash.
use chatease_server.Common.Memory.{Mem}
use chatease_server.Common.{
  ℕ, zero, suc, ◌+◌, ◌-◌, ◌≤◌, ◌<◌, ◌≡◌, ◌≢◌, ◌⊎◌, inl, inr, refl, arith, Bool-cases, ◌==◌,
  if◌then◌else◌,
}

-- `r->target.data` before the byte at `u + i`, for a uri that starts at `u`.
abbrev pub slash_before : Mem → ℕ → ℕ → ℕ
slash_before m u zero = u
slash_before m u (suc i) = if m (u + i) == b'/' then u + i else slash_before m u i

-- `t` starts the part of the bytes from `u` up to `e` that follows their last slash, or all of
-- them if there is none.
pub record IsTarget (m : Mem) (u e t : ℕ) : Type 0 where
  pub from_uri : u ≤ t
  pub before_end : t ≤ e
  pub starts : (t ≡ u) ⊎ (m (t - 1) ≡ b'/')
  pub no_slash : (a : ℕ) → t ≤ a → a < e → m a ≢ b'/'

-- The last slash in front of `u + i` is the last one: behind it there is none.
pub slash_before_lem :
    (m : Mem) (u i : ℕ)
    → let t = slash_before m u i in
      (u ≤ t)
      × (t ≤ u + i)
      × ((t ≡ u) ⊎ ((m t ≡ b'/') × (t < u + i)))
      × ((a : ℕ) → t < a → a < u + i → m a ≢ b'/')
slash_before_lem m u zero = (omega arith, omega arith, inl refl, λ a lo hi. absurd (omega arith))
slash_before_lem m u (suc i) = elim (Bool-cases (m (u + i) == b'/')) [
  | inl slash ↦
      rw slash
        (omega arith, omega arith, inr (ground arith, omega arith), λ a lo hi. absurd (omega arith))
  | inr other ↦
      let ih = slash_before_lem m u i in
      rw other (ih.0, omega (arith, ih.1), ground (arith, ih.2), λ a lo hi. ground (arith, ih.3 a))
]

-- Where the target starts: behind the last slash, if that byte is one.
abbrev pub target_start : Mem → ℕ → ℕ → ℕ
target_start m u n = let t = slash_before m u n in if m t == b'/' then t + 1 else t

pub target_start-IsTarget : (m : Mem) (u n : ℕ) → 0 < n → IsTarget m u (u + n) (target_start m u n)
target_start-IsTarget m u n h =
    let facts = slash_before_lem m u n in
    elim (Bool-cases (m (slash_before m u n) == b'/')) [
      | inl slash ↦ rw slash (record {
        from_uri = omega (arith, facts.0);
        before_end = ground (arith, facts.2);
        starts = inr (ground (arith, facts.0));
        no_slash = λ a lo hi. facts.3 a (omega arith) hi;
      })
      | inr other ↦ rw other (record {
        from_uri = facts.0;
        before_end = facts.1;
        starts = ground (arith, facts.2);
        no_slash = λ a lo hi. ground (arith, facts.3 a);
      })
    ]
