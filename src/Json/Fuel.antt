-- ===== src/Json/Fuel.antt =====
-- How much fuel the parser needs.
use chatease_server.Common.Memory.{Mem, matches}
use chatease_server.Common.{
  ℕ, zero, suc, ◌+◌, ◌≤◌, ◌<◌, ◌≡◌, ◌⊎◌, inl, inr, refl, ap, ◌∙◌, arith, ◌==◌, some, Bool-cases,
}
use chatease_server.Json.Parse.{
  Parsed, done, failed, StringState, sw_str_start, sw_str, sw_str_end, Separator, comma, closed,
  ended, bad, is_blank, skip_blanks, separator, string_loop, parse_specific, after, wrap,
}
use chatease_server.Json.Print.{null_word, true_word, false_word}
use chatease_server.Json.Value.{Json, Items}

abbrev pub IsOver {ℓ} : {A : Type ℓ} → Parsed A → Type 0
IsOver (done n a) = Unit
IsOver (failed e) = Unit
IsOver Parsed.unset = Unit
IsOver Parsed.out_of_fuel = ⊥

-- A result that is not `out_of_fuel`.
pub record Stops {A : Type 0} (r : Parsed A) : Type 0 where
  pub over : IsOver r

abbrev pub over : {A : Type 0} {r : Parsed A} → IsOver r → Stops r
over h = record { over = h }

pub Stops-after : {A : Type 0} (pos : ℕ) (r : Parsed A) → Stops r → Stops (after pos r)
Stops-after pos (done n a) h = over tt
Stops-after pos (failed e) h = over tt
Stops-after pos Parsed.unset h = over tt
Stops-after pos Parsed.out_of_fuel h = elim h.over [ ]

pub Stops-wrap : (f : Items → Json) (r : Parsed Items) → Stops r → Stops (wrap f r)
Stops-wrap f (done n a) h = over tt
Stops-wrap f (failed e) h = over tt
Stops-wrap f Parsed.unset h = over tt
Stops-wrap f Parsed.out_of_fuel h = elim h.over [ ]

pub Stops-cases :
    {A : Type 0} (r : Parsed A)
    → Stops r
    → ((n : ℕ) × (a : A) × (r ≡ done n a)) ⊎ (((e : ℕ) × (r ≡ failed e)) ⊎ (r ≡ Parsed.unset))
Stops-cases (done n a) h = inl (n, a, refl)
Stops-cases (failed e) h = inr (inl (e, refl))
Stops-cases Parsed.unset h = inr (inr refl)
Stops-cases Parsed.out_of_fuel h = elim h.over [ ]

module _ (m : Mem) where
  -- Blanks end before a zero.
  pub skip_stops :
      (f p len : ℕ)
      → m (p + len) ≡ 0
      → len < f
      → (k : ℕ) × (k ≤ len) × (skip_blanks m f p ≡ some (p + k))
  unfolding skip_blanks
  skip_stops zero p len z lt = absurd (omega arith)
  skip_stops (suc f) p zero z lt =
      let here : p + 0 ≡ p = omega arith in
      let z' : m p ≡ 0 = rw here at z in (0, omega arith, rw (skip_blanks, z', here) refl)
  skip_stops (suc f) p (suc len) z lt = elim (Bool-cases (is_blank (m p))) [
    | inl h ↦
        let next : p + suc len ≡ p + 1 + len = omega arith in
        let (k, le, e) = skip_stops f (p + 1) len (rw next at z) (omega arith) in
        let there : p + 1 + k ≡ p + suc k = omega arith in
        (suc k, omega arith, rw h (e ∙ ap (λ q. some q) there))
    | inr h ↦ (0, omega arith, rw h (ap (λ q. some q) (omega arith)))
  ]

  pub string_stops : (p left pos : ℕ) (st : StringState) → Stops (string_loop m p left pos st)
  unfolding string_loop
  string_stops p zero pos StringState.sw_start = over tt
  string_stops p zero pos sw_str_start = over tt
  string_stops p zero pos (sw_str s) = over tt
  string_stops p zero pos (sw_str_end t) = over tt
  string_stops p (suc left) pos StringState.sw_start = elim (Bool-cases (m (p + pos) == b'"')) [
    | inl h ↦ rw h (string_stops p left (pos + 1) sw_str_start)
    | inr h ↦ rw h (elim (Bool-cases (is_blank (m (p + pos)))) [
      | inl h' ↦ rw h' (string_stops p left (pos + 1) StringState.sw_start)
      | inr h' ↦ rw h' (over tt)
    ])
  ]
  string_stops p (suc left) pos sw_str_start = string_stops p left (pos + 1) _
  string_stops p (suc left) pos (sw_str s) = string_stops p left (pos + 1) _
  string_stops p (suc left) pos (sw_str_end t) = over tt

  pub specific_stops : (f p len : ℕ) → m (p + len) ≡ 0 → len < f → Stops (parse_specific m f p)
  unfolding parse_specific
  specific_stops f p len z lt =
      let (k, le, e) = skip_stops f p len z lt in
      rw (parse_specific, e)
        (elim (Bool-cases (matches m (p + k) null_word)) [
          | inl h ↦ rw h (over tt)
          | inr h ↦ rw h (elim (Bool-cases (matches m (p + k) true_word)) [
            | inl h' ↦ rw h' (over tt)
            | inr h' ↦ rw h' (elim (Bool-cases (matches m (p + k) false_word)) [
              | inl h'' ↦ rw h'' (over tt)
              | inr h'' ↦ rw h'' (over tt)
            ])
          ])
        ])

  -- The loop behind a value never goes back.
  abbrev pub IsFrom : ℕ → Separator → Type 0
  IsFrom pos (comma q) = pos ≤ q
  IsFrom pos (closed q) = pos ≤ q
  IsFrom pos (ended q) = pos ≤ q
  IsFrom pos (bad q) = Unit

  pub IsFrom-le : (pos pos' : ℕ) (s : Separator) → pos ≤ pos' → IsFrom pos' s → IsFrom pos s
  IsFrom-le pos pos' (comma q) le h = omega arith
  IsFrom-le pos pos' (closed q) le h = omega arith
  IsFrom-le pos pos' (ended q) le h = omega arith
  IsFrom-le pos pos' (bad q) le h = tt

  pub separator-IsFrom : (c p left pos : ℕ) → IsFrom pos (separator m c p left pos)
  unfolding separator
  separator-IsFrom c p zero pos = omega arith
  separator-IsFrom c p (suc left) pos =
      let rest =
        IsFrom-le pos (pos + 1) (separator m c p left (pos + 1)) (omega arith)
          (separator-IsFrom c p left (pos + 1)) in
      elim (Bool-cases (is_blank (m (p + pos)))) [
        | inl h ↦ rw h rest
        | inr h ↦ elim (Bool-cases (m (p + pos) == b',')) [
          | inl h' ↦ rw (h, h') (omega arith)
          | inr h' ↦ elim (Bool-cases (m (p + pos) == c)) [
            | inl h'' ↦ rw (h, h', h'') (omega arith)
            | inr h'' ↦ rw (h, h', h'') tt
          ]
        ]
      ]
