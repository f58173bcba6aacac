-- ===== src/Session/Rate.antt =====
-- How often a user's messages are sent on.
use chatease_server.Common.{
  ℕ, ◌+◌, ◌%◌, ◌^◌, ◌≤◌, ◌<◌, ◌≡◌, ◌≢◌, ◌⊎◌, false, Option, none, some, arith, List, [], ◌∷◌, ltb,
  ◌==◌, All, Bool-cases, Option-cases, inl, inr, if◌then◌else◌,
}
use chatease_server.Json.Parse.{Root, tree, null_pointer, unset, out_of_fuel}
use chatease_server.Json.Value.{Text, Json, Items, null, boolean, string, number, array, object}
use chatease_server.Session.Answer.{
  Speaker, Answer, Reading, refuse, accept, answer_body, answer_command, answer_object,
  analyze_request, permission,
}
use chatease_server.Session.Granted.{refuse-status}
use chatease_server.Session.Status

-- The times, in order, no two of them closer than `gap`.
abbrev pub AreSpaced : ℕ → ℕ → List ℕ → Type 0
AreSpaced gap t [] = Unit
AreSpaced gap t (t' ∷ ts) = (t + gap ≤ t') × AreSpaced gap t' ts

module _ (reading : Reading) where
  -- The times at which the messages of a user were sent on: each message is analyzed at a time of
  -- its own, for as long as the code reads what it may.
  unfoldable pub times_sent : Speaker → List (ℕ × Root) → List ℕ
  times_sent u [] = []
  times_sent u ((sec, root) ∷ rest) = elim (analyze_request reading u sec root) [
    | none ↦ []
    | some a ↦
        let later = times_sent (record u { active = a.active }) rest in
        if a.status == Status.ok then sec ∷ later else later
  ]

  -- Either nothing was sent on and the time of the last message is kept, or the time was tested.
  abbrev Moved : Speaker → ℕ → Answer → Type 0
  Moved u sec a =
      ((a.status ≢ Status.ok) × (a.active ≡ u.active))
      ⊎ ((a.active ≡ sec) × ((u.active + u.interval) % 2 ^ 64 ≤ sec))

  kept_active :
      (u : Speaker) (sec rc : ℕ) (req : Option ℕ) (a : Answer)
      → rc ≢ Status.ok
      → refuse reading rc u.active req ≡ some a
      → Moved u sec a
  kept_active u sec rc req a ne e =
      let r = refuse-status reading rc u.active req a e in inl (ground (arith, r.0, ne), r.1)

  accept-active :
      (body : Json) (active : ℕ) (req : Option ℕ) (a : Answer)
      → accept reading body active req ≡ some a
      → a.active ≡ active
  unfolding accept
  accept-active body active none a e = cc
  accept-active body active (some d) a e = ground (arith, e)

  answer_body-active :
      (active : ℕ) (req : Option ℕ) (body : Option Json) (a : Answer)
      → answer_body reading active req body ≡ some a
      → a.active ≡ active
  unfolding answer_body
  answer_body-active active req none a e = (refuse-status reading _ active req a e).1
  answer_body-active active req (some body) a e = accept-active body active req a e

  answer_command-active :
      (u : Speaker) (sec : ℕ) (xs : Items) (req : Option ℕ) (cmd : Option (Text × Text))
      (a : Answer)
      → answer_command reading u sec xs req cmd ≡ some a
      → a.active ≡ sec
  unfolding answer_command
  answer_command-active u sec xs req none a e = (refuse-status reading _ sec req a e).1
  answer_command-active u sec xs req (some cmd) a e =
      elim (Bool-cases (permission u cmd.1 == Status.ok)) [
        | inl allowed ↦ answer_body-active sec req _ a (rw allowed at e)
        | inr denied ↦ (refuse-status reading _ sec req a (rw denied at e)).1
      ]

  answer_object-Moved :
      (u : Speaker) (sec : ℕ) (xs : Items) (a : Answer)
      → answer_object reading u sec xs ≡ some a
      → Moved u sec a
  unfolding answer_object
  answer_object-Moved u sec xs a e =
      elim (Bool-cases (ltb sec ((u.active + u.interval) % 2 ^ 64))) [
        | inl early ↦ kept_active u sec _ _ a (omega arith) (rw early at e)
        | inr late ↦ inr (answer_command-active u sec xs _ _ a (rw late at e), ground (arith, late))
      ]

  analyze_request-Moved :
      (u : Speaker) (sec : ℕ) (root : Root) (a : Answer)
      → analyze_request reading u sec root ≡ some a
      → Moved u sec a
  unfolding analyze_request
  analyze_request-Moved u sec null_pointer a e = kept_active u sec _ _ a (omega arith) e
  analyze_request-Moved u sec unset a e = cc
  analyze_request-Moved u sec out_of_fuel a e = cc
  analyze_request-Moved u sec (tree null) a e = kept_active u sec _ _ a (omega arith) e
  analyze_request-Moved u sec (tree (boolean b)) a e = kept_active u sec _ _ a (omega arith) e
  analyze_request-Moved u sec (tree (string t)) a e = kept_active u sec _ _ a (omega arith) e
  analyze_request-Moved u sec (tree (number d)) a e = kept_active u sec _ _ a (omega arith) e
  analyze_request-Moved u sec (tree (array xs)) a e = kept_active u sec _ _ a (omega arith) e
  analyze_request-Moved u sec (tree (object xs)) a e = answer_object-Moved u sec xs a e

  AreSpaced-earlier :
      (gap t t' : ℕ) (ts : List ℕ) → t ≤ t' → AreSpaced gap t' ts → AreSpaced gap t ts
  AreSpaced-earlier gap t t' [] le h = tt
  AreSpaced-earlier gap t t' (s ∷ ts) le (first, h) = (omega arith, h)

  -- Whatever a user sends, and whatever the clock shows at each message, below 2^63
  -- milliseconds: the times of any two messages that are sent on one after the other are at least
  -- the user's interval apart, which fits its 16 bits, and the first one is as far behind the time
  -- of the user's last message before.
  pub times_sent-AreSpaced :
      (u : Speaker) (asked : List (ℕ × Root))
      → u.interval < 2 ^ 16
      → u.active < 2 ^ 63
      → All (λ x. x.0 < 2 ^ 63) asked
      → AreSpaced u.interval u.active (times_sent u asked)
  unfolding times_sent
  times_sent-AreSpaced u [] i t h = tt
  times_sent-AreSpaced u ((sec, root) ∷ rest) i t (now, h) =
      elim (Option-cases (analyze_request reading u sec root)) [
        | inl bad ↦ rw (times_sent, bad) tt
        | inr (a, e) ↦
            rw (times_sent, e)
              (elim (analyze_request-Moved u sec root a e) [
                | inl (refused, kept) ↦
                    let not_sent : (a.status == Status.ok) ≡ false = ground (arith, refused) in
                    rw (not_sent, kept) (times_sent-AreSpaced u rest i t h)
                | inr (set_now, late) ↦
                    let le : u.active + u.interval ≤ sec = omega arith in
                    let ih = times_sent-AreSpaced (record u { active = sec }) rest i now h in
                    elim (Bool-cases (a.status == Status.ok)) [
                      | inl sent ↦ rw (sent, set_now) (le, ih)
                      | inr refused ↦
                          rw (refused, set_now)
                            (AreSpaced-earlier u.interval u.active sec _ (omega arith) ih)
                    ]
              ])
      ]
