-- ===== src/Upstream/Cycle.antt =====
-- One round over all servers picks each as often as its weight says.
use chatease_server.Common.{
  ℕ, zero, suc, ◌+◌, ◌≤◌, ◌<◌, ◌≡◌, refl, ap, ◌∙◌, arith, Option, none, some, List, [], ◌∷◌, ◌++◌,
  length,
}
use chatease_server.Upstream.Balance.{Turn, weight, next_server, search_server, pick, picks}

abbrev turn : ℕ → ℕ → Option Turn
turn i k = some (record { obj = i; size = k })

abbrev pub replicate : ℕ → ℕ → List ℕ
replicate zero i = []
replicate (suc n) i = i ∷ replicate n i

module _ (weights : List ℕ) where
  search_here :
      (fuel i k : ℕ) → k < weight weights i → search_server weights fuel i k ≡ turn i (k + 1)
  unfolding search_server
  search_here zero i k h = ground arith
  search_here (suc fuel) i k h = ground arith

  search_next :
      (fuel i k : ℕ)
      → weight weights i ≤ k
      → 0 < fuel
      → 0 < weight weights (next_server weights i)
      → search_server weights fuel i k ≡ turn (next_server weights i) 1
  unfolding search_server
  search_next zero i k full left pos = absurd (omega arith)
  search_next (suc fuel) i k full left pos =
      let rest = search_here fuel (next_server weights i) 0 pos in ground (arith, rest)

  -- The servers that successive picks give, from one turn to another.
  data Served : Option Turn → List ℕ → Option Turn → Type 0 where
    rest : {s : Option Turn} → Served s [] s
    then_pick :
        {s s' : Option Turn} {t : Turn} {xs : List ℕ}
        → pick weights s ≡ some t
        → Served (some t) xs s'
        → Served s (t.obj ∷ xs) s'

  Served-append :
      {s s' s'' : Option Turn} {xs ys : List ℕ}
      → Served s xs s'
      → Served s' ys s''
      → Served s (xs ++ ys) s''
  Served-append rest b = b
  Served-append (then_pick e a) b = then_pick e (Served-append a b)

  Served-picks :
      {s s' : Option Turn} {xs : List ℕ}
      → Served s xs s'
      → picks weights (length xs) s ≡ some (xs, s')
  unfolding picks
  Served-picks rest = refl
  Served-picks (then_pick e a) = rw (picks, e, Served-picks a) refl

  -- A server that is current goes on until its weight is used up.
  serve :
      (n i k : ℕ) → k + n ≤ weight weights i → Served (turn i k) (replicate n i) (turn i (k + n))
  unfolding pick
  serve zero i k h = let same : k + 0 ≡ k = omega arith in rw same rest
  serve (suc n) i k h =
      let same : k + suc n ≡ k + 1 + n = omega arith in
      rw same (
        then_pick (search_here (length weights) i k (omega arith))
          (serve n i (k + 1) (omega arith)))

  -- The turns of the servers before `j`.
  abbrev pub blocks : ℕ → List ℕ
  blocks zero = []
  blocks (suc j) = blocks j ++ replicate (weight weights j) j

  -- All servers have a weight.
  abbrev pub AllPositive : Type 0
  AllPositive = (i : ℕ) → i < length weights → 0 < weight weights i

  -- The whole turn of a server that is picked for the first time.
  one_turn :
      {s : Option Turn} (i w : ℕ)
      → pick weights s ≡ turn i 1
      → 0 < w
      → w ≡ weight weights i
      → Served s (replicate w i) (turn i w)
  one_turn i zero e pos h = absurd (omega arith)
  one_turn i (suc n) e pos h =
      let all : 1 + n ≡ suc n = omega arith in rw (← all) (then_pick e (serve n i 1 (omega arith)))

  -- A server whose weight is used up hands over.
  next_pick :
      (i target : ℕ)
      → next_server weights i ≡ target
      → 0 < length weights
      → 0 < weight weights target
      → pick weights (turn i (weight weights i)) ≡ turn target 1
  unfolding pick
  next_pick i target e left pos =
      search_next (length weights) i (weight weights i) (omega arith) left (rw (← e) at pos)
      ∙ ap (λ j. turn j 1) e

  -- After the turns of some servers the last of them has used its weight up.
  blocks-Served :
      {s : Option Turn}
      → pick weights s ≡ turn 0 1
      → AllPositive
      → (j : ℕ) → j < length weights
      → Served s (blocks (suc j)) (turn j (weight weights j))
  blocks-Served e positive zero h = one_turn 0 (weight weights 0) e (positive 0 h) refl
  blocks-Served e positive (suc j) h =
      Served-append (blocks-Served e positive j (omega arith))
        (one_turn (suc j) (weight weights (suc j)) onwards (positive (suc j) h) refl)
    where
      follows : next_server weights j ≡ suc j
      follows = ground arith

      onwards : pick weights (turn j (weight weights j)) ≡ turn (suc j) 1
      onwards = next_pick j (suc j) follows (omega arith) (positive (suc j) h)

  first_pick : AllPositive → 0 < length weights → pick weights none ≡ turn 0 1
  unfolding pick
  first_pick positive some_server = search_here (length weights) 0 0 (positive 0 some_server)

  wrapped_pick :
      AllPositive
      → (last : ℕ) → suc last ≡ length weights
      → pick weights (turn last (weight weights last)) ≡ turn 0 1
  wrapped_pick positive last all =
      next_pick last 0 (ground (arith, all)) (omega arith) (positive 0 (omega arith))

-- When every server has a weight, the picks from the start go through the servers in the order
-- of the list, each as often as its weight says, and then begin again in the same way: no pick
-- runs for ever.
pub picks_round :
    (weights : List ℕ) (last : ℕ)
    → suc last ≡ length weights
    → AllPositive weights
    → let round = blocks weights (length weights) in
      let full : Option Turn = some (record { obj = last; size = weight weights last }) in
      (picks weights (length round) none ≡ some (round, full))
      × (picks weights (length round) full ≡ some (round, full))
picks_round weights last all positive = rw (← all) (
  Served-picks weights (
      blocks-Served weights (first_pick weights positive (omega arith)) positive last
        (omega arith)),
  Served-picks weights
      (blocks-Served weights (wrapped_pick weights positive last all) positive last (omega arith)),
)
