-- ===== src/Upstream/Tests.antt =====
-- Two servers, of weights 2 and 1.
use chatease_server.Common.{ℕ, zero, suc, ◌≡◌, refl, arith, Option, none, some, List, [], ◌∷◌}
use chatease_server.Upstream.Balance.{Turn, picks}
use chatease_server.Upstream.Cycle.{AllPositive, picks_round}

abbrev two : List ℕ
two = 2 ∷ 1 ∷ []

two-AllPositive : AllPositive two
two-AllPositive zero h = omega arith
two-AllPositive (suc zero) h = omega arith
two-AllPositive (suc (suc i)) h = absurd (omega arith)

abbrev full : Option Turn
full = some (record { obj = 1; size = 1 })

picks_round_example :
    (picks two 3 none ≡ some (0 ∷ 0 ∷ 1 ∷ [], full))
    × (picks two 3 full ≡ some (0 ∷ 0 ∷ 1 ∷ [], full))
picks_round_example = picks_round two 1 refl two-AllPositive
