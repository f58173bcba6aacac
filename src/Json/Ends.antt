-- ===== src/Json/Ends.antt =====
-- The parser ends.
use chatease_server.Common.Memory.{Mem}
use chatease_server.Common.{ℕ, zero, suc, ◌+◌, ◌*◌, ◌^◌, ◌<◌, ◌≡◌, ◌≢◌, inl, inr, arith}
use chatease_server.Json.Enough.{Values-step, Values, Arrays, Objects}
use chatease_server.Json.Rounds.{Arrays-step, Objects-step}
use chatease_server.Json.Fuel.{Stops-cases}
use chatease_server.Json.Parse.{Root, parse}
use chatease_server.Json.Print.{Doubles}

module _ (doubles : Doubles) (m : Mem) where
  all_stop : (f : ℕ) → Values doubles m f × Arrays doubles m f × Objects doubles m f
  all_stop zero = (
    λ p len z small enough. absurd (omega arith),
    λ p len pos st xs z small enough. absurd (omega arith),
    λ p len pos st xs z small enough. absurd (omega arith),
  )
  all_stop (suc f) =
      let (values, arrays, objects) = all_stop f in
      (
        Values-step doubles m f arrays objects,
        Arrays-step doubles m f values arrays,
        Objects-step doubles m f values objects,
      )

  -- In front of a zero at the given length, which is below 2^64, the parser is never out of fuel
  -- when it has more of it than five and three times the length: whatever the bytes are, and
  -- wherever strtod stops, it gives a tree or NULL, or returns with a string that it did not write.
  pub parse_ends :
      (f p len : ℕ)
      → m (p + len) ≡ 0
      → len < 2 ^ 64
      → 3 * len + 5 < f
      → parse doubles m f p len ≢ Root.out_of_fuel
  unfolding parse
  parse_ends f p len z small enough = elim (Stops-cases _ ((all_stop f).0 p len z small enough)) [
    | inl (n, v, e) ↦ rw (parse, e) (ground arith)
    | inr (inl (e', e)) ↦ rw (parse, e) (ground arith)
    | inr (inr e) ↦ rw (parse, e) (ground arith)
  ]
