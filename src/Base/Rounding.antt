-- ===== src/Base/Rounding.antt =====
-- Python's `round` of a quotient.
use Prim.Native.Nat.{ℕ, ◌+◌, ◌*◌, ◌/◌, ◌%◌}
use fleet_lm.Base.Tests.{ltb, ◌==◌, if◌then◌else◌}

-- The whole number nearest to `a / b`: a tie goes to the even neighbour.
unfoldable pub round_div : ℕ → ℕ → ℕ
round_div a b =
    let q = a / b in
    let twice = 2 * (a % b) in
    if ltb twice b then q else if ltb b twice then q + 1 else if q % 2 == 0 then q else q + 1
