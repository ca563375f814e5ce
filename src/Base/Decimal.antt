-- ===== src/Base/Decimal.antt =====
-- The decimal text of a number: `%d` of fmt and strconv.Itoa.
use Prim.Native.Nat.{ℕ, zero, suc, ◌+◌, ◌/◌, ◌%◌}
use mathlib.Core.List.{[], ◌∷◌}
use dockpal_agent.Base.Tests.{ltb, if◌then◌else◌}
use dockpal_agent.Base.Bytes.{Bytes}

-- the digits of `n` before `rest`; a number has at most as many digits as it is large, and one
unfoldable pub digits : ℕ → ℕ → Bytes → Bytes
digits zero n rest = rest
digits (suc fuel) n rest =
    let more = digits fuel (n / 10) ((48 + n % 10) ∷ rest) in
    if ltb n 10 then (48 + n) ∷ rest else more

unfoldable pub decimal : ℕ → Bytes
decimal n = digits (suc n) n []
