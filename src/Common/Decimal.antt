-- ===== src/Common/Decimal.antt =====
-- fmt.Sprintf("%d", n) for a number that is not negative.
use Prim.Native.Nat.{ℕ, zero, suc, ◌+◌, ◌/◌, ◌%◌}
use mathlib.Core.List.{[], ◌∷◌}
use zuno_marketplace_api.Common.Tests.{ltb, if◌then◌else◌}
use zuno_marketplace_api.Common.Bytes.{Text}

-- A digit for each unit of fuel; `suc n` units are more than n's digits.
unfoldable pub digits_from : ℕ → ℕ → Text → Text
digits_from zero n tail = tail
digits_from (suc fuel) n tail =
    let digit = b'0' + n % 10 in
    let rest = digits_from fuel (n / 10) (digit ∷ tail) in if ltb n 10 then digit ∷ tail else rest

unfoldable pub decimal : ℕ → Text
decimal n = digits_from (suc n) n []
