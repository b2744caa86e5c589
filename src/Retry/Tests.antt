-- ===== src/Retry/Tests.antt =====
-- A run that succeeds at its third attempt.
use Prim.Native.Nat.{◌^◌}
use zuno_marketplace_api.Common.{
  ℕ, ◌≡◌, ◌<◌, refl, [], ◌∷◌, Option, none, some, if◌then◌else◌, ltb, arith,
}
use zuno_marketplace_api.Retry.Backoff.{default_config, next_wait, attempt_from, with_backoff}
use zuno_marketplace_api.Retry.Bounds.{IsWithin, Answer, with_backoff-IsWithin, with_backoff-Answer}

abbrev twice_busy : ℕ → Option ℕ
twice_busy i = if ltb i 2 then some i else none

abbrev never : ℕ → Option ℕ
never i = none

third-attempt :
    with_backoff default_config twice_busy never
    ≡ record { error = none; waits = 1000000000 ∷ 2000000000 ∷ []; calls = 3 }
unfolding with_backoff attempt_from next_wait
third-attempt = refl

first_small : 1000000000 < 2 ^ 62
first_small = omega arith

cap_small : 10000000000 < 2 ^ 62
cap_small = omega arith

with_backoff-IsWithin_example :
    IsWithin default_config 4 (with_backoff default_config twice_busy never)
with_backoff-IsWithin_example =
    with_backoff-IsWithin twice_busy never default_config first_small cap_small

with_backoff-Answer_example :
    Answer twice_busy never default_config 4 0 (with_backoff default_config twice_busy never)
with_backoff-Answer_example = with_backoff-Answer twice_busy never default_config (λ i. refl)
