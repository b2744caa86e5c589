-- ===== src/Retry/Backoff.antt =====
-- WithBackoff of shared/retry/retry.go. The operation is a function from the number of the attempt
-- to its error, and the context one from the attempt that waits to the error of its end.
use Prim.Native.Nat.{◌^◌, ◌%◌}
use zuno_marketplace_api.Common.{
  ℕ, zero, suc, ◌*◌, ◌&&◌, List, [], ◌∷◌, Option, none, some, if◌then◌else◌, ltb, ◌==◌,
}

-- MaxRetries is not negative; durations are nanoseconds.
pub record Config : Type 0 where
  pub max_retries : ℕ
  pub initial_wait : ℕ
  pub max_wait : ℕ

abbrev pub default_config : Config
default_config = record { max_retries = 3; initial_wait = 1000000000; max_wait = 10000000000 }

-- The error that is returned, the waits in their order, and how often the operation ran.
pub record Outcome (E : Type 0) : Type 0 where
  pub error : Option E
  pub waits : List ℕ
  pub calls : ℕ

-- The doubled wait of a signed 64-bit integer, capped; a negative one is not above the cap.
unfoldable pub next_wait : ℕ → ℕ → ℕ
next_wait max_wait wait =
    let doubled = (wait * 2) % 2 ^ 64 in
    if ltb max_wait doubled && ltb doubled (2 ^ 63) then max_wait else doubled

module _ {E : Type 0} where
  abbrev pub paused : Option E → ℕ → Outcome E → Outcome E
  paused (some e) wait rest = record { error = some e; waits = []; calls = 0 }
  paused none wait rest = record rest { waits = wait ∷ rest.waits }

  abbrev pub tried : Option E → Outcome E → Outcome E
  tried none rest = record { error = none; waits = []; calls = 1 }
  tried (some e) rest = record rest { calls = suc rest.calls }

module _ {E : Type 0} (operation cancelled : ℕ → Option E) (max_wait : ℕ) where
  -- The loop, with the attempts that are left.
  unfoldable pub attempt_from : ℕ → ℕ → ℕ → Option E → Outcome E
  attempt_from zero attempt wait last = record { error = last; waits = []; calls = 0 }
  attempt_from (suc left) attempt wait last =
      let wait' = if attempt == 0 then wait else next_wait max_wait wait in
      let rest = attempt_from left (suc attempt) wait' (operation attempt) in
      let run = tried (operation attempt) rest in
      if attempt == 0 then run else paused (cancelled attempt) wait run

unfoldable pub with_backoff : {E : Type 0} → Config → (ℕ → Option E) → (ℕ → Option E) → Outcome E
with_backoff config operation cancelled =
    attempt_from operation cancelled config.max_wait (suc config.max_retries) 0 config.initial_wait
      none
