-- ===== src/Retry/Bounds.antt =====
-- How often WithBackoff tries, how long it waits, and what it answers.
use Prim.Native.Nat.{◌^◌}
use zuno_marketplace_api.Common.{
  ℕ, zero, suc, ◌+◌, ◌≤◌, ◌<◌, ◌≡◌, ◌≢◌, refl, sym, ap, ◌∙◌, ◌⊎◌, inl, inr, Option, none, some,
  arith, Bool-cases, Option-cases, All, ◌==◌,
}
use zuno_marketplace_api.Retry.Backoff.{
  Config, Outcome, next_wait, paused, tried, attempt_from, with_backoff,
}

next_wait-le : (max_wait wait : ℕ) → wait < 2 ^ 62 → next_wait max_wait wait ≤ max_wait
unfolding next_wait
next_wait-le max_wait wait h = ground arith

-- A wait is the first one or under the cap.
abbrev pub IsWait : Config → ℕ → Type 0
IsWait config w = (w ≡ config.initial_wait) ⊎ (w ≤ config.max_wait)

abbrev pub IsWithin : {E : Type 0} → Config → ℕ → Outcome E → Type 0
IsWithin config n out = (out.calls ≤ n) × All (IsWait config) out.waits

module _ {E : Type 0} (config : Config) where
  tried-IsWithin :
      (n : ℕ) (o : Option E) (rest : Outcome E)
      → IsWithin config n rest
      → IsWithin config (suc n) (tried o rest)
  tried-IsWithin n none rest h = (ground arith, tt)
  tried-IsWithin n (some e) rest (c, w) = (ground arith, w)

  paused-IsWithin :
      (n : ℕ) (o : Option E) (wait : ℕ) (rest : Outcome E)
      → IsWait config wait
      → IsWithin config n rest
      → IsWithin config n (paused o wait rest)
  paused-IsWithin n none wait rest here (c, w) = (c, (here, w))
  paused-IsWithin n (some e) wait rest here h = (ground arith, tt)

module _ {E : Type 0} (operation cancelled : ℕ → Option E) (config : Config) where
  attempt_from-IsWithin :
      (left attempt wait : ℕ) (last : Option E)
      → config.max_wait < 2 ^ 62
      → wait < 2 ^ 62
      → IsWait config wait
      → IsWithin config left
          (attempt_from operation cancelled config.max_wait left attempt wait last)
  unfolding attempt_from
  attempt_from-IsWithin zero attempt wait last cap small w = (ground arith, tt)
  attempt_from-IsWithin (suc left) attempt wait last cap small w =
      elim (Bool-cases (attempt == 0)) [
        | inl first ↦ rw first (
            tried-IsWithin config left (operation attempt) _
              (attempt_from-IsWithin left (suc attempt) wait (operation attempt) cap small w))
        | inr again ↦
            let le = next_wait-le config.max_wait wait small in
            rw again (
              paused-IsWithin config (suc left) (cancelled attempt) wait _ w (
                tried-IsWithin config left (operation attempt) _ (
                  attempt_from-IsWithin left (suc attempt) (next_wait config.max_wait wait)
                    (operation attempt) cap (omega arith) (inr le))))
      ]

  -- The operation runs at most MaxRetries + 1 times, and every wait is the initial one or at most
  -- MaxWait, if the two durations are below 2^62 nanoseconds.
  pub with_backoff-IsWithin :
      config.initial_wait < 2 ^ 62
      → config.max_wait < 2 ^ 62
      → IsWithin config (suc config.max_retries) (with_backoff config operation cancelled)
  unfolding with_backoff
  with_backoff-IsWithin first cap =
      attempt_from-IsWithin (suc config.max_retries) 0 config.initial_wait none cap first (inl refl)

  -- What a run of `left` attempts from `attempt` on answers: the first success, or the last error.
  pub data Answer (left attempt : ℕ) (out : Outcome E) : Type 0 where
    succeeds :
        (k : ℕ)
        → k < left
        → operation (attempt + k) ≡ none
        → ((j : ℕ) → j < k → operation (attempt + j) ≢ none)
        → out.error ≡ none
        → out.calls ≡ suc k
        → Answer left attempt out
    fails :
        ((j : ℕ) → j < left → operation (attempt + j) ≢ none)
        → ((n : ℕ) → left ≡ suc n → out.error ≡ operation (attempt + n))
        → out.calls ≡ left
        → Answer left attempt out

  -- An attempt that fails, and then the others.
  Answer-later :
      (left attempt : ℕ) (rest out : Outcome E) (x : E)
      → operation attempt ≡ some x
      → Answer left (suc attempt) rest
      → (left ≡ 0 → rest.error ≡ operation attempt)
      → out.error ≡ rest.error
      → out.calls ≡ suc rest.calls
      → Answer (suc left) attempt out
  Answer-later left attempt rest out x lost later ended error calls = elim later [
    | succeeds k l won before none_ count ↦
        succeeds (suc k) (omega arith) (ap operation (shift k) ∙ won) (none_won k before)
          (error ∙ none_) (calls ∙ ap suc count)
    | fails all_lost last count ↦
        fails (none_won left all_lost) (last_error last) (calls ∙ ap suc count)
  ]
    where
      shift : (j : ℕ) → attempt + suc j ≡ suc attempt + j
      shift j = omega arith

      none_won :
          (n : ℕ)
          → ((j : ℕ) → j < n → operation (suc attempt + j) ≢ none)
          → (j : ℕ) → j < suc n
          → operation (attempt + j) ≢ none
      none_won n h zero l e =
          let here : attempt ≡ attempt + 0 = omega arith in
          absurd (ground (arith, sym lost ∙ ap operation here ∙ e))
      none_won n h (suc j) l e = h j (omega arith) (sym (ap operation (shift j)) ∙ e)

      last_error :
          ((n : ℕ) → left ≡ suc n → rest.error ≡ operation (suc attempt + n))
          → (n : ℕ) → suc left ≡ suc n
          → out.error ≡ operation (attempt + n)
      last_error h zero q =
          let here : attempt ≡ attempt + 0 = omega arith in
          error ∙ ended (omega arith) ∙ ap operation here
      last_error h (suc n) q = error ∙ h n (omega arith) ∙ sym (ap operation (shift n))

  attempt_from-first :
      (left attempt wait : ℕ) (last : Option E)
      → ((i : ℕ) → cancelled i ≡ none)
      → (wait' : ℕ) × let out =
            attempt_from operation cancelled config.max_wait (suc left) attempt wait last in
          let run = tried (operation attempt) (
            attempt_from operation cancelled config.max_wait left
              (suc attempt)
              wait'
              (operation attempt)) in
          (out.error ≡ run.error) × (out.calls ≡ run.calls)
  unfolding attempt_from
  attempt_from-first left attempt wait last open_ = elim (Bool-cases (attempt == 0)) [
    | inl first ↦ (wait, (rw first refl, rw first refl))
    | inr again ↦ (
      next_wait config.max_wait wait,
      (rw (again, open_ attempt) refl, rw (again, open_ attempt) refl),
    )
  ]

  attempt_from-Answer :
      (left attempt wait : ℕ) (last : Option E)
      → ((i : ℕ) → cancelled i ≡ none)
      → Answer left attempt
          (attempt_from operation cancelled config.max_wait left attempt wait last)
  attempt_from-Answer zero attempt wait last open_ =
      fails (λ j h. absurd (omega arith)) (λ n e. absurd (omega arith))
        (unfold attempt_from in refl)
  attempt_from-Answer (suc left) attempt wait last open_ =
      let (wait', (error, calls)) = attempt_from-first left attempt wait last open_ in
      let rest =
        attempt_from operation cancelled config.max_wait left (suc attempt) wait'
          (operation attempt) in
      let here : attempt + 0 ≡ attempt = omega arith in
      elim (Option-cases (operation attempt)) [
        | inl won ↦
            succeeds 0 (omega arith) (ap operation here ∙ won) (λ j h. absurd (omega arith))
              (error ∙ ap (λ (o : Option E). (tried o rest).error) won)
              (calls ∙ ap (λ (o : Option E). (tried o rest).calls) won)
        | inr (x, lost) ↦
            Answer-later left attempt rest _ x lost
              (attempt_from-Answer left (suc attempt) wait' (operation attempt) open_)
              (unfold attempt_from in
                λ none_left.
                  ap
                    (λ (n : ℕ).
                      (attempt_from operation cancelled config.max_wait n (suc attempt) wait'
                        (operation attempt)).error)
                    none_left)
              (error ∙ ap (λ (o : Option E). (tried o rest).error) lost)
              (calls ∙ ap (λ (o : Option E). (tried o rest).calls) lost)
      ]

  -- Without an end of the context, WithBackoff runs the operation up to its first success and
  -- returns no error, or runs it MaxRetries + 1 times and returns the last error.
  pub with_backoff-Answer :
      ((i : ℕ) → cancelled i ≡ none)
      → Answer (suc config.max_retries) 0 (with_backoff config operation cancelled)
  unfolding with_backoff
  with_backoff-Answer open_ =
      attempt_from-Answer (suc config.max_retries) 0 config.initial_wait none open_
