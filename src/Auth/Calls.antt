-- ===== src/Auth/Calls.antt =====
-- What a successful call of the repository has run.
use mathlib.Core.List.{tail}
use zuno_marketplace_api.Common.{◌≡◌, inl, inr, Bool-cases, head_or_false, Result, ok, arith}
use zuno_marketplace_api.Auth.Model.{AuthError, Store}
use zuno_marketplace_api.Auth.Repo.{call}

-- The store with one answer fewer to come.
abbrev pub next : Store → Store
next store = record store { faults = tail store.faults }

pub call-eq-ok :
    {A : Type 0} (run : Store → Result AuthError A × Store) (store : Store) {a : A}
    → (call run store).0 ≡ ok a
    → ((run (next store)).0 ≡ ok a) × (call run store ≡ run (next store))
unfolding call
call-eq-ok run store h = elim (Bool-cases (head_or_false store.faults)) [
  | inl no_ ↦ absurd (ground arith)
  | inr yes_ ↦ (ground arith, rw yes_)
]
