-- ===== src/Common/Faults.antt =====
-- Servers that may fail: a store with, for each call to come, whether it fails.
use mathlib.Core.List.{tail}
use mathlib.Core.Path.{◌≡◌, refl}
use mathlib.Core.Logic.{inl, inr}
use mathlib.Core.Bool.{Bool}
use mathlib.Core.List.{List}
use native.Mathlib.Omega.{arith}
use zuno_marketplace_api.Common.Tests.{if◌then◌else◌, Bool-cases}
use zuno_marketplace_api.Common.Lists.{head_or_false}
use zuno_marketplace_api.Common.Effects.{Result, ok, err, Exec}
use zuno_marketplace_api.Common.Keeps.{Keeps}
use zuno_marketplace_api.Common.Triple.{Triple, Post}

pub record Faulty (D : Type 0) : Type 0 where
  pub tables : D
  pub faults : List Bool

-- A claim about the tables.
abbrev pub OnTables : {D : Type 0} → (D → Type 0) → Faulty D → Type 0
OnTables P s = P s.tables

-- The store with one answer fewer to come.
abbrev pub drop_fault : {D : Type 0} → Faulty D → Faulty D
drop_fault s = record { tables = s.tables; faults = tail s.faults }

abbrev pub land : {D R : Type 0} → R × D → List Bool → R × Faulty D
land (r, d) faults = (r, record { tables = d; faults = faults })

-- One call of a server: it fails, or it runs.
unfoldable pub server_call : {D E A : Type 0} → E → (D → Result E A × D) → Exec (Faulty D) E A
server_call e run s =
    if head_or_false s.faults then (err e, drop_fault s) else land (run s.tables) (tail s.faults)

module _ {D E A : Type 0} (e : E) (run : D → Result E A × D) where
  pub server_call-eq-ok :
      (s : Faulty D) {a : A}
      → (server_call e run s).0 ≡ ok a
      → ((run s.tables).0 ≡ ok a) × ((server_call e run s).1.tables ≡ (run s.tables).1)
  unfolding server_call
  server_call-eq-ok s h = elim (Bool-cases (head_or_false s.faults)) [
    | inl no_ ↦ absurd (ground (arith, h, no_))
    | inr yes_ ↦ (ground (arith, h, yes_), rw yes_ refl)
  ]

  pub server_call-Keeps :
      (P : D → Type 0) → ((d : D) → P d → P (run d).1) → Keeps (OnTables P) (server_call e run)
  unfolding server_call
  server_call-Keeps P h = record {
    at = λ s p. elim (Bool-cases (head_or_false s.faults)) [
      | inl no_ ↦ rw no_ p
      | inr yes_ ↦ rw yes_ (h s.tables p)
    ];
  }

  -- What a call that runs establishes, and what one that fails leaves.
  pub server_call-Triple :
      (P : D → Type 0) (Q : A → D → Type 0) (R : D → Type 0)
      → ((d : D) → P d → Post Q R (run d).0 (run d).1)
      → ((d : D) → P d → R d)
      → Triple (OnTables P) (server_call e run) (λ a. OnTables (Q a)) (OnTables R)
  unfolding server_call
  server_call-Triple P Q R h l = record {
    at = λ s p. elim (Bool-cases (head_or_false s.faults)) [
      | inl no_ ↦ rw no_ (l s.tables p)
      | inr yes_ ↦ rw yes_ (landed (run s.tables) (tail s.faults) (h s.tables p))
    ];
  }
    where
      landed :
          (r : Result E A × D) (faults : List Bool)
          → Post Q R r.0 r.1
          → Post (λ a. OnTables (Q a)) (OnTables R) (land r faults).0 (land r faults).1
      landed (ok a, d) faults q = q
      landed (err x, d) faults q = q
