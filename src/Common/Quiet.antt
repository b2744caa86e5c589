-- ===== src/Common/Quiet.antt =====
-- Servers that do not fail: code that then returns a result, with a claim about it.
use mathlib.Core.Path.{◌≡◌, refl, ap, ◌∙◌}
use mathlib.Core.List.{[]}
use zuno_marketplace_api.Common.Effects.{Result, ok, err, Exec, pure, attempt, ◌>>=◌}
use zuno_marketplace_api.Common.Keeps.{Keeps}
use zuno_marketplace_api.Common.Faults.{Faulty, land, server_call}
use zuno_marketplace_api.Common.Triple.{Triple, Post, Triple-bind}

-- No failure is to come.
abbrev pub Quiet : {D : Type 0} → Faulty D → Type 0
Quiet s = s.faults ≡ []

abbrev pub Never : {D : Type 0} → Faulty D → Type 0
Never s = ⊥

-- A result with the claim, and no failure to come.
abbrev pub Value : {A D : Type 0} → (A → Type 0) → A → Faulty D → Type 0
Value G a s = Quiet s × G a

-- From a store without failures the code returns, with the claim.
pub record Returns {D E A : Type 0} (m : Exec (Faulty D) E A) (G : A → Type 0) : Type 0 where
  pub triple : Triple Quiet m (Value G) Never

module _ {D E A : Type 0} where
  pub Returns-pure : (a : A) (G : A → Type 0) → G a → Returns {D = D} {E = E} (pure a) G
  Returns-pure a G g = record { triple = record { at = λ s q. (q, g) } }

  pub Returns-attempt :
      (m : Exec (Faulty D) E A) → Keeps Quiet m → Returns (attempt m) (λ _. Unit {0})
  Returns-attempt m k = record { triple = record { at = λ s q. (k.at s q, tt) } }

  pub Returns-server_call :
      (e : E) (run : D → Result E A × D) (G : A → Type 0)
      → ((d : D) → Post (λ a _. G a) (λ _. ⊥) (run d).0 (run d).1)
      → Returns (server_call e run) G
  unfolding server_call
  Returns-server_call e run G h = record {
    triple = record { at = λ s q. rw q (landed (run s.tables) (h s.tables)) };
  }
    where
      landed :
          (r : Result E A × D)
          → Post (λ a _. G a) (λ _. ⊥) r.0 r.1
          → Post (Value G) Never (land r []).0 (land r []).1
      landed (ok a, d) g = (refl, g)
      landed (err x, d) g = g

  pub server_call-Quiet : (e : E) (run : D → Result E A × D) → Keeps Quiet (server_call e run)
  unfolding server_call
  server_call-Quiet e run = record { at = λ s q. rw q refl }

  -- The result of code that returns.
  pub Returns-eq :
      (m : Exec (Faulty D) E A) (G : A → Type 0) (s : Faulty D)
      → Returns m G
      → Quiet s
      → (a : A) × ((m s).0 ≡ ok a) × G a
  Returns-eq m G s r q = value (m s) (r.triple.at s q)
    where
      value :
          (o : Result E A × Faulty D) → Post (Value G) Never o.0 o.1 → (a : A) × (o.0 ≡ ok a) × G a
      value (ok a, s) h = (a, refl, h.1)
      value (err e, s) h = absurd h

module _ {D E A B : Type 0} where
  pub Returns-bind :
      (m : Exec (Faulty D) E A) (f : A → Exec (Faulty D) E B) (G : A → Type 0) (G' : B → Type 0)
      → Returns m G
      → ((a : A) → G a → Returns (f a) G')
      → Returns (m >>= f) G'
  Returns-bind m f G G' h k = record {
    triple =
        Triple-bind m f (Value G) (Value G') h.triple
          λ a. record { at = λ s q. (k a q.1).triple.at s q.0 };
  }

-- The store without failures.
abbrev pub quiet : {D : Type 0} → D → Faulty D
quiet d = record { tables = d; faults = [] }

-- From these tables, without failures, the code returns a value and tables with the claim.
pub record Lands {D E A : Type 0} (m : Exec (Faulty D) E A) (d : D) (P : A → D → Type 0)
    : Type 0 where
  pub value : A
  pub tables : D
  pub eq : m (quiet d) ≡ (ok value, quiet tables)
  pub claim : P value tables

module _ {D E A : Type 0} where
  pub Lands-pure : (a : A) (d : D) (P : A → D → Type 0) → P a d → Lands {E = E} (pure a) d P
  Lands-pure a d P p = record { value = a; tables = d; eq = refl; claim = p }

  pub Lands-server_call :
      (e : E) (run : D → Result E A × D) (d : D) (a : A) (d' : D) (P : A → D → Type 0)
      → run d ≡ (ok a, d')
      → P a d'
      → Lands (server_call e run) d P
  unfolding server_call
  Lands-server_call e run d a d' P h p = record {
    value = a;
    tables = d';
    eq = ap (λ (r : Result E A × D). land r []) h;
    claim = p;
  }

  pub Lands-attempt :
      (m : Exec (Faulty D) E A) (d : D) (P : Result E A → D → Type 0) (r : Result E A) (d' : D)
      → m (quiet d) ≡ (r, quiet d')
      → P r d'
      → Lands (attempt m) d P
  Lands-attempt m d P r d' h p = record {
    value = r;
    tables = d';
    eq = ap (λ (o : Result E A × Faulty D). (ok (o.0), o.1)) h;
    claim = p;
  }

  pub Lands-caught :
      (m : Exec (Faulty D) E A) (d : D) (P : A → D → Type 0) (Q : Result E A → D → Type 0)
      → Lands m d P
      → ((a : A) (d' : D) → P a d' → Q (ok a) d')
      → Lands (attempt m) d Q
  Lands-caught m d P Q l k =
      Lands-attempt m d Q (ok l.value) l.tables l.eq (k l.value l.tables l.claim)

module _ {D E A B : Type 0} where
  pub Lands-bind :
      (m : Exec (Faulty D) E A) (f : A → Exec (Faulty D) E B) (d : D) (P : A → D → Type 0)
      (Q : B → D → Type 0)
      → Lands m d P
      → ((a : A) (d' : D) → P a d' → Lands (f a) d' Q)
      → Lands (m >>= f) d Q
  unfolding ◌>>=◌
  Lands-bind m f d P Q l k =
      let next = k l.value l.tables l.claim in
      record {
        value = next.value;
        tables = next.tables;
        eq =
            ap (λ (r : Result E A × Faulty D). ((λ (s : Faulty D). r) >>= f) (quiet d)) l.eq
            ∙ next.eq;
        claim = next.claim;
      }
