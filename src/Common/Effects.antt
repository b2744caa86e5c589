-- ===== src/Common/Effects.antt =====
-- Stateful code that may fail: a call returns its result or its error, and the state either way.
use mathlib.Core.Path.{◌≡◌, refl, ap, subst, ◌∙◌}
use mathlib.Core.Bool.{Bool, true, false}

pub data Result (E A : Type 0) : Type 0 where
  ok : A → Result E A
  err : E → Result E A

abbrev pub Exec : Type 0 → Type 0 → Type 0 → Type 0
Exec S E A = S → Result E A × S

module _ {S E A : Type 0} where
  abbrev pub pure : A → Exec S E A
  pure a s = (ok a, s)

  abbrev pub fail : E → Exec S E A
  fail e s = (err e, s)

  -- Go code that looks at the error in place of returning it.
  abbrev pub attempt : Exec S E A → Exec S E (Result E A)
  attempt m s = let (r, s') = m s in (ok r, s')

abbrev pub require : {S E : Type 0} → Bool → E → Exec S E (Unit {0})
require true e s = (ok tt, s)
require false e s = (err e, s)

infixl 5 ◌>>=◌ ◌>>◌
unfoldable pub ◌>>=◌ : {S E A B : Type 0} → Exec S E A → (A → Exec S E B) → Exec S E B
◌>>=◌ m f s = elim (m s).0 [ ok a ↦ f a (m s).1 | err e ↦ (err e, (m s).1) ]

abbrev pub ◌>>◌ : {S E B : Type 0} → Exec S E (Unit {0}) → Exec S E B → Exec S E B
m >> k = m >>= λ _. k

-- A block that succeeds has steps that succeed.
pub bind-eq-ok :
    {S E A B : Type 0} (m : Exec S E A) (f : A → Exec S E B) (s : S) {b : B}
    → ((m >>= f) s).0 ≡ ok b
    → (a : A) × ((m s).0 ≡ ok a) × ((f a (m s).1).0 ≡ ok b) × (((m >>= f) s).1 ≡ (f a (m s).1).1)
unfolding ◌>>=◌
bind-eq-ok {S} {E} {A} {B} m f s {b} h = split (m s) refl h
  where
    split :
        (r : Result E A × S)
        → m s ≡ r
        → (elim r.0 as (λ _. Result E B × S) [ ok a ↦ f a r.1 | err e ↦ (err e, r.1) ]).0 ≡ ok b
        → (a : A) × (r.0 ≡ ok a)
          × ((f a r.1).0 ≡ ok b)
          × ((elim r.0 as (λ _. Result E B × S) [ ok c ↦ f c r.1 | err e ↦ (err e, r.1) ]).1
              ≡ (f a r.1).1)
    split (ok a, t) e h = (a, refl, h, refl)
    split (err x, t) e h = cc

pub require-eq-ok :
    {S E : Type 0} (b : Bool) (e : E) (s : S) {u : Unit {0}}
    → (require b e s).0 ≡ ok u
    → (b ≡ true) × ((require b e s).1 ≡ s)
require-eq-ok true e s h = (refl, refl)
require-eq-ok false e s h = cc

-- The same, where the first step is a check that leaves the state.
pub bind-eq-ok_same :
    {S E A B : Type 0} (m : Exec S E A) (f : A → Exec S E B) (s : S) {b : B} (Q : A → Type 0)
    → ((a : A) → (m s).0 ≡ ok a → Q a × ((m s).1 ≡ s))
    → ((m >>= f) s).0 ≡ ok b
    → (a : A) × Q a × ((f a s).0 ≡ ok b) × (((m >>= f) s).1 ≡ (f a s).1)
bind-eq-ok_same {S} m f s {b} Q known h =
    let (a, first, rest, final) = bind-eq-ok m f s h in
    let (q, same) = known a first in
    (a, q, subst (λ (t : S). (f a t).0 ≡ ok b) same rest, final ∙ ap (λ (t : S). (f a t).1) same)
