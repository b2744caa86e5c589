-- ===== src/Common/Keeps.antt =====
-- Claims about the state that code keeps, whether it returns or fails: a rule for each construct.
use mathlib.Core.Bool.{Bool, true, false}
use zuno_marketplace_api.Common.Effects.{Result, ok, err, Exec, pure, fail, attempt, require, ◌>>=◌}

module _ {S E A : Type 0} (P : S → Type 0) where
  pub record Keeps (m : Exec S E A) : Type 0 where
    pub at : (s : S) → P s → P (m s).1

module _ {S E A : Type 0} {P : S → Type 0} where
  pub Keeps-pure : (a : A) → Keeps {E = E} P (pure a)
  Keeps-pure a = record { at = λ s h. h }

  pub Keeps-fail : (e : E) → Keeps {A = A} P (fail e)
  Keeps-fail e = record { at = λ s h. h }

  pub Keeps-attempt : (m : Exec S E A) → Keeps P m → Keeps P (attempt m)
  Keeps-attempt m k = record { at = k.at }

module _ {S E : Type 0} {P : S → Type 0} where
  pub Keeps-require : (b : Bool) (e : E) → Keeps P (require b e)
  Keeps-require true e = record { at = λ s h. h }
  Keeps-require false e = record { at = λ s h. h }

module _ {S E A B : Type 0} {P : S → Type 0} where
  pub Keeps-bind :
      (m : Exec S E A) (f : A → Exec S E B)
      → Keeps P m
      → ((a : A) → Keeps P (f a))
      → Keeps P (m >>= f)
  unfolding ◌>>=◌
  Keeps-bind m f k l = record { at = λ s h. after (m s) (k.at s h) }
    where
      after : (r : Result E A × S) → P r.1 → P (((λ (s : S). r) >>= f) r.1).1
      after (ok a, s) h = (l a).at s h
      after (err e, s) h = h

pub ruleset keeps_rules = (Keeps-pure, Keeps-fail, Keeps-attempt, Keeps-require, Keeps-bind)
