-- ===== src/Common/Triple.antt =====
-- Triples for stateful code: from a state with `P`, a result `a` leaves a state with `Q a`, and an
-- error leaves one with `R`.
use zuno_marketplace_api.Common.Keeps.{Keeps}
use zuno_marketplace_api.Common.Effects.{Result, ok, err, Exec, pure, fail, attempt, ◌>>=◌}

module _ {S E A : Type 0} where
  abbrev pub Post : (A → S → Type 0) → (S → Type 0) → Result E A → S → Type 0
  Post Q R (ok a) s = Q a s
  Post Q R (err e) s = R s

  pub record Triple (P : S → Type 0) (m : Exec S E A) (Q : A → S → Type 0) (R : S → Type 0)
      : Type 0 where
    pub at : (s : S) → P s → Post Q R (m s).0 (m s).1

module _ {S E A B : Type 0} {R : S → Type 0} where
  bind_at :
      (r : Result E A × S) (f : A → Exec S E B) (Q : A → S → Type 0) (Q' : B → S → Type 0)
      → Post Q R r.0 r.1
      → ((a : A) → Triple (Q a) (f a) Q' R)
      → let out : Result E B × S = elim r.0 [ ok a ↦ f a r.1 | err e ↦ (err e, r.1) ] in
        Post Q' R out.0 out.1
  bind_at (ok a, s) f Q Q' h k = (k a).at s h
  bind_at (err e, s) f Q Q' h k = h

  pub Triple-bind :
      {P : S → Type 0} (m : Exec S E A) (f : A → Exec S E B) (Q : A → S → Type 0)
      (Q' : B → S → Type 0)
      → Triple P m Q R
      → ((a : A) → Triple (Q a) (f a) Q' R)
      → Triple P (m >>= f) Q' R
  unfolding ◌>>=◌
  Triple-bind m f Q Q' hm hf = record { at = λ s p. bind_at (m s) f Q Q' (hm.at s p) hf }

module _ {S E A : Type 0} {P : S → Type 0} {R : S → Type 0} where
  pub Triple-pure :
      (a : A) (Q : A → S → Type 0) → ((s : S) → P s → Q a s) → Triple {E = E} P (pure a) Q R
  Triple-pure a Q h = record { at = h }

  pub Triple-fail :
      (e : E) (Q : A → S → Type 0) → ((s : S) → P s → R s) → Triple P (fail {A = A} e) Q R
  Triple-fail e Q h = record { at = h }

  pub Triple-attempt :
      (m : Exec S E A) (Q : A → S → Type 0) → Triple P m Q R → Triple P (attempt m) (Post Q R) R
  Triple-attempt m Q h = record { at = h.at }

  pub Triple-weaken :
      (m : Exec S E A) (Q Q' : A → S → Type 0)
      → Triple P m Q R
      → ((a : A) (s : S) → Q a s → Q' a s)
      → Triple P m Q' R
  Triple-weaken m Q Q' h k = record { at = λ s p. weaken (m s) (h.at s p) }
    where
      weaken : (r : Result E A × S) → Post Q R r.0 r.1 → Post Q' R r.0 r.1
      weaken (ok a, s) q = k a s q
      weaken (err e, s) q = q

module _ {S E A : Type 0} {P : S → Type 0} {R R' : S → Type 0} where
  -- A weaker claim after an error.
  pub Triple-lose :
      (m : Exec S E A) (Q : A → S → Type 0)
      → Triple P m Q R
      → ((s : S) → R s → R' s)
      → Triple P m Q R'
  Triple-lose m Q h k = record { at = λ s p. lose (m s) (h.at s p) }
    where
      lose : (r : Result E A × S) → Post Q R r.0 r.1 → Post Q R' r.0 r.1
      lose (ok a, s) q = q
      lose (err e, s) q = k s q

-- A claim that is kept, whether the code returns or fails, as a triple and back.
module _ {S E A : Type 0} (P : S → Type 0) where
  pub post-Keeps : (r : Result E A) (s : S) → P s → Post (λ _. P) P r s
  post-Keeps (ok a) s p = p
  post-Keeps (err e) s p = p

  pub Keeps→Triple : (m : Exec S E A) → Keeps P m → Triple P m (λ _. P) P
  Keeps→Triple m k = record { at = λ s p. post-Keeps (m s).0 (m s).1 (k.at s p) }

  pub Triple→Keeps : (m : Exec S E A) → Triple P m (λ _. P) P → Keeps P m
  Triple→Keeps m t = record { at = λ s p. kept (m s) (t.at s p) }
    where
      kept : (r : Result E A × S) → Post (λ _. P) P r.0 r.1 → P r.1
      kept (ok a, s) p = p
      kept (err e, s) p = p
