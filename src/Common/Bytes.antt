-- ===== src/Common/Bytes.antt =====
-- Go strings as lists of bytes: comparison, lower case, prefixes, `strings.Split`.
-- `strings.ToLower` is modelled on ASCII letters; other bytes stay.
use Prim.Native.Nat.{ℕ, ◌+◌}
use Prim.Native.Char.{code}
use Prim.Native.String.{String}
use mathlib.Core.Path.{◌≡◌, refl, ap, subst}
use mathlib.Core.Logic.{◌↔◌, ◌≢◌, inl, inr}
use mathlib.Core.Bool.{Bool, true, false, ◌&&◌}
use mathlib.Core.List.{List, [], ◌∷◌, ◌++◌, map}
use native.Mathlib.Omega.{arith}
use zuno_marketplace_api.Common.Tests.{leb, ◌==◌, if◌then◌else◌, Bool-cases}
use zuno_marketplace_api.Common.Lists.{All}

abbrev pub Text : Type 0
Text = List ℕ

-- The bytes of an ASCII literal.
abbrev pub codes : String → Text
codes String.[] = []
codes (String.◌∷◌ c s) = code c ∷ codes s

unfoldable pub text_eq : Text → Text → Bool
text_eq [] [] = true
text_eq (a ∷ s) (b ∷ t) = a == b && text_eq s t
text_eq _ _ = false

pub text_eq_iff : (s t : Text) → (text_eq s t ≡ true) ↔ (s ≡ t)
unfolding text_eq
text_eq_iff [] [] = ground arith
text_eq_iff [] (b ∷ t) = ground arith
text_eq_iff (a ∷ s) [] = ground arith
text_eq_iff (a ∷ s) (b ∷ t) = ground (arith, text_eq_iff s t)

pub text_eq_refl : (s : Text) → text_eq s s ≡ true
text_eq_refl s = (text_eq_iff s s).1 refl

abbrev pub is_empty : Text → Bool
is_empty [] = true
is_empty (c ∷ s) = false

unfoldable pub lower : ℕ → ℕ
lower c = if leb b'A' c && leb c b'Z' then c + 32 else c

-- strings.ToLower
unfoldable pub to_lower : Text → Text
unfolding lower
to_lower s = map lower s

pub lower_idem : (c : ℕ) → lower (lower c) ≡ lower c
unfolding lower
lower_idem c = ground arith

pub to_lower_idem : (s : Text) → to_lower (to_lower s) ≡ to_lower s
unfolding to_lower
to_lower_idem [] = refl
to_lower_idem (c ∷ s) = cc (lower_idem c, to_lower_idem s)

-- strings.EqualFold
unfoldable pub equal_fold : Text → Text → Bool
equal_fold s t = text_eq (to_lower s) (to_lower t)

push : ℕ → List Text → List Text
push c [] = (c ∷ []) ∷ []
push c (part ∷ parts) = (c ∷ part) ∷ parts

-- strings.Split by one separator byte: the result is never empty.
unfoldable pub split : ℕ → Text → List Text
unfolding push
split sep [] = [] ∷ []
split sep (c ∷ s) = let rest = split sep s in if c == sep then [] ∷ rest else push c rest

split_cons : (sep : ℕ) (s : Text) → (p : Text) × (ps : List Text) × (split sep s ≡ p ∷ ps)
unfolding split
split_cons sep [] = ([], [], refl)
split_cons sep (c ∷ s) =
    let (p, ps, e) = split_cons sep s in
    elim (Bool-cases (c == sep)) [
      | inl hit ↦ ([], split sep s, rw hit)
      | inr miss ↦ (c ∷ p, ps, rw (miss, e))
    ]

-- The byte does not stand in the text.
abbrev pub Lacks : ℕ → Text → Type 0
Lacks sep = All (λ c. c ≢ sep)

pub split-Lacks : (sep : ℕ) (s : Text) → Lacks sep s → split sep s ≡ s ∷ []
unfolding split
split-Lacks sep [] h = refl
split-Lacks sep (c ∷ s) (n, h) = rw (split-Lacks sep s h) (ground arith)

pub split-append : (sep : ℕ) (s t : Text) → Lacks sep s → split sep (s ++ sep ∷ t) ≡ s ∷ split sep t
unfolding split
split-append sep [] t h = ground arith
split-append sep (c ∷ s) t (n, h) = rw (split-append sep s t h) (ground arith)

pub split_one : (sep : ℕ) (s a : Text) → split sep s ≡ a ∷ [] → (s ≡ a) × Lacks sep a
unfolding split
split_one sep [] a h = let e : [] ≡ a = ground arith in (e, subst (Lacks sep) e tt)
split_one sep (c ∷ s) a h =
    let (p, ps, e) = split_cons sep s in
    let miss : (c == sep) ≡ false = ground arith in
    let (whole, lacks) = split_one sep s p (ground arith) in
    let here : c ∷ p ≡ a = ground arith in
    (ground arith, subst (Lacks sep) here (ground arith, lacks))

pub split_two :
    (sep : ℕ) (s a b : Text)
    → split sep s ≡ a ∷ b ∷ []
    → (s ≡ a ++ sep ∷ b) × Lacks sep a × Lacks sep b
unfolding split
split_two sep [] a b h = cc
split_two sep (c ∷ s) a b h = elim (Bool-cases (c == sep)) [
  | inl hit ↦
      let first : [] ≡ a = ground arith in
      let (whole, lacks) = split_one sep s b (ground arith) in
      (
        subst (λ (t : Text). c ∷ s ≡ t ++ sep ∷ b) first (ground arith),
        subst (Lacks sep) first tt,
        lacks,
      )
  | inr miss ↦
      let (p, ps, e) = split_cons sep s in
      let (whole, left, right) = split_two sep s p b (ground arith) in
      let here : c ∷ p ≡ a = ground arith in
      (
        subst (λ (t : Text). c ∷ s ≡ t ++ sep ∷ b) here (ap (◌∷◌ c) whole),
        subst (Lacks sep) here (ground arith, left),
        right,
      )
]
