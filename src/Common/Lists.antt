-- ===== src/Common/Lists.antt =====
-- Lists measured by native numbers, and what the SQL tables need of lists of rows.
use Prim.Native.Nat.{ℕ, suc}
use mathlib.Core.Path.{◌≡◌, refl}
use mathlib.Core.Logic.{◌≢◌, inl, inr}
use mathlib.Core.Bool.{Bool, true, false, ◌&&◌, ◌||◌}
use mathlib.Core.List.{List, [], ◌∷◌, Memᴰ}
use mathlib.Core.List.Memᴰ
use mathlib.Core.Option.{Option, none, some}
use native.Mathlib.Omega.{arith}
use zuno_marketplace_api.Common.Tests.{if◌then◌else◌, Bool-cases}

module _ {ℓ} {A : Type ℓ} where
  abbrev pub length : List A → ℕ
  length [] = 0
  length (x ∷ xs) = suc (length xs)

  abbrev pub all : (A → Bool) → List A → Bool
  all p [] = true
  all p (x ∷ xs) = p x && all p xs

  abbrev pub any : (A → Bool) → List A → Bool
  any p [] = false
  any p (x ∷ xs) = p x || any p xs

  -- `SELECT … WHERE p LIMIT 1`
  unfoldable pub find? : (A → Bool) → List A → Option A
  find? p [] = none
  find? p (x ∷ xs) = if p x then some x else find? p xs

  -- `DELETE … WHERE not p`
  unfoldable pub keep : (A → Bool) → List A → List A
  keep p [] = []
  keep p (x ∷ xs) = let rest = keep p xs in if p x then x ∷ rest else rest

abbrev pub head_or_false : List Bool → Bool
head_or_false [] = false
head_or_false (b ∷ bs) = b

module _ {ℓ κ} {A : Type ℓ} (P : A → Type κ) where
  abbrev pub All : List A → Type κ
  All [] = Unit
  All (x ∷ xs) = P x × All xs

module _ {ℓ} {A : Type ℓ} where
  -- No value stands twice in the list.
  abbrev pub Distinct : List A → Type ℓ
  Distinct [] = Unit
  Distinct (x ∷ xs) = All (λ y. x ≢ y) xs × Distinct xs

module _ {ℓ} {A : Type ℓ} (p : A → Bool) where
  pub find?-some : (xs : List A) {a : A} → find? p xs ≡ some a → Memᴰ a xs × (p a ≡ true)
  unfolding find?
  find?-some [] h = cc
  find?-some (x ∷ xs) h = elim (Bool-cases (p x)) [
    | inl hit ↦ (Memᴰ.head (ground arith), ground arith)
    | inr miss ↦ let (m, q) = find?-some xs (ground arith) in (Memᴰ.tail m, q)
  ]

  pub find?-none : (xs : List A) {a : A} → find? p xs ≡ none → Memᴰ a xs → p a ≡ false
  unfolding find?
  find?-none [] h m = elim m [ ]
  find?-none (x ∷ xs) h (Memᴰ.head e) = ground arith
  find?-none (x ∷ xs) h (Memᴰ.tail m) = find?-none xs (ground arith) m

  pub find?-none_of_all : (xs : List A) → ((a : A) → Memᴰ a xs → p a ≡ false) → find? p xs ≡ none
  unfolding find?
  find?-none_of_all [] h = refl
  find?-none_of_all (x ∷ xs) h =
      ground (arith, h x (Memᴰ.head refl), find?-none_of_all xs (λ a m. h a (Memᴰ.tail m)))

  pub any-false : (xs : List A) {a : A} → any p xs ≡ false → Memᴰ a xs → p a ≡ false
  any-false [] h m = elim m [ ]
  any-false (x ∷ xs) h (Memᴰ.head e) = ground arith
  any-false (x ∷ xs) h (Memᴰ.tail m) = any-false xs (ground arith) m

  pub any-true : (xs : List A) {a : A} → Memᴰ a xs → p a ≡ true → any p xs ≡ true
  any-true [] m h = elim m [ ]
  any-true (x ∷ xs) (Memᴰ.head e) h = ground arith
  any-true (x ∷ xs) (Memᴰ.tail m) h = ground (arith, any-true xs m h)

  pub mem-keep : (xs : List A) {a : A} → Memᴰ a (keep p xs) → Memᴰ a xs × (p a ≡ true)
  unfolding keep
  mem-keep [] m = elim m [ ]
  mem-keep (x ∷ xs) {a} m = elim (Bool-cases (p x)) [
    | inl hit ↦ elim (Memᴰ.cases_cons (rw (hit, keep) at m)) [
      | inl e ↦ (Memᴰ.head e, rw e hit)
      | inr k ↦ let (here, q) = mem-keep xs k in (Memᴰ.tail here, q)
    ]
    | inr miss ↦ let (here, q) = mem-keep xs (rw (miss, keep) at m) in (Memᴰ.tail here, q)
  ]

module _ {ℓ} {A : Type ℓ} where
  pub All-of_mem {κ} : (P : A → Type κ) (xs : List A) → ((a : A) → Memᴰ a xs → P a) → All P xs
  All-of_mem P [] h = tt
  All-of_mem P (x ∷ xs) h = (h x (Memᴰ.head refl), All-of_mem P xs (λ a m. h a (Memᴰ.tail m)))

  pub keep_none :
      (p : A → Bool) (xs : List A) → ((a : A) → Memᴰ a xs → p a ≡ false) → keep p xs ≡ []
  unfolding keep
  keep_none p [] h = refl
  keep_none p (x ∷ xs) h =
      ground (arith, h x (Memᴰ.head refl), keep_none p xs (λ a m. h a (Memᴰ.tail m)))
