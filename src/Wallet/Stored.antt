-- ===== src/Wallet/Stored.antt =====
-- What an UpsertLink that succeeds has stored.
use mathlib.Core.List.Memᴰ
use zuno_marketplace_api.Common.{
  ℕ, Text, ◌≡◌, ◌≢◌, refl, sym, ◌∙◌, ap, subst, ◌⊎◌, inl, inr, Bool, List, [], ◌∷◌, map, Memᴰ,
  Option, none, some, arith, Bool-cases, Option-cases, Distinct, All, find?, find?-some, text_eq,
  text_eq_iff, ◌&&◌, not, if◌then◌else◌,
}
use zuno_marketplace_api.Wallet.Model.{WalletLink, Row}
use zuno_marketplace_api.Wallet.Repo.{
  admissible, demote_row, ensure_single_primary_wallet, write_row, update_row, is_primary_on,
}
use zuno_marketplace_api.Wallet.Table.{WellFormed}

-- A row has the link's account, chain and address.
pub record IsOf (link : WalletLink) (row : Row) : Type 0 where
  pub account : row.account_id ≡ link.account_id
  pub chain : row.chain_id ≡ link.chain_id
  pub address : row.address ≡ link.address

abbrev pub Has : WalletLink → List Row → Type 0
Has link rows = (row : Row) × Memᴰ row rows × IsOf link row

All-at : {A : Type 0} (P : A → Type 0) (xs : List A) {a : A} → All P xs → Memᴰ a xs → P a
All-at P [] h m = elim m [ ]
All-at P (x ∷ xs) h (Memᴰ.head e) = subst P (sym e) h.0
All-at P (x ∷ xs) h (Memᴰ.tail m) = All-at P xs h.1 m

-- Rows with one id are one row.
pub same_row :
    (rows : List Row) {a b : Row}
    → Distinct (map (λ (r : Row). r.id) rows)
    → Memᴰ a rows
    → Memᴰ b rows
    → a.id ≡ b.id
    → a ≡ b
same_row [] d m n e = elim m [ ]
same_row (x ∷ rows) d (Memᴰ.head p) (Memᴰ.head q) e = p ∙ sym q
same_row (x ∷ rows) d (Memᴰ.head p) (Memᴰ.tail n) e = absurd (
    All-at (λ y. x.id ≢ y) _ d.0 (Memᴰ.map (λ (r : Row). r.id) n)
      (sym (ap (λ (r : Row). r.id) p) ∙ e))
same_row (x ∷ rows) d (Memᴰ.tail m) (Memᴰ.head q) e = absurd (
    All-at (λ y. x.id ≢ y) _ d.0 (Memᴰ.map (λ (r : Row). r.id) m)
      (sym (ap (λ (r : Row). r.id) q) ∙ sym e))
same_row (x ∷ rows) d (Memᴰ.tail m) (Memᴰ.tail n) e = same_row rows d.1 m n e

module _ (now : ℕ) (link : WalletLink) where
  demoted-IsOf :
      (user_id chain_id : Text) (spared : Row → Bool) (y : Row)
      → IsOf link y
      → IsOf link (demote_row now user_id chain_id spared y)
  demoted-IsOf user_id chain_id spared y e =
      elim (Bool-cases (is_primary_on user_id chain_id y && not (spared y))) [
        | inl hit ↦ rw hit (record { account = e.account; chain = e.chain; address = e.address })
        | inr miss ↦ rw miss e
      ]

  demoted-id :
      (user_id chain_id : Text) (spared : Row → Bool) (y : Row)
      → (demote_row now user_id chain_id spared y).id ≡ y.id
  demoted-id user_id chain_id spared y = ground arith

  pub demote-Has :
      (user_id chain_id : Text) (spared : Row → Bool) (rows : List Row)
      → Has link rows
      → Has link (map (demote_row now user_id chain_id spared) rows)
  demote-Has user_id chain_id spared rows (y, m, e) =
      (_, Memᴰ.map _ m, demoted-IsOf user_id chain_id spared y e)

  -- A row of the table after the trigger.
  ensured :
      (new : Row) (rows : List Row) {y : Row}
      → Memᴰ y rows
      → IsOf link y
      → (a : Row) × Memᴰ a (ensure_single_primary_wallet now new rows) × IsOf link a × (a.id ≡ y.id)
  unfolding ensure_single_primary_wallet
  ensured new rows {y} m e = elim (Bool-cases new.is_primary) [
    | inl p ↦ rw p (
      _,
      Memᴰ.map _ m,
      demoted-IsOf new.user_id new.chain_id (λ other. text_eq other.id new.id) y e,
      demoted-id new.user_id new.chain_id (λ other. text_eq other.id new.id) y,
    )
    | inr p ↦ rw p (y, m, e, refl)
  ]

  ensured_id :
      (new : Row) (rows : List Row) {y : Row}
      → Memᴰ y rows
      → (a : Row) × Memᴰ a (ensure_single_primary_wallet now new rows) × (a.id ≡ y.id)
  unfolding ensure_single_primary_wallet
  ensured_id new rows {y} m = elim (Bool-cases new.is_primary) [
    | inl p ↦
        rw p (
          _,
          Memᴰ.map _ m,
          demoted-id new.user_id new.chain_id (λ other. text_eq other.id new.id) y,
        )
    | inr p ↦ rw p (y, m, refl)
  ]

  module _ (id : Text) (change : Row → Row) (rows : List Row) (w : WellFormed rows) where
    replaced : Row → Row → Row
    replaced new other = if text_eq other.id id then new else other

    written :
        (new : Row) {r : Option Row} {rows' : List Row}
        → write_row now id new rows ≡ some (r, rows')
        → (r ≡ some new) × (rows' ≡ map (replaced new) (ensure_single_primary_wallet now new rows))
    unfolding write_row replaced
    written new {r} {rows'} h = elim (Bool-cases (admissible new rows)) [
      | inl yes_ ↦ (ground (arith, rw yes_ at h), ground (arith, rw yes_ at h))
      | inr no_ ↦ absurd (ground (arith, rw no_ at h))
    ]

    replaced-IsOf :
        (new a : Row) → (a.id ≡ id → IsOf link new) → IsOf link a → IsOf link (replaced new a)
    unfolding replaced
    replaced-IsOf new a own other = elim (Bool-cases (text_eq a.id id)) [
      | inl hit ↦ rw hit (own ((text_eq_iff a.id id).0 hit))
      | inr miss ↦ rw miss other
    ]

    -- What an update of one row has found and left.
    updated :
        {r : Option Row} {rows' : List Row}
        → update_row now id change rows ≡ some (r, rows')
        → ((r ≡ none) × (rows' ≡ rows))
          ⊎ ((z : Row) × Memᴰ z rows
              × (z.id ≡ id)
              × (r ≡ some (change z))
              × (rows'
                  ≡ map (replaced (change z)) (ensure_single_primary_wallet now (change z) rows)))
    unfolding update_row
    updated {r} {rows'} h = elim (Option-cases (find? (λ row. text_eq row.id id) rows)) [
      | inl missing ↦ inl (
        ground (arith, rw (missing, update_row) at h),
        ground (arith, rw (missing, update_row) at h),
      )
      | inr (z, found) ↦
          let (k, q) = find?-some _ rows found in
          let (a, b) = written (change z) (rw (found, update_row) at h) in
          inr (z, k, (text_eq_iff z.id id).0 q, a, b)
    ]

    -- An update of a table that has a row of the link.
    pub update_row-Has :
        ((y : Row) → IsOf link y → IsOf link (change y))
        → {r : Option Row} {rows' : List Row} → update_row now id change rows ≡ some (r, rows')
        → Has link rows
        → Has link rows'
    update_row-Has keeps h (y, m, e) = elim (updated h) [
      | inl (_, same) ↦ subst (Has link) (sym same) (y, m, e)
      | inr (z, k, q, _, same) ↦
          let (a, n, f, i) = ensured (change z) rows m e in
          let own = λ (u : a.id ≡ id).
            keeps z (subst (IsOf link) (same_row rows w.ids m k (sym i ∙ u ∙ sym q)) e) in
          subst (Has link) (sym same) (
            replaced (change z) a,
            Memᴰ.map (replaced (change z)) n,
            replaced-IsOf (change z) a own f,
          )
    ]

    -- An update that has found the one row of an id, and makes it a row of the link.
    pub update_row-found :
        ((y : Row) → Memᴰ y rows → y.id ≡ id → IsOf link (change y))
        → {new : Row} {rows' : List Row} → update_row now id change rows ≡ some (some new, rows')
        → Has link rows'
    update_row-found gives {new} {rows'} h = elim (updated h) [
      | inl (missing, _) ↦ absurd (cc)
      | inr (z, k, q, _, same) ↦
          let (a, n, i) = ensured_id (change z) rows k in
          let hit = (text_eq_iff a.id id).1 (i ∙ q) in
          subst (Has link) (sym same) (
            replaced (change z) a,
            Memᴰ.map (replaced (change z)) n,
            (unfold replaced in rw hit (gives z k q)),
          )
    ]
