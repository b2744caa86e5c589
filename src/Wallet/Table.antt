-- ===== src/Wallet/Table.antt =====
-- What makes the wallets table well formed, and that writing one row keeps it so.
use mathlib.Core.List.Memᴰ
use zuno_marketplace_api.Common.{
  ℕ, ◌≡◌, refl, sym, subst, subst₂, ◌⊎◌, inl, inr, true, List, [], ◌∷◌, map, Memᴰ, arith,
  Bool-cases, Distinct, text_eq, text_eq_iff,
}
use zuno_marketplace_api.Wallet.Model.{Row}
use zuno_marketplace_api.Wallet.Repo.{demote_row, ensure_single_primary_wallet}

pub record WellFormed (rows : List Row) : Type 0 where
  -- No id stands in two rows.
  pub ids : Distinct (map (λ (r : Row). r.id) rows)
  -- An account id belongs to one row.
  pub accounts : (a b : Row) → Memᴰ a rows → Memᴰ b rows → a.account_id ≡ b.account_id → a.id ≡ b.id
  -- An address of a chain belongs to one row, whoever its user is.
  pub addresses :
      (a b : Row)
      → Memᴰ a rows
      → Memᴰ b rows
      → a.chain_id ≡ b.chain_id
      → a.address ≡ b.address
      → a.id ≡ b.id
  -- A user has at most one primary wallet on a chain.
  pub primaries :
      (a b : Row)
      → Memᴰ a rows
      → Memᴰ b rows
      → a.is_primary ≡ true
      → b.is_primary ≡ true
      → a.user_id ≡ b.user_id
      → a.chain_id ≡ b.chain_id
      → a.id ≡ b.id

-- `a` is the row `y` after a write of `row` elsewhere: at most demoted, and demoted if both
-- were primary for one user and chain.
pub record IsBeside (row y a : Row) : Type 0 where
  pub id : a.id ≡ y.id
  pub user : a.user_id ≡ y.user_id
  pub account : a.account_id ≡ y.account_id
  pub address : a.address ≡ y.address
  pub chain : a.chain_id ≡ y.chain_id
  pub primary : a.is_primary ≡ true → y.is_primary ≡ true
  pub alone :
      row.is_primary ≡ true
      → a.is_primary ≡ true
      → a.user_id ≡ row.user_id
      → a.chain_id ≡ row.chain_id
      → a.id ≡ row.id

pub ids_map :
    (f : Row → Row) (rows : List Row)
    → ((r : Row) → (f r).id ≡ r.id)
    → map (λ (r : Row). r.id) (map f rows) ≡ map (λ (r : Row). r.id) rows
ids_map f [] h = refl
ids_map f (r ∷ rows) h = cc (h r, ids_map f rows h)

module _ (now : ℕ) (row : Row) where
  demoted-IsBeside :
      (y : Row)
      → IsBeside row y
          (demote_row now row.user_id row.chain_id (λ other. text_eq other.id row.id) y)
  demoted-IsBeside y = ground (
    arith,
    text_eq_iff y.user_id row.user_id,
    text_eq_iff y.chain_id row.chain_id,
    text_eq_iff y.id row.id,
  )

  pub mem-ensure_single_primary_wallet :
      (rows : List Row) {a : Row}
      → Memᴰ a (ensure_single_primary_wallet now row rows)
      → (y : Row) × Memᴰ y rows × IsBeside row y a
  unfolding ensure_single_primary_wallet
  mem-ensure_single_primary_wallet rows {a} m = elim (Bool-cases row.is_primary) [
    | inl p ↦
        let (y, k, e) = Memᴰ.of_map _ rows (rw (p, ensure_single_primary_wallet) at m) in
        (y, k, subst (IsBeside row y) e (demoted-IsBeside y))
    | inr p ↦ (a, rw (p, ensure_single_primary_wallet) at m, ground arith)
  ]

  pub ids-ensure_single_primary_wallet :
      (rows : List Row)
      → map (λ (r : Row). r.id) (ensure_single_primary_wallet now row rows)
        ≡ map (λ (r : Row). r.id) rows
  unfolding ensure_single_primary_wallet
  ids-ensure_single_primary_wallet rows = elim (Bool-cases row.is_primary) [
    | inl p ↦ rw p (ids_map _ rows (λ r. (demoted-IsBeside r).id))
    | inr p ↦ rw p
  ]

-- Every row is the new one or stands beside it.
abbrev pub IsSpread : Row → List Row → List Row → Type 0
IsSpread new rows rows' =
    (a : Row) → Memᴰ a rows' → (a ≡ new) ⊎ ((y : Row) × Memᴰ y rows × IsBeside new y a)

-- What a written row must meet: its account and its address are no other row's.
pub record Fits (new : Row) (rows : List Row) : Type 0 where
  pub account : (y : Row) → Memᴰ y rows → new.account_id ≡ y.account_id → new.id ≡ y.id
  pub address :
      (y : Row) → Memᴰ y rows → new.chain_id ≡ y.chain_id → new.address ≡ y.address → new.id ≡ y.id

module _ (new : Row) (rows rows' : List Row) (spread : IsSpread new rows rows') where
  -- A claim about all pairs of rows is proved for the new row and for what was there.
  pairs_spread :
      (C : Row → Row → Type 0)
      → C new new
      → ((y b : Row) → Memᴰ y rows → IsBeside new y b → C new b × C b new)
      → ((x y a b : Row) → Memᴰ x rows → Memᴰ y rows → IsBeside new x a → IsBeside new y b → C a b)
      → (a b : Row) → Memᴰ a rows'
      → Memᴰ b rows'
      → C a b
  pairs_spread C self mixed old a b m n = elim (spread a m) [
    | inl p ↦ elim (spread b n) [
      | inl q ↦ subst₂ C (sym p) (sym q) self
      | inr (y, k, s) ↦ subst (λ r. C r b) (sym p) ((mixed y b k s).0)
    ]
    | inr (x, j, r) ↦ elim (spread b n) [
      | inl q ↦ subst (C a) (sym q) ((mixed x a j r).1)
      | inr (y, k, s) ↦ old x y a b j k r s
    ]
  ]

  pub WellFormed-of_spread :
      WellFormed rows → Fits new rows → Distinct (map (λ (r : Row). r.id) rows') → WellFormed rows'
  WellFormed-of_spread w fits ids = record {
    ids = ids;
    accounts =
        pairs_spread (λ a b. a.account_id ≡ b.account_id → a.id ≡ b.id) (λ _. refl)
          (λ y b k s. (
            (λ e. cc (fits.account y k (cc s.account), s.id)),
            (λ e. cc (fits.account y k (cc s.account), s.id)),
          ))
          (λ x y a b j k r s e. cc (w.accounts x y j k (cc (r.account, s.account)), r.id, s.id));
    addresses =
        pairs_spread (λ a b. a.chain_id ≡ b.chain_id → a.address ≡ b.address → a.id ≡ b.id)
          (λ _ _. refl)
          (λ y b k s. (
            (λ d e. cc (fits.address y k (cc s.chain) (cc s.address), s.id)),
            (λ d e. cc (fits.address y k (cc s.chain) (cc s.address), s.id)),
          ))
          (λ x y a b j k r s d e.
            cc (
              w.addresses x y j k (cc (r.chain, s.chain)) (cc (r.address, s.address)),
              r.id,
              s.id,
            ));
    primaries =
        pairs_spread
          (λ a b.
            a.is_primary ≡ true
            → b.is_primary ≡ true
            → a.user_id ≡ b.user_id
            → a.chain_id ≡ b.chain_id
            → a.id ≡ b.id)
          (λ _ _ _ _. refl)
          (λ y b k s.
            ((λ p q d e. sym (s.alone p q (sym d) (sym e))), (λ p q d e. s.alone q p d e)))
          (λ x y a b j k r s p q d e. cc (
            w.primaries x y j k (r.primary p) (s.primary q) (cc (r.user, s.user))
                (cc (r.chain, s.chain)),
            r.id,
            s.id,
          ));
  }
