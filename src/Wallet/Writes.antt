-- ===== src/Wallet/Writes.antt =====
-- The statements of the repository on a well-formed wallets table.
use mathlib.Core.List.Memᴰ
use zuno_marketplace_api.Common.{
  ℕ, Text, ◌≡◌, ◌≢◌, sym, ◌∙◌, subst, inl, inr, Bool, true, List, ◌∷◌, map, Memᴰ, Option, some,
  arith, Bool-cases, Option-cases, Distinct, All, All-of_mem, find?, find?-some, text_eq,
  text_eq_iff, if◌then◌else◌,
}
use zuno_marketplace_api.Wallet.Model.{Row}
use zuno_marketplace_api.Wallet.Repo.{
  admissible, demote_row, ensure_single_primary_wallet, write_row, update_row, change_meta,
  change_address,
}
use zuno_marketplace_api.Wallet.Table.{
  WellFormed, IsBeside, IsSpread, Fits, WellFormed-of_spread, ids_map,
  mem-ensure_single_primary_wallet, ids-ensure_single_primary_wallet,
}

-- No row has the account; no row has the address.
pub record IsFree (account_id chain_id address : Text) (rows : List Row) : Type 0 where
  pub no_account : (y : Row) → Memᴰ y rows → y.account_id ≢ account_id
  pub no_address : (y : Row) → Memᴰ y rows → y.chain_id ≡ chain_id → y.address ≢ address

abbrev pub HasNoAddress : Text → Text → List Row → Type 0
HasNoAddress chain_id address rows =
    (y : Row) → Memᴰ y rows → y.chain_id ≡ chain_id → y.address ≢ address

module _ (now : ℕ) (new : Row) (rows : List Row) (w : WellFormed rows) (fits : Fits new rows) where
  replaced : Row → Row
  replaced other = if text_eq other.id new.id then new else other

  replaced-IsSpread : IsSpread new rows (map replaced (ensure_single_primary_wallet now new rows))
  unfolding replaced
  replaced-IsSpread a m =
      let (z, k, e) = Memᴰ.of_map _ _ m in
      let (y, j, s) = mem-ensure_single_primary_wallet now new rows k in
      elim (Bool-cases (text_eq z.id new.id)) [
        | inl hit ↦ inl (ground arith)
        | inr miss ↦ inr (y, j, subst (IsBeside new y) (ground arith) s)
      ]

  pub write_row-WellFormed :
      {r : Option Row} {rows' : List Row}
      → write_row now new.id new rows ≡ some (r, rows')
      → WellFormed rows' × (r ≡ some new)
  unfolding write_row replaced
  write_row-WellFormed {r} {rows'} h = elim (Bool-cases (admissible new rows)) [
    | inl yes_ ↦
        let same : map replaced (ensure_single_primary_wallet now new rows) ≡ rows' =
          ground arith in
        (
          subst WellFormed same (
              WellFormed-of_spread new rows _ replaced-IsSpread w fits (
                subst Distinct
                  (sym (
                    ids_map replaced _ replaced_id ∙ ids-ensure_single_primary_wallet now new rows))
                  w.ids)),
          ground arith,
        )
    | inr no_ ↦ absurd (ground arith)
  ]
    where
      replaced_id : (r : Row) → (replaced r).id ≡ r.id
      replaced_id r = ground (arith, text_eq_iff r.id new.id)

  pub insert_row-WellFormed :
      ((y : Row) → Memᴰ y rows → y.id ≢ new.id)
      → WellFormed (new ∷ ensure_single_primary_wallet now new rows)
  insert_row-WellFormed fresh = WellFormed-of_spread new rows _ spread w fits (
      subst (λ (is : List Text). Distinct (new.id ∷ is))
        (sym (ids-ensure_single_primary_wallet now new rows)) (apart, w.ids))
    where
      apart : All (λ y. new.id ≢ y) (map (λ (r : Row). r.id) rows)
      apart =
          All-of_mem _ _ λ i m. let (y, k, e) = Memᴰ.of_map _ rows m in λ q. fresh y k (e ∙ sym q)

      spread : IsSpread new rows (new ∷ ensure_single_primary_wallet now new rows)
      spread a (Memᴰ.head e) = inl e
      spread a (Memᴰ.tail m) = inr (mem-ensure_single_primary_wallet now new rows m)

-- A change that keeps a row's keys fits the table that has the row.
module _ (now : ℕ) (id : Text) (rows : List Row) (w : WellFormed rows) where
  pub update_row-WellFormed :
      (change : Row → Row)
      → ((y : Row) → Memᴰ y rows → y.id ≡ id → (change y).id ≡ y.id × Fits (change y) rows)
      → {r : Option Row} {rows' : List Row} → update_row now id change rows ≡ some (r, rows')
      → WellFormed rows'
  unfolding update_row
  update_row-WellFormed change keeps {r} {rows'} h =
      elim (Option-cases (find? (λ row. text_eq row.id id) rows)) [
        | inl missing ↦ subst WellFormed (ground arith) w
        | inr (y, found) ↦
            let (m, e) = find?-some _ rows found in
            let same = (text_eq_iff y.id id).0 e in
            let (keeps_id, fits) = keeps y m same in
            (write_row-WellFormed now (change y) rows w fits (
              subst (λ (i : Text). write_row now i (change y) rows ≡ some (r, rows'))
                (sym (keeps_id ∙ same)) (rw (found, update_row) at h))).0
      ]

  pub change_meta-Fits :
      (p : Option Bool) (v l : Option ℕ) (t : Option Text) (y : Row)
      → Memᴰ y rows
      → Fits (change_meta now p v l t y) rows
  change_meta-Fits p v l t y m = record {
    account = λ z k e. w.accounts y z m k e;
    address = λ z k d e. w.addresses y z m k d e;
  }

  pub change_address-Fits :
      (chain_id address : Text) (y : Row)
      → Memᴰ y rows
      → HasNoAddress chain_id address rows
      → Fits (change_address now chain_id address y) rows
  change_address-Fits chain_id address y m free = record {
    account = λ z k e. w.accounts y z m k e;
    address = λ z k d e. absurd (free z k (sym d) (sym e));
  }

module _ (now : ℕ) (user_id chain_id : Text) (spared : Row → Bool) (rows : List Row) where
  abbrev pub demoted : Row → Row
  demoted = demote_row now user_id chain_id spared

  -- The row that a demoted row was.
  mem-demoted :
      {a : Row}
      → Memᴰ a (map demoted rows)
      → (y : Row) × Memᴰ y rows
        × (a.id ≡ y.id)
        × (a.account_id ≡ y.account_id)
        × (a.chain_id ≡ y.chain_id)
        × (a.address ≡ y.address)
        × (a.user_id ≡ y.user_id)
        × (a.is_primary ≡ true → y.is_primary ≡ true)
  mem-demoted m =
      let (y, k, e) = Memᴰ.of_map _ rows m in
      (y, k, ground arith, ground arith, ground arith, ground arith, ground arith, ground arith)

  demoted_id : (y : Row) → (demoted y).id ≡ y.id
  demoted_id y = ground arith

  pub demote-IsFree :
      (account_id chain address : Text)
      → IsFree account_id chain address rows
      → IsFree account_id chain address (map demoted rows)
  demote-IsFree account_id chain address f = record {
    no_account = λ a m e. let (y, k, _, p, _, _, _, _) = mem-demoted m in f.no_account y k (cc);
    no_address =
        λ a m d e. let (y, k, _, _, p, q, _, _) = mem-demoted m in f.no_address y k (cc) (cc);
  }

  pub demote-WellFormed : WellFormed rows → WellFormed (map demoted rows)
  demote-WellFormed w = record {
    ids = subst Distinct (sym (ids_map demoted rows demoted_id)) w.ids;
    accounts = λ a b m n e.
        let (x, j, i, p, _, _, _, _) = mem-demoted m in
        let (y, k, i', p', _, _, _, _) = mem-demoted n in cc (w.accounts x y j k (cc));
    addresses = λ a b m n d e.
        let (x, j, i, _, p, q, _, _) = mem-demoted m in
        let (y, k, i', _, p', q', _, _) = mem-demoted n in cc (w.addresses x y j k (cc) (cc));
    primaries = λ a b m n one two d e.
        let (x, j, i, _, p, _, q, r) = mem-demoted m in
        let (y, k, i', _, p', _, q', r') = mem-demoted n in
        cc (w.primaries x y j k (r one) (r' two) (cc) (cc));
  }
