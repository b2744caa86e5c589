-- ===== src/Wallet/Branches.antt =====
-- The branches of UpsertLink leave a row of the link once they succeed.
use zuno_marketplace_api.Common.{
  ℕ, Text, ◌≡◌, refl, sym, ◌∙◌, ap, subst, Bool, true, false, List, ◌∷◌, Memᴰ, Option, none, some,
  arith, text_eq, text_eq_iff, Result, ok, err, Exec, ◌&&◌, not,
}
use zuno_marketplace_api.Common.Triple.{Post, Triple, Triple-lose, Triple-bind}
use zuno_marketplace_api.Wallet.Model.{WalletLink, Row, WalletError, Tx}
use zuno_marketplace_api.Wallet.Repo.{
  get_by_address_tx, update_row, update_wallet_address_tx, insert_wallet_tx, insert_row, new_row,
  change_address, has_account, has_address, scan, ensure_single_primary_wallet,
}
use zuno_marketplace_api.Wallet.Service.{
  refresh_row, refuse_address, claimed, move_row, choose_primary, insert_new, decide,
}
use zuno_marketplace_api.Wallet.Table.{WellFormed}
use zuno_marketplace_api.Wallet.Writes.{HasNoAddress, update_row-WellFormed, change_address-Fits}
use zuno_marketplace_api.Wallet.Statements.{OnRows, Found, statement_triple, optional-select_triple}
use zuno_marketplace_api.Wallet.Invariant.{not_at_address}
use zuno_marketplace_api.Wallet.Stored.{IsOf, Has, same_row, update_row-found}
use zuno_marketplace_api.Wallet.Staying.{
  Holds, Stays, bind-Stays, refresh_row-Stays, promote_row-Stays,
}

-- Nothing is claimed after an error.
abbrev pub Anything : List Row → Type 0
Anything rows = Unit {0}

-- Code that need keep nothing.
anything :
    {A : Type 0} (m : Exec Tx WalletError A)
    → Triple (OnRows Anything) m (λ _. OnRows Anything) (OnRows Anything)
anything m = record { at = λ tx h. either (m tx).0 (m tx).1 }
  where
    either :
        {A : Type 0} (r : Result WalletError A) (tx : Tx)
        → Post (λ _. OnRows Anything) (OnRows Anything) r tx
    either (ok a) tx = tt
    either (err e) tx = tt

module _ (now : ℕ) (new_id : Text) (link : WalletLink) where
  -- Code that has the link's row once it succeeds.
  abbrev pub Links : {A : Type 0} → (Tx → Type 0) → Exec Tx WalletError A → Type 0
  Links P m = Triple P m (λ _. OnRows (Has link)) (OnRows Anything)

  Stays-Links :
      {A : Type 0} (m : Exec Tx WalletError A)
      → Stays now new_id link m
      → Links (OnRows (Holds link)) m
  Stays-Links m h = record { at = λ tx p. either (m tx).0 (m tx).1 (h.at tx p) }
    where
      either :
          {A : Type 0} (r : Result WalletError A) (tx : Tx)
          → Post (λ _. OnRows (Holds link)) (OnRows (Holds link)) r tx
          → Post (λ _. OnRows (Has link)) (OnRows Anything) r tx
      either (ok a) tx h = h.1
      either (err e) tx h = tt

  -- Both reads have found one row, or the request is refused.
  refresh_row-Links :
      (b : Bool) (addr acc : WalletLink)
      → text_eq addr.id acc.id ≡ b
      → Links
          (OnRows (λ rows.
            WellFormed rows
            × Found (has_address link.chain_id link.address) (some addr) rows
            × Found (has_account link.account_id) (some acc) rows))
          (refresh_row now new_id b link acc)
  unfolding refresh_row
  refresh_row-Links false addr acc e = record { at = λ tx h. tt }
  refresh_row-Links true addr acc e = record {
    at = λ tx h.
        let (y, m, p, q) = h.1 in
        let (z, n, p', q') = h.2 in
        let ids : y.id ≡ z.id =
          ap (λ (l : WalletLink). l.id) (sym q)
          ∙ (text_eq_iff addr.id acc.id).0 e
          ∙ ap (λ (l : WalletLink). l.id) q' in
        let one = same_row tx.rows h.0.ids m n ids in
        (Stays-Links (refresh_row now new_id true link acc)
            (refresh_row-Stays now new_id link true link acc)).at
          tx
          (
            h.0,
            (
              y,
              m,
              record {
                account =
                    ap (λ (r : Row). r.account_id) one
                    ∙ (text_eq_iff z.account_id link.account_id).0 p';
                chain = (text_eq_iff y.chain_id link.chain_id).0 (ground (arith, p));
                address = (text_eq_iff y.address link.address).0 (ground (arith, p));
              },
            ),
          );
  }

  -- The table before an account's row moves to an address.
  abbrev Movable : WalletLink → List Row → Type 0
  Movable acc rows = WellFormed rows × Found (has_account link.account_id) (some acc) rows

  claimed-Movable :
      (acc : WalletLink) (other : Option WalletLink)
      → Triple
          (λ s. Movable acc s.rows × Found (has_address link.chain_id link.address) other s.rows)
          (claimed now new_id other)
          (λ _. OnRows (λ rows. Movable acc rows × HasNoAddress link.chain_id link.address rows))
          (OnRows Anything)
  claimed-Movable acc none = record {
    at = λ tx h. (h.0, not_at_address now new_id link.chain_id link.address tx.rows h.1);
  }
  claimed-Movable acc (some other) = record { at = λ tx h. tt }

  abbrev Moved : Option Row → List Row → Type 0
  Moved o rows = WellFormed rows × ((r : Row) → o ≡ some r → Has link rows)

  scan-Moved :
      (o : Option Row)
      → Triple (OnRows (Moved o)) (scan o) (λ _. OnRows (Holds link)) (OnRows Anything)
  scan-Moved none = record { at = λ tx h. tt }
  scan-Moved (some row) = record { at = λ tx h. (h.0, h.1 row refl) }

  moved :
      (acc : WalletLink) (rows : List Row) (o : Option Row) (rows' : List Row)
      → Movable acc rows × HasNoAddress link.chain_id link.address rows
      → update_row now acc.id (change_address now link.chain_id link.address) rows ≡ some (o, rows')
      → Moved o rows'
  moved acc rows o rows' (movable, free) e =
      let (w, (z, n, p, q)) = movable in
      let change = change_address now link.chain_id link.address in
      (
        update_row-WellFormed now acc.id rows w change
            (λ y m _.
              (refl, change_address-Fits now acc.id rows w link.chain_id link.address y m free))
            e,
        λ r some_row.
            update_row-found now link acc.id change rows w
              (λ y m i. record {
                account =
                    ap (λ (x : Row). x.account_id)
                      (same_row rows w.ids m n (i ∙ ap (λ (l : WalletLink). l.id) q))
                    ∙ (text_eq_iff z.account_id link.account_id).0 p;
                chain = refl;
                address = refl;
              })
              (subst (λ (x : Option Row). update_row now acc.id change rows ≡ some (x, rows'))
                some_row e),
      )

  move_row-Links :
      (b : Bool) (acc : WalletLink) → Links (OnRows (Movable acc)) (move_row now new_id b link acc)
  unfolding move_row get_by_address_tx update_wallet_address_tx
  move_row-Links false acc = record { at = λ tx h. tt }
  move_row-Links true acc =
      Triple-bind _ _ _ _
        (Triple-lose _ _
          (optional-select_triple (Movable acc) (has_address link.chain_id link.address))
          (λ tx h. tt))
        λ other. Triple-bind _ _ _ _ (claimed-Movable acc other) λ _.
          Triple-bind _ _ (λ _. OnRows (Holds link)) _
            (Triple-bind _ _ (λ o. OnRows (Moved o)) _
              (statement_triple _ Anything _ Moved (λ _ h. tt)
                (λ rows o rows' h e. moved acc rows o rows' h e))
              scan-Moved)
            λ updated. Stays-Links _ (
              bind-Stays now new_id link _ _
                (promote_row-Stays now new_id link (link.is_primary && not updated.is_primary)
                  updated)
                λ changed. record { at = λ tx h. h })

  -- An insertion has its row.
  inserted :
      (new : Row) (rows : List Row) (r : Row) (rows' : List Row)
      → IsOf link new
      → insert_row now new rows ≡ some (r, rows')
      → Has link rows'
  unfolding insert_row
  inserted new rows r rows' own e =
      let same : ◌≡◌ {A = List Row} (new ∷ ensure_single_primary_wallet now new rows) rows' =
        ground arith in
      (new, subst (Memᴰ new) same (Memᴰ.head refl), own)

  insert_new-Links : Links (OnRows Anything) (insert_new now new_id link)
  unfolding insert_new insert_wallet_tx
  insert_new-Links =
      Triple-bind _ _ (λ _. OnRows Anything) _
        (anything (choose_primary now new_id link.is_primary link))
        λ primary.
          Triple-bind _ _ (λ _. OnRows (Has link)) _
            (Triple-bind _ _ (λ _. OnRows (Has link)) _
              (statement_triple Anything Anything _ (λ _. Has link) (λ _ h. tt)
                (λ rows r rows' h e.
                  inserted (new_row now new_id (record link { is_primary = primary })) rows r rows'
                    (record { account = refl; chain = refl; address = refl }) e))
              λ row. record { at = λ tx h. h })
            λ l. record { at = λ tx h. h }

  refuse_address-Links : {P : Tx → Type 0} (b : Bool) → Links P (refuse_address now new_id b)
  unfolding refuse_address
  refuse_address-Links true = record { at = λ tx h. tt }
  refuse_address-Links false = record { at = λ tx h. tt }

  pub decide-Links :
      (addr acc : Option WalletLink)
      → Links
          (OnRows (λ rows.
            WellFormed rows
            × Found (has_address link.chain_id link.address) addr rows
            × Found (has_account link.account_id) acc rows))
          (decide now new_id link addr acc)
  unfolding decide
  decide-Links (some addr) (some acc) = refresh_row-Links (text_eq addr.id acc.id) addr acc refl
  decide-Links (some addr) none = refuse_address-Links (text_eq addr.user_id link.user_id)
  decide-Links none (some acc) = record {
    at = λ tx h. (move_row-Links (text_eq acc.user_id link.user_id) acc).at tx (h.0, h.2);
  }
  decide-Links none none = record { at = λ tx h. insert_new-Links.at tx tt }
