-- ===== src/Wallet/Linked.antt =====
-- An UpsertLink that succeeds leaves the account linked to the address.
use zuno_marketplace_api.Common.{
  ℕ, Text, ◌≡◌, inl, inr, Bool, true, false, List, Memᴰ, Option, none, some, arith, Bool-cases,
  Result, ok, err,
}
use zuno_marketplace_api.Common.Triple.{Post, Triple-lose, Triple-bind}
use zuno_marketplace_api.Wallet.Model.{WalletLink, Row, WalletUpsertResult, WalletError, Tx}
use zuno_marketplace_api.Wallet.Validate.{
  normalize_address, normalize_chain_id, validate_wallet_link,
}
use zuno_marketplace_api.Wallet.Repo.{
  refused, begin_tx, end_tx, with_tx, get_by_account_id_tx, get_by_address_tx, has_account,
  has_address,
}
use zuno_marketplace_api.Wallet.Service.{normalized, checked, upsert_tx, upsert_link}
use zuno_marketplace_api.Wallet.Table.{WellFormed}
use zuno_marketplace_api.Wallet.Statements.{
  OnRows, Found, optional-select_triple, acquire_account_lock_triple, acquire_address_lock_triple,
}
use zuno_marketplace_api.Wallet.Stored.{Has}
use zuno_marketplace_api.Wallet.Branches.{Anything, Links, decide-Links}

module _ (now : ℕ) (new_id : Text) (link : WalletLink) where
  upsert_tx-Links : Links now new_id link (OnRows WellFormed) (upsert_tx now new_id link)
  unfolding upsert_tx get_by_address_tx get_by_account_id_tx
  upsert_tx-Links =
      Triple-bind _ _ (λ _. OnRows WellFormed) _
        (Triple-lose _ _ (acquire_account_lock_triple WellFormed link.account_id) (λ tx h. tt))
        λ _.
          Triple-bind _ _ (λ _. OnRows WellFormed) _
            (Triple-lose _ _ (acquire_address_lock_triple WellFormed link.chain_id link.address)
              (λ tx h. tt))
            λ _.
              Triple-bind _ _ _ _
                (Triple-lose _ _
                  (optional-select_triple WellFormed (has_address link.chain_id link.address))
                  (λ tx h. tt))
                λ addr.
                  Triple-bind _ _ _ _
                    (Triple-lose _ _
                      (optional-select_triple
                        (λ rows.
                          WellFormed rows
                          × Found (has_address link.chain_id link.address) addr rows)
                        (has_account link.account_id))
                      (λ tx h. tt))
                    λ acc. record {
                      at =
                          λ tx h. (decide-Links now new_id link addr acc).at tx (h.0.0, h.0.1, h.1);
                    }

  end_tx-Has :
      (rows : List Row) (out : Result WalletError WalletUpsertResult × Tx)
      {result : WalletUpsertResult}
      → Post (λ _. OnRows (Has link)) (OnRows Anything) out.0 out.1
      → (end_tx rows out).0 ≡ ok result
      → Has link (end_tx rows out).1
  unfolding end_tx
  end_tx-Has rows (err e, tx) p h = cc
  end_tx-Has rows (ok a, tx) p h = elim (Bool-cases (refused tx)) [
    | inl no_ ↦ absurd (ground (arith, rw no_ at h))
    | inr yes_ ↦ rw yes_ p
  ]

module _ (now : ℕ) (new_id : Text) where
  -- From a well-formed table, an UpsertLink that succeeds leaves a row with the account of the
  -- request and its chain and address in normal form, whether it refreshed the row, moved the
  -- account's row to the address or inserted one, and whatever statements failed.
  pub upsert_link-stores :
      (begins : Bool) (faults : List Bool) (link : WalletLink) (rows : List Row)
      (result : WalletUpsertResult)
      → WellFormed rows
      → (upsert_link now new_id begins faults link rows).0 ≡ ok result
      → (row : Row) × Memᴰ row (upsert_link now new_id begins faults link rows).1
        × (row.account_id ≡ link.account_id)
        × (row.chain_id ≡ normalize_chain_id link.chain_id)
        × (row.address ≡ normalize_address link.address)
  unfolding upsert_link with_tx
  upsert_link-stores begins faults link rows result w h =
      let (row, m, own) = stored (validate_wallet_link link) begins h in
      (row, m, own.account, own.chain, own.address)
    where
      stored :
          (o : Option WalletError) (begins : Bool)
          → (checked now new_id o begins faults link rows).0 ≡ ok result
          → Has (normalized now new_id link) (checked now new_id o begins faults link rows).1
      stored (some e) begins h = cc
      stored none false h = cc
      stored none true h =
          let target = normalized now new_id link in
          end_tx-Has now new_id target rows (upsert_tx now new_id target (begin_tx faults rows))
            ((upsert_tx-Links now new_id target).at (begin_tx faults rows) w) h
