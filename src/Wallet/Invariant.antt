-- ===== src/Wallet/Invariant.antt =====
-- UpsertLink keeps the wallets table well formed, whatever the server refuses.
use zuno_marketplace_api.Common.{
  ℕ, Text, Bool, true, false, List, [], Option, none, some, arith, text_eq, text_eq_iff, inl, inr,
  Result, ok, err, Exec, pure, fail, attempt, ◌>>=◌, ◌&&◌, not, Bool-cases,
}
use zuno_marketplace_api.Common.Triple.{Post, Triple, Triple-lose, Triple-bind}
use zuno_marketplace_api.Wallet.Model.{WalletLink, Row, WalletUpsertResult, WalletError, Tx}
use zuno_marketplace_api.Wallet.Validate.{validate_wallet_link}
use zuno_marketplace_api.Wallet.Repo.{
  refused, begin_tx, end_tx, with_tx, get_by_account_id_tx, get_by_address_tx,
  get_primary_by_user_chain_tx, demote_other_primaries_tx, has_account, has_address, is_primary_on,
}
use zuno_marketplace_api.Wallet.Service.{
  is_ok, when_true, make_room, refresh_row, refuse_address, demote_after, promote_row, claimed,
  move_row, choose_primary, insert_new, decide, normalized, checked, upsert_tx, upsert_link,
}
use zuno_marketplace_api.Wallet.Table.{WellFormed}
use zuno_marketplace_api.Wallet.Writes.{IsFree, HasNoAddress}
use zuno_marketplace_api.Wallet.Statements.{
  OnRows, Found, Keeps, HasRoom, optional-select_triple, select_triple, acquire_account_lock_triple,
  acquire_address_lock_triple, update_wallet_meta_tx-Keeps, update_wallet_address_tx_keeps,
  demote_other_primaries_tx-Keeps, demote_other_primaries_tx_room, insert_wallet_tx_keeps,
}

-- Whatever an attempted statement gave, its rows have the claim.
pub attempt_keeps :
    {A : Type 0} (P : List Row → Type 0) (m : Exec Tx WalletError A)
    → Triple (OnRows P) m (λ _. OnRows P) (OnRows P)
    → Triple (OnRows P) (attempt m) (λ _. OnRows P) (OnRows P)
attempt_keeps P m h = record { at = λ tx p. either (m tx).0 (m tx).1 (h.at tx p) }
  where
    either :
        {A : Type 0} (r : Result WalletError A) (tx : Tx)
        → Post (λ _. OnRows P) (OnRows P) r tx
        → P tx.rows
    either (ok a) tx p = p
    either (err e) tx p = p

-- Two calls one after the other, both of which keep the table well formed.
bind-Keeps :
    {A B : Type 0} (now : ℕ) (m : Exec Tx WalletError A) (f : A → Exec Tx WalletError B)
    → Keeps now m
    → ((a : A) → Keeps now (f a))
    → Keeps now (m >>= f)
bind-Keeps now m f = Triple-bind m f (λ _. OnRows WellFormed) (λ _. OnRows WellFormed)

pure-Keeps : {A : Type 0} (now : ℕ) (a : A) → Keeps now (pure a)
pure-Keeps now a = record { at = λ tx h. h }

fail-Keeps : {A : Type 0} (now : ℕ) (e : WalletError) → Keeps now (fail {A = A} e)
fail-Keeps now e = record { at = λ tx h. h }

module _ (now : ℕ) (new_id : Text) where
  demote_attempt-Keeps :
      (user_id chain_id keep_id : Text)
      → Keeps now (attempt (demote_other_primaries_tx now user_id chain_id keep_id))
  demote_attempt-Keeps user_id chain_id keep_id =
      attempt_keeps WellFormed _ (demote_other_primaries_tx-Keeps now user_id chain_id keep_id)

  make_room-Keeps : (b : Bool) (acc : WalletLink) → Keeps now (make_room now new_id b acc)
  unfolding make_room
  make_room-Keeps false acc = pure-Keeps now false
  make_room-Keeps true acc =
      bind-Keeps now _ _ (demote_attempt-Keeps acc.user_id acc.chain_id acc.id)
        λ r. pure-Keeps now (is_ok r)

  refresh_row-Keeps :
      (b : Bool) (link acc : WalletLink) → Keeps now (refresh_row now new_id b link acc)
  unfolding refresh_row
  refresh_row-Keeps false link acc = fail-Keeps now _
  refresh_row-Keeps true link acc =
      let promote = link.is_primary && not acc.is_primary in
      bind-Keeps now _ _ (make_room-Keeps promote acc) λ changed.
        bind-Keeps now _ _
          (attempt_keeps WellFormed _
            (update_wallet_meta_tx-Keeps now acc.id (when_true promote) none (some now) none))
          λ r. pure-Keeps now _

  demote_after-Keeps : (b : Bool) (link : WalletLink) → Keeps now (demote_after now new_id b link)
  unfolding demote_after
  demote_after-Keeps false link = pure-Keeps now false
  demote_after-Keeps true link =
      bind-Keeps now _ _ (demote_attempt-Keeps link.user_id link.chain_id link.id)
        λ _. pure-Keeps now true

  promote_row-Keeps : (b : Bool) (link : WalletLink) → Keeps now (promote_row now new_id b link)
  unfolding promote_row
  promote_row-Keeps false link = pure-Keeps now false
  promote_row-Keeps true link =
      bind-Keeps now _ _
        (attempt_keeps WellFormed _
          (update_wallet_meta_tx-Keeps now link.id (some true) none none none))
        λ r. demote_after-Keeps (is_ok r) link

  refuse_address-Keeps : (b : Bool) → Keeps now (refuse_address now new_id b)
  unfolding refuse_address
  refuse_address-Keeps true = fail-Keeps now _
  refuse_address-Keeps false = fail-Keeps now _

  pub not_at_address :
      (chain_id address : Text) (rows : List Row)
      → Found (has_address chain_id address) none rows
      → HasNoAddress chain_id address rows
  not_at_address chain_id address rows f y m d e =
      ground (arith, f y m, text_eq_iff y.chain_id chain_id, text_eq_iff y.address address)

  claimed_triple :
      (chain_id address : Text) (other : Option WalletLink)
      → Triple
          (λ s. WellFormed s.rows × Found (has_address chain_id address) other s.rows)
          (claimed now new_id other)
          (λ _. OnRows (λ rows. WellFormed rows × HasNoAddress chain_id address rows))
          (OnRows WellFormed)
  claimed_triple chain_id address none = record {
    at = λ tx h. (h.0, not_at_address chain_id address tx.rows h.1);
  }
  claimed_triple chain_id address (some other) = record { at = λ tx h. h.0 }

  move_row-Keeps : (b : Bool) (link acc : WalletLink) → Keeps now (move_row now new_id b link acc)
  unfolding move_row get_by_address_tx
  move_row-Keeps false link acc = fail-Keeps now _
  move_row-Keeps true link acc =
      Triple-bind _ _ _ _
        (optional-select_triple WellFormed (has_address link.chain_id link.address))
        λ other. Triple-bind _ _ _ _ (claimed_triple link.chain_id link.address other) λ _.
          Triple-bind _ _ _ _ (update_wallet_address_tx_keeps now acc.id link.chain_id link.address)
            λ updated.
              bind-Keeps now _ _
                (promote_row-Keeps (link.is_primary && not updated.is_primary) updated)
                λ changed. pure-Keeps now _

  abbrev HasRoomFor : WalletLink → Tx → Type 0
  HasRoomFor link = OnRows (HasRoom now link.account_id link.chain_id link.address)

  choose_primary_triple :
      (b : Bool) (link : WalletLink)
      → Triple
          (HasRoomFor link)
          (choose_primary now new_id b link)
          (λ _. HasRoomFor link)
          (HasRoomFor link)
  unfolding choose_primary get_primary_by_user_chain_tx
  choose_primary_triple true link =
      Triple-bind _ _ (λ _. HasRoomFor link) (λ _. HasRoomFor link)
        (attempt_keeps _ _ (
          demote_other_primaries_tx_room now link.account_id link.chain_id link.address link.user_id
            link.chain_id []))
        λ _. record { at = λ tx h. h }
  choose_primary_triple false link =
      Triple-bind _ _ (λ _. HasRoomFor link) (λ _. HasRoomFor link)
        (attempt_keeps _ _ (select_triple _ (is_primary_on link.user_id link.chain_id)))
        λ _. record { at = λ tx h. h }

  insert_new_triple :
      (link : WalletLink)
      → Triple
          (HasRoomFor link)
          (insert_new now new_id link)
          (λ _. OnRows WellFormed)
          (OnRows WellFormed)
  unfolding insert_new
  insert_new_triple link =
      Triple-bind _ _ (λ _. HasRoomFor link) (λ _. OnRows WellFormed)
        (Triple-lose _ (λ _. HasRoomFor link) (choose_primary_triple link.is_primary link)
          (λ tx h. h.0))
        λ primary.
          Triple-bind _ _ _ _
            (insert_wallet_tx_keeps now new_id (record link { is_primary = primary }))
            λ inserted. pure-Keeps now _

  -- What the two reads have found.
  abbrev Read : WalletLink → Option WalletLink → Option WalletLink → Tx → Type 0
  Read link addr acc tx =
      WellFormed tx.rows
      × Found (has_address link.chain_id link.address) addr tx.rows
      × Found (has_account link.account_id) acc tx.rows

  pub read-IsFree :
      (link : WalletLink) (rows : List Row)
      → Found (has_address link.chain_id link.address) none rows
      → Found (has_account link.account_id) none rows
      → IsFree link.account_id link.chain_id link.address rows
  read-IsFree link rows f g = record {
    no_account = λ y m e. ground (arith, g y m, text_eq_iff y.account_id link.account_id);
    no_address = not_at_address link.chain_id link.address rows f;
  }

  decide_triple :
      (link : WalletLink) (addr acc : Option WalletLink)
      → Triple
          (Read link addr acc)
          (decide now new_id link addr acc)
          (λ _. OnRows WellFormed)
          (OnRows WellFormed)
  unfolding decide
  decide_triple link (some addr) (some acc) = record {
    at = λ tx h. (refresh_row-Keeps (text_eq addr.id acc.id) link acc).at tx h.0;
  }
  decide_triple link (some addr) none = record {
    at = λ tx h. (refuse_address-Keeps (text_eq addr.user_id link.user_id)).at tx h.0;
  }
  decide_triple link none (some acc) = record {
    at = λ tx h. (move_row-Keeps (text_eq acc.user_id link.user_id) link acc).at tx h.0;
  }
  decide_triple link none none = record {
    at = λ tx h. (insert_new_triple link).at tx (h.0, read-IsFree link tx.rows h.1 h.2);
  }

  upsert_tx-Keeps : (link : WalletLink) → Keeps now (upsert_tx now new_id link)
  unfolding upsert_tx get_by_address_tx get_by_account_id_tx
  upsert_tx-Keeps link =
      bind-Keeps now _ _ (acquire_account_lock_triple WellFormed link.account_id) λ _.
        bind-Keeps now _ _ (acquire_address_lock_triple WellFormed link.chain_id link.address) λ _.
          Triple-bind _ _ _ _
            (optional-select_triple WellFormed (has_address link.chain_id link.address))
            λ addr.
              Triple-bind _ _ _ _
                (Triple-lose _ _
                  (optional-select_triple
                    (λ rows.
                      WellFormed rows × Found (has_address link.chain_id link.address) addr rows)
                    (has_account link.account_id))
                  (λ tx h. h.0))
                λ acc. record {
                  at = λ tx h. (decide_triple link addr acc).at tx (h.0.0, h.0.1, h.1);
                }

  end_tx-WellFormed :
      (rows : List Row) (out : Result WalletError WalletUpsertResult × Tx)
      → WellFormed rows
      → Post (λ _. OnRows WellFormed) (OnRows WellFormed) out.0 out.1
      → WellFormed (end_tx rows out).1
  unfolding end_tx
  end_tx-WellFormed rows (err e, tx) w p = w
  end_tx-WellFormed rows (ok a, tx) w p = elim (Bool-cases (refused tx)) [
    | inl no_ ↦ rw no_ w
    | inr yes_ ↦ rw yes_ p
  ]

  -- Whatever the request, the time, the new id and the statements that the server refuses,
  -- UpsertLink leaves a well-formed table well formed: ids, account ids and chain addresses stay
  -- unique, and no user gets two primary wallets on one chain.
  pub upsert_link-WellFormed :
      (begins : Bool) (faults : List Bool) (link : WalletLink) (rows : List Row)
      → WellFormed rows
      → WellFormed (upsert_link now new_id begins faults link rows).1
  unfolding upsert_link with_tx
  upsert_link-WellFormed begins faults link rows w =
      checked_keeps (validate_wallet_link link) begins
    where
      checked_keeps :
          (o : Option WalletError) (begins : Bool)
          → WellFormed (checked now new_id o begins faults link rows).1
      checked_keeps (some e) begins = w
      checked_keeps none false = w
      checked_keeps none true =
          end_tx-WellFormed rows
            (upsert_tx now new_id (normalized now new_id link) (begin_tx faults rows)) w
            ((upsert_tx-Keeps (normalized now new_id link)).at (begin_tx faults rows) w)
