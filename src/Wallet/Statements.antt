-- ===== src/Wallet/Statements.antt =====
-- Triples for the methods of the wallet repository.
use mathlib.Core.List.{tail}
use mathlib.Core.Bool.{false≢true}
use zuno_marketplace_api.Common.{
  ℕ, Text, ◌≡◌, refl, sym, ◌∙◌, subst, ◌⊎◌, inl, inr, Bool, true, false, not, List, map, Memᴰ,
  Option, none, some, arith, Bool-cases, find?, find?-some, find?-none, any, any-false, text_eq,
  text_eq_iff, is_empty, Result, ok, err, Exec, ◌>>=◌, ◌&&◌,
}
use zuno_marketplace_api.Common.Triple.{Post, Triple, Triple-bind, Triple-pure}
use zuno_marketplace_api.Wallet.Model.{WalletLink, Row, WalletError, Tx, statement_failed}
use zuno_marketplace_api.Wallet.Repo.{
  refused, lock, account_key, address_key, settle, demote_row, statement, select, scan,
  acquire_account_lock, acquire_address_lock, insert_row, new_row, update_wallet_meta_tx,
  update_wallet_address_tx, demote_other_primaries_tx, insert_wallet_tx,
}
use zuno_marketplace_api.Wallet.Service.{optional}
use zuno_marketplace_api.Wallet.Table.{WellFormed}
use zuno_marketplace_api.Wallet.Writes.{
  IsFree, HasNoAddress, update_row-WellFormed, insert_row-WellFormed, change_meta-Fits,
  change_address-Fits, demote-IsFree, demote-WellFormed,
}

-- A predicate of the rows, as one of the transaction.
abbrev pub OnRows : (List Row → Type 0) → Tx → Type 0
OnRows P tx = P tx.rows

module _ {A : Type 0} (run : List Row → Option (A × List Row)) (tx : Tx) where
  settle_cases :
      (o : Option (A × List Row))
      → ((settle tx o
          ≡ (err statement_failed, record tx { aborted = true; faults = tail tx.faults })))
        ⊎ ((a : A) × (rows : List Row) × (o ≡ some (a, rows))
            × (settle tx o ≡ (ok a, record tx { rows = rows; faults = tail tx.faults })))
  unfolding settle
  settle_cases none = inl refl
  settle_cases (some (a, rows)) = inr (a, rows, refl, refl)

  -- A statement fails and leaves the rows, or runs on a transaction that has not failed.
  pub statement_cases :
      (statement run tx
        ≡ (err statement_failed, record tx { aborted = true; faults = tail tx.faults }))
      ⊎ ((a : A) × (rows : List Row) × (refused tx ≡ false)
          × (run tx.rows ≡ some (a, rows))
          × (statement run tx ≡ (ok a, record tx { rows = rows; faults = tail tx.faults })))
  unfolding statement
  statement_cases = elim (Bool-cases (refused tx)) [
    | inl no_ ↦ inl (rw no_ (unfold settle in refl))
    | inr yes_ ↦ elim (settle_cases (run tx.rows)) [
      | inl e ↦ inl (rw yes_ e)
      | inr (a, rows, o, e) ↦ inr (a, rows, yes_, o, rw yes_ e)
    ]
  ]

module _ {A : Type 0} (P R : List Row → Type 0) (run : List Row → Option (A × List Row))
    (Q : A → List Row → Type 0) where
  pub statement_triple :
      ((rows : List Row) → P rows → R rows)
      → ((rows : List Row) (a : A) (rows' : List Row)
          → P rows
          → run rows ≡ some (a, rows')
          → Q a rows')
      → Triple (OnRows P) (statement run) (λ a. OnRows (Q a)) (OnRows R)
  statement_triple weak step = record {
    at = λ tx p. elim (statement_cases run tx) [
      | inl e ↦ rw (e, Post) (weak tx.rows p)
      | inr (a, rows, _, o, e) ↦ rw (e, Post) (step tx.rows a rows p o)
    ];
  }

abbrev pub Found : (Row → Bool) → Option WalletLink → List Row → Type 0
Found p none rows = (y : Row) → Memᴰ y rows → p y ≡ false
Found p (some link) rows = (y : Row) × Memᴰ y rows × (p y ≡ true) × (link ≡ y.link)

module _ (P : List Row → Type 0) (p : Row → Bool) where
  -- The claim about `optional (select p)`, of the outcome of its statement.
  abbrev AfterSelect : Result WalletError (Option Row) × Tx → Type 0
  AfterSelect out =
      let m : Exec Tx WalletError WalletLink = (λ _. out) >>= scan in
      let last : Result WalletError (Option WalletLink) × Tx = optional m out.1 in
      Post (λ l s. P s.rows × Found p l s.rows) (OnRows P) last.0 last.1

  scanned : (o : Option Row) (tx : Tx) → P tx.rows → find? p tx.rows ≡ o → AfterSelect (ok o, tx)
  unfolding optional ◌>>=◌
  scanned none tx h e = (h, λ y m. find?-none p tx.rows e m)
  scanned (some y) tx h e = let (m, q) = find?-some p tx.rows e in (h, (y, m, q, refl))

  pub optional-select_triple :
      Triple (OnRows P) (optional (select p)) (λ o s. P s.rows × Found p o s.rows) (OnRows P)
  unfolding optional select ◌>>=◌
  optional-select_triple = record {
    at = λ tx h. elim (statement_cases (λ rows. some (find? p rows, rows)) tx) [
      | inl e ↦ subst AfterSelect (sym e) h
      | inr (o, rows, _, q, e) ↦ subst AfterSelect (sym e) (
          scanned o (record tx { rows = rows; faults = tail tx.faults }) (subst P (ground arith) h)
            (ground arith))
    ];
  }

-- Taking a lock reads and writes no row.
module _ (P : List Row → Type 0) where
  lock_triple : (key : Text) → Triple (OnRows P) (lock key) (λ _. OnRows P) (OnRows P)
  unfolding lock
  lock_triple key =
      Triple-bind _ _ (λ _. OnRows P) (λ _. OnRows P)
        (statement_triple P P (λ rows. some (tt, rows)) (λ _. P) (λ _ h. h)
          (λ rows a rows' h e. subst P (ground arith) h))
        λ _. record { at = λ tx h. h }

  pub acquire_account_lock_triple :
      (account_id : Text)
      → Triple (OnRows P) (acquire_account_lock account_id) (λ _. OnRows P) (OnRows P)
  unfolding acquire_account_lock
  acquire_account_lock_triple account_id = lock_triple (account_key account_id)

  pub acquire_address_lock_triple :
      (chain_id address : Text)
      → Triple (OnRows P) (acquire_address_lock chain_id address) (λ _. OnRows P) (OnRows P)
  unfolding acquire_address_lock
  acquire_address_lock_triple chain_id address = lock_triple (address_key chain_id address)

-- A scanned row says nothing more of the table.
pub scan_triple :
    (P R : List Row → Type 0) (o : Option Row)
    → ((rows : List Row) → P rows → R rows)
    → Triple (OnRows P) (scan o) (λ _. OnRows P) (OnRows R)
scan_triple P R none h = record { at = λ tx p. h tx.rows p }
scan_triple P R (some row) h = record { at = λ tx p. p }

pub select_triple :
    (P : List Row → Type 0) (p : Row → Bool)
    → Triple (OnRows P) (select p) (λ _. OnRows P) (OnRows P)
unfolding select
select_triple P p =
    Triple-bind _ _ (λ _. OnRows P) (λ _. OnRows P)
      (statement_triple P P (λ rows. some (find? p rows, rows)) (λ _. P) (λ _ h. h)
        (λ rows a rows' h e. subst P (ground arith) h))
      λ o. scan_triple P P o (λ _ h. h)

module _ (now : ℕ) where
  abbrev pub Keeps : {A : Type 0} → Exec Tx WalletError A → Type 0
  Keeps m = Triple (OnRows WellFormed) m (λ _. OnRows WellFormed) (OnRows WellFormed)

  pub update_wallet_meta_tx-Keeps :
      (id : Text) (p : Option Bool) (v l : Option ℕ) (t : Option Text)
      → Keeps (update_wallet_meta_tx now id p v l t)
  unfolding update_wallet_meta_tx
  update_wallet_meta_tx-Keeps id p v l t =
      Triple-bind _ _ _ _
        (statement_triple WellFormed WellFormed _ (λ _. WellFormed) (λ _ h. h)
          (λ rows a rows' w e.
            update_row-WellFormed now id rows w _
              (λ y m _. (refl, change_meta-Fits now id rows w p v l t y m)) e))
        λ o. scan_triple WellFormed WellFormed o (λ _ h. h)

  pub update_wallet_address_tx_keeps :
      (id chain_id address : Text)
      → Triple
          (OnRows (λ rows. WellFormed rows × HasNoAddress chain_id address rows))
          (update_wallet_address_tx now id chain_id address)
          (λ _. OnRows WellFormed)
          (OnRows WellFormed)
  unfolding update_wallet_address_tx
  update_wallet_address_tx_keeps id chain_id address =
      Triple-bind _ _ _ _
        (statement_triple _ WellFormed _ (λ _. WellFormed) (λ _ h. h.0)
          (λ rows a rows' h e.
            update_row-WellFormed now id rows h.0 _
              (λ y m _. (refl, change_address-Fits now id rows h.0 chain_id address y m h.1)) e))
        λ o. scan_triple WellFormed WellFormed o (λ _ h. h)

  -- A demotion keeps any claim about the rows that demoting single rows keeps.
  pub demote_triple :
      (P : List Row → Type 0) (user_id chain_id keep_id : Text)
      → ((spared : Row → Bool) (rows : List Row)
          → P rows
          → P (map (demote_row now user_id chain_id spared) rows))
      → Triple
          (OnRows P)
          (demote_other_primaries_tx now user_id chain_id keep_id)
          (λ _. OnRows P)
          (OnRows P)
  unfolding demote_other_primaries_tx
  demote_triple P user_id chain_id keep_id keeps =
      statement_triple P P _ (λ _. P) (λ _ h. h)
        (λ rows a rows' h e.
          subst P (ground arith)
            (keeps (λ row. not (is_empty keep_id) && text_eq row.id keep_id) rows h))

  pub demote_other_primaries_tx-Keeps :
      (user_id chain_id keep_id : Text)
      → Keeps (demote_other_primaries_tx now user_id chain_id keep_id)
  demote_other_primaries_tx-Keeps user_id chain_id keep_id =
      demote_triple WellFormed user_id chain_id keep_id
        (λ spared rows. demote-WellFormed now user_id chain_id spared rows)

  -- A well-formed table in which the account and the address are free.
  abbrev pub HasRoom : Text → Text → Text → List Row → Type 0
  HasRoom account_id chain_id address rows =
      WellFormed rows × IsFree account_id chain_id address rows

  pub demote_other_primaries_tx_room :
      (account_id chain address user_id chain_id keep_id : Text)
      → Triple
          (OnRows (HasRoom account_id chain address))
          (demote_other_primaries_tx now user_id chain_id keep_id)
          (λ _. OnRows (HasRoom account_id chain address))
          (OnRows (HasRoom account_id chain address))
  demote_other_primaries_tx_room account_id chain address user_id chain_id keep_id =
      demote_triple (HasRoom account_id chain address) user_id chain_id keep_id (λ spared rows h. (
        demote-WellFormed now user_id chain_id spared rows h.0,
        demote-IsFree now user_id chain_id spared rows account_id chain address h.1,
      ))

  insert_row_ok :
      (row : Row) (rows : List Row) (r : Row) (rows' : List Row)
      → HasRoom row.account_id row.chain_id row.address rows
      → insert_row now row rows ≡ some (r, rows')
      → WellFormed rows'
  unfolding insert_row
  insert_row_ok row rows r rows' (w, free) e =
      let taken = any (λ (other : Row). text_eq other.id row.id) rows in
      let fresh : taken ≡ false = ground arith in
      subst WellFormed (ground arith) (
        insert_row-WellFormed now row rows w
          (record {
            account = λ y m q. absurd (free.no_account y m (sym q));
            address = λ y m d q. absurd (free.no_address y m (sym d) (sym q));
          })
          (λ y m q. false≢true (sym (any-false _ rows fresh m) ∙ (text_eq_iff y.id row.id).1 q)))

  pub insert_wallet_tx_keeps :
      (new_id : Text) (link : WalletLink)
      → Triple
          (OnRows (HasRoom link.account_id link.chain_id link.address))
          (insert_wallet_tx now new_id link)
          (λ _. OnRows WellFormed)
          (OnRows WellFormed)
  unfolding insert_wallet_tx
  insert_wallet_tx_keeps new_id link =
      Triple-bind _ _ _ _
        (statement_triple _ WellFormed _ (λ _. WellFormed) (λ _ h. h.0)
          (λ rows a rows' h e. insert_row_ok (new_row now new_id link) rows a rows' h e))
        λ row. Triple-pure _ _ (λ _ h. h)
