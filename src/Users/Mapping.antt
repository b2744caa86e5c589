-- ===== src/Users/Mapping.antt =====
-- The user of an account: the one that EnsureUser answers, from then on.
use zuno_marketplace_api.Common.{
  Text, ◌≡◌, refl, sym, ◌∙◌, ap, inl, inr, true, false, ◌||◌, List, [], ◌∷◌, map, Option, none,
  some, arith, Bool-cases, any, find?, head_or_false, text_eq, text_eq_iff, to_lower, Result, ok,
  err, Exec,
}
use zuno_marketplace_api.Common.Faults.{server_call-Keeps}
use zuno_marketplace_api.Common.Keeps.{
  Keeps, Keeps-pure, Keeps-fail, Keeps-bind, Keeps-attempt, Keeps-require,
}
use zuno_marketplace_api.Users.Model.{
  AccountRow, Tables, Store, UserError, user_not_found, invalid_input, database_error,
}
use zuno_marketplace_api.Users.Repo.{
  of_account, user_of, account_of, or_not_found, select_user, get_user_id_by_account, statement,
  begin_tx, end_tx, in_tx, with_tx, acquire_account_lock, locked, selected,
  get_user_id_by_account_tx, inserted_user, create_user_tx, inserted_profile, create_profile_tx,
  seen, upserted, upsert_user_account_tx, touch, touched, touch_user_account_tx,
}
use zuno_marketplace_api.Users.Service.{
  or_error, or_read_again, create_user, found_or_created, ensure_in_tx, fast_or_slow, ensure_user,
}

module _ (acc : Text) where
  -- Changes that leave the account and the user of each row.
  pub find?-map :
      (f : AccountRow → AccountRow) (rows : List AccountRow)
      → ((row : AccountRow)
          → (of_account acc (f row) ≡ of_account acc row) × ((f row).user_id ≡ row.user_id))
      → user_of (find? (of_account acc) (map f rows)) ≡ user_of (find? (of_account acc) rows)
  unfolding find?
  find?-map f [] h = refl
  find?-map f (row ∷ rows) h =
      let later = find?-map f rows h in
      elim (Bool-cases (of_account acc row)) [
        | inl hit ↦ rw ((h row).0, hit) (ap some (h row).1)
        | inr miss ↦ rw ((h row).0, miss) later
      ]

  pub touch-same :
      (id address : Text) (row : AccountRow)
      → (of_account acc (touch id address row) ≡ of_account acc row)
        × ((touch id address row).user_id ≡ row.user_id)
  touch-same id address row = elim (Bool-cases (of_account id row)) [
    | inl hit ↦ rw hit (refl, refl)
    | inr miss ↦ rw miss (refl, refl)
  ]

  seen-same :
      (id address chain_id : Text) (row : AccountRow)
      → (of_account acc (seen id address chain_id row) ≡ of_account acc row)
        × ((seen id address chain_id row).user_id ≡ row.user_id)
  seen-same id address chain_id row = elim (Bool-cases (of_account id row)) [
    | inl hit ↦ rw hit (refl, refl)
    | inr miss ↦ rw miss (refl, refl)
  ]

  module _ (user : Text) where
    abbrev pub Maps : Tables → Type 0
    Maps t = account_of acc t ≡ some user

    abbrev OnData : (Tables → Type 0) → Store → Type 0
    OnData P s = P s.tables.tables

    any-some :
        (rows : List AccountRow)
        → user_of (find? (of_account acc) rows) ≡ some user
        → any (of_account acc) rows ≡ true
    unfolding find?
    any-some [] h = absurd (cc)
    any-some (row ∷ rows) h = elim (Bool-cases (of_account acc row)) [
      | inl hit ↦ rw hit refl
      | inr miss ↦ let later = any-some rows (rw miss at h) in ground (arith, miss, later)
    ]

    upserted-Maps : (row : AccountRow) (t : Tables) → Maps t → Maps (upserted row t).1
    upserted-Maps row t h = elim (Bool-cases (any (of_account row.account_id) t.accounts)) [
      | inl known ↦ rw known (
          find?-map (seen row.account_id row.address row.chain_id) t.accounts
            (seen-same row.account_id row.address row.chain_id)
          ∙ h)
      | inr fresh ↦ rw fresh (elim (Bool-cases (text_eq row.account_id acc)) [
        | inl same ↦ absurd (
            let e = any-some t.accounts h in
            let f : any (of_account acc) t.accounts ≡ false =
              ap (λ a. any (of_account a) t.accounts) (sym ((text_eq_iff _ _).0 same)) ∙ fresh in
            cc)
        | inr other ↦ unfold find? in rw other h
      ])
    ]

    statement-Keeps :
        {A : Type 0} (run : Tables → A × Tables)
        → ((t : Tables) → Maps t → Maps (run t).1)
        → Keeps (OnData Maps) (statement run)
    unfolding statement
    statement-Keeps run h = record {
      at = λ s p. elim (Bool-cases (head_or_false s.faults || s.tables.aborted)) [
        | inl no_ ↦ rw no_ p
        | inr yes_ ↦ rw yes_ (h s.tables.tables p)
      ];
    }

    or_not_found-Keeps : (o : Option Text) → Keeps (OnData Maps) (or_not_found o)
    or_not_found-Keeps none = Keeps-fail _
    or_not_found-Keeps (some u) = Keeps-pure u

    get_tx-Keeps : Keeps (OnData Maps) (get_user_id_by_account_tx acc)
    unfolding get_user_id_by_account_tx
    get_tx-Keeps = Keeps-bind _ _ (statement-Keeps (selected acc) (λ t h. h)) or_not_found-Keeps

    get_any_tx-Keeps : (id : Text) → Keeps (OnData Maps) (get_user_id_by_account_tx id)
    unfolding get_user_id_by_account_tx
    get_any_tx-Keeps id =
        Keeps-bind _ _ (statement-Keeps (selected id) (λ t h. h)) or_not_found-Keeps

    upsert-Keeps :
        (u id address chain_id : Text)
        → Keeps (OnData Maps) (upsert_user_account_tx u id address chain_id)
    unfolding upsert_user_account_tx
    upsert-Keeps u id address chain_id = statement-Keeps (upserted _) (upserted-Maps _)

    touch-Keeps : (id address : Text) → Keeps (OnData Maps) (touch_user_account_tx id address)
    unfolding touch_user_account_tx
    touch-Keeps id address = statement-Keeps (touched id (to_lower address)) (λ t h.
        find?-map (touch id (to_lower address)) t.accounts (touch-same id (to_lower address)) ∙ h)

    inserts-Keeps :
        (id : Text)
        → Keeps (OnData Maps) (create_user_tx id) × Keeps (OnData Maps) (create_profile_tx id)
    unfolding create_user_tx create_profile_tx
    inserts-Keeps id = (
      statement-Keeps (inserted_user id) (λ t h. h),
      statement-Keeps (inserted_profile id) (λ t h. profile t h),
    )
      where
        profile : (t : Tables) → Maps t → Maps (inserted_profile id t).1
        profile t h = elim (Bool-cases (any (text_eq id) t.profiles)) [
          | inl known ↦ rw known h
          | inr fresh ↦ rw fresh h
        ]

    lock-Keeps : (id : Text) → Keeps (OnData Maps) (acquire_account_lock id)
    unfolding acquire_account_lock
    lock-Keeps id = statement-Keeps locked (λ t h. h)

    in_tx-Keeps :
        {A : Type 0} (body : Exec Store UserError A)
        → Keeps (OnData Maps) body
        → Keeps (OnData Maps) (in_tx body)
    in_tx-Keeps {A} body k = record { at = λ s p. ended s.tables.tables (body s) p (k.at s p) }
      where
        ended :
            (before : Tables) (r : Result UserError A × Store)
            → Maps before
            → OnData Maps r.1
            → OnData Maps (end_tx before r).1
        ended before (err e, s) p q = p
        ended before (ok a, s) p q =
            elim (Bool-cases (head_or_false s.faults || s.tables.aborted)) [
              | inl no_ ↦ rw no_ p
              | inr yes_ ↦ rw yes_ q
            ]

    with_tx-Keeps :
        {A : Type 0} (body : Exec Store UserError A)
        → Keeps (OnData Maps) body
        → Keeps (OnData Maps) (with_tx body)
    unfolding with_tx begin_tx
    with_tx-Keeps body k =
        Keeps-bind _ _ (server_call-Keeps database_error begin_tx (λ d. Maps d.tables) (λ d p. p))
          λ u. in_tx-Keeps body k

    module _ (new_id account_id address chain_id : Text) where
      create-Keeps : Keeps (OnData Maps) (create_user new_id account_id address chain_id)
      create-Keeps = Keeps-bind _ _ ((inserts-Keeps new_id).0) λ u.
          Keeps-bind _ _ (Keeps-attempt _ ((inserts-Keeps u).1)) λ r.
            Keeps-bind _ _ (Keeps-attempt _ (upsert-Keeps u account_id address chain_id))
              λ outcome. again u outcome
        where
          other_or_error :
              (e : UserError) (r : Result UserError Text) → Keeps (OnData Maps) (or_error e r)
          other_or_error e (ok other) = Keeps-pure _
          other_or_error e (err x) = Keeps-fail e

          again :
              (u : Text) (r : Result UserError (Unit {0}))
              → Keeps (OnData Maps) (or_read_again account_id u r)
          again u (ok x) = Keeps-pure _
          again u (err e) =
              Keeps-bind _ _ (Keeps-attempt _ (get_any_tx-Keeps account_id)) (other_or_error e)

      ensure_in_tx-Keeps : Keeps (OnData Maps) (ensure_in_tx new_id account_id address chain_id)
      unfolding ensure_in_tx
      ensure_in_tx-Keeps =
          Keeps-bind _ _ (lock-Keeps account_id)
            λ u. Keeps-bind _ _ (Keeps-attempt _ (get_any_tx-Keeps account_id)) found
        where
          found :
              (r : Result UserError Text)
              → Keeps (OnData Maps) (found_or_created new_id account_id address chain_id r)
          found (ok u) =
              Keeps-bind _ _ (Keeps-attempt _ (touch-Keeps account_id address)) λ r. Keeps-pure _
          found (err user_not_found) = create-Keeps
          found (err invalid_input) = Keeps-fail _
          found (err database_error) = Keeps-fail _

    module _ (new_id account_id address chain_id : Text) where
      ensure_user-Keeps : Keeps (OnData Maps) (ensure_user new_id account_id address chain_id)
      unfolding ensure_user get_user_id_by_account select_user
      ensure_user-Keeps = Keeps-bind _ _ (Keeps-require _ _) λ u.
          Keeps-bind _ _ (Keeps-require _ _) λ u'. Keeps-bind _ _ (Keeps-require _ _) λ u''.
            Keeps-bind _ _
              (Keeps-attempt _ (
                Keeps-bind _ _
                  (server_call-Keeps database_error (select_user account_id) (λ d. Maps d.tables)
                    (λ d p. p))
                  or_not_found-Keeps))
              chosen
        where
          chosen :
              (r : Result UserError Text)
              → Keeps (OnData Maps) (fast_or_slow new_id account_id (to_lower address) chain_id r)
          chosen (ok u) = Keeps-pure _
          chosen (err user_not_found) =
              with_tx-Keeps _ (ensure_in_tx-Keeps new_id account_id (to_lower address) chain_id)
          chosen (err invalid_input) = Keeps-fail _
          chosen (err database_error) = Keeps-fail _

-- The user of an account stays: a call of EnsureUser, for this account or another and whatever
-- fails, leaves the account with the user it has.
pub ensure_user-keeps_user :
    (acc user new_id account_id address chain_id : Text) (s : Store)
    → account_of acc s.tables.tables ≡ some user
    → account_of acc (ensure_user new_id account_id address chain_id s).1.tables.tables ≡ some user
ensure_user-keeps_user acc user new_id account_id address chain_id s h =
    (ensure_user-Keeps acc user new_id account_id address chain_id).at s h
