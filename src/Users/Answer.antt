-- ===== src/Users/Answer.antt =====
-- What EnsureUser answers is the user of the account.
use zuno_marketplace_api.Common.{
  Text, ◌≡◌, refl, ◌∙◌, ap, inl, inr, Bool, true, false, ◌||◌, List, [], ◌∷◌, Option, none, some,
  arith, Bool-cases, any, find?, head_or_false, text_eq, text_eq_refl, to_lower, Result, ok, err,
  Exec, attempt, require, ◌>>=◌,
}
use zuno_marketplace_api.Common.Faults.{server_call, server_call-Triple}
use zuno_marketplace_api.Common.Triple.{Triple, Post, Triple-bind, Triple-pure, Triple-fail}
use zuno_marketplace_api.Users.Model.{
  EnsureUserResult, AccountRow, Tables, Store, UserError, user_not_found, invalid_input,
  database_error,
}
use zuno_marketplace_api.Users.Repo.{
  of_account, user_of, account_of, or_not_found, select_user, get_user_id_by_account, statement,
  begin_tx, end_tx, with_tx, acquire_account_lock, locked, selected, get_user_id_by_account_tx,
  inserted_user, create_user_tx, inserted_profile, create_profile_tx, upserted,
  upsert_user_account_tx, touch, touched, touch_user_account_tx,
}
use zuno_marketplace_api.Users.Service.{
  or_error, or_read_again, create_user, found_or_created, ensure_in_tx, fast_or_slow, ensure_user,
}
use zuno_marketplace_api.Users.Mapping.{find?-map, touch-same}

module _ (acc : Text) where
  abbrev Any : Store → Type 0
  Any s = Unit

  abbrev Has : Option Text → Store → Type 0
  Has o s = account_of acc s.tables.tables ≡ o

  abbrev Answered : EnsureUserResult → Store → Type 0
  Answered r = Has (some (r.user_id))

  statement-Triple :
      {A : Type 0} (run : Tables → A × Tables) (P : Tables → Type 0) (Q : A → Tables → Type 0)
      → ((t : Tables) → P t → Q (run t).0 (run t).1)
      → Triple
          (λ s. P s.tables.tables)
          (statement run)
          (λ a s. Q a s.tables.tables)
          (λ s. P s.tables.tables)
  unfolding statement
  statement-Triple run P Q h = record {
    at = λ s p. elim (Bool-cases (head_or_false s.faults || s.tables.aborted)) [
      | inl no_ ↦ rw no_ p
      | inr yes_ ↦ rw yes_ (h s.tables.tables p)
    ];
  }

  -- What a look for the account has found.
  abbrev Looked : Result UserError Text → Store → Type 0
  Looked (ok u) = Has (some u)
  Looked (err user_not_found) = Has none
  Looked (err invalid_input) = Any
  Looked (err database_error) = Any

  look :
      (m : Exec Store UserError (Option Text))
      → ((s : Store) → Post Has Any (m s).0 (m s).1)
      → ((s : Store) → (e : UserError) → (m s).0 ≡ err e → e ≡ database_error)
      → (s : Store) → Looked ((m >>= or_not_found) s).0 ((m >>= or_not_found) s).1
  unfolding ◌>>=◌
  look m h k s = looked (m s) (h s) (k s)
    where
      looked :
          (r : Result UserError (Option Text) × Store)
          → Post Has Any r.0 r.1
          → ((e : UserError) → r.0 ≡ err e → e ≡ database_error)
          → Looked
              (((λ (t : Store). r) >>= or_not_found) s).0
              (((λ (t : Store). r) >>= or_not_found) s).1
      looked (ok none, t) p q = p
      looked (ok (some u), t) p q = p
      looked (err user_not_found, t) p q = absurd (let e = q user_not_found refl in cc)
      looked (err invalid_input, t) p q = tt
      looked (err database_error, t) p q = tt

  get-Looked :
      (s : Store) → Looked (get_user_id_by_account_tx acc s).0 (get_user_id_by_account_tx acc s).1
  unfolding get_user_id_by_account_tx
  get-Looked = look (statement (selected acc)) answered only
    where
      answered :
          (s : Store) → Post Has Any (statement (selected acc) s).0 (statement (selected acc) s).1
      answered s = elim (Bool-cases (head_or_false s.faults || s.tables.aborted)) [
        | inl no_ ↦ unfold statement in rw no_ tt
        | inr yes_ ↦ unfold statement in rw yes_ refl
      ]

      only :
          (s : Store) (e : UserError) → (statement (selected acc) s).0 ≡ err e → e ≡ database_error
      only s e h = elim (Bool-cases (head_or_false s.faults || s.tables.aborted)) [
        | inl no_ ↦ unfold statement in (let k = rw no_ at h in cc)
        | inr yes_ ↦ unfold statement in absurd (let k = rw yes_ at h in cc)
      ]

  get-Triple : Triple Any (attempt (get_user_id_by_account_tx acc)) Looked Any
  get-Triple = record { at = λ s p. get-Looked s }

  module _ (new_id address chain_id : Text) where
    row_of : Text → AccountRow
    row_of u = record {
      account_id = acc;
      user_id = u;
      address = to_lower address;
      chain_id = chain_id;
    }

    any-none :
        (rows : List AccountRow)
        → user_of (find? (of_account acc) rows) ≡ none
        → any (of_account acc) rows ≡ false
    unfolding find?
    any-none [] h = refl
    any-none (row ∷ rows) h = elim (Bool-cases (of_account acc row)) [
      | inl hit ↦ absurd (let k = rw hit at h in cc)
      | inr miss ↦ let later = any-none rows (rw miss at h) in ground (arith, miss, later)
    ]

    upsert-Triple :
        (u : Text)
        → Triple
            (Has none)
            (upsert_user_account_tx u acc address chain_id)
            (λ x. Has (some u))
            (Has none)
    unfolding upsert_user_account_tx find? row_of
    upsert-Triple u =
        statement-Triple (upserted (row_of u)) (λ t. account_of acc t ≡ none)
          (λ x t. account_of acc t ≡ some u)
          λ t h. rw (any-none t.accounts h) (unfold find? in rw (text_eq_refl acc) refl)

    again-Triple :
        (u : Text) (r : Result UserError (Unit {0}))
        → Triple (Post (λ x. Has (some u)) (Has none) r) (or_read_again acc u r) Answered Any
    again-Triple u (ok x) = Triple-pure _ _ (λ s h. h)
    again-Triple u (err e) =
        Triple-bind (attempt (get_user_id_by_account_tx acc)) _ Looked _
          (record { at = λ s p. get-Looked s }) ends
      where
        ends : (r : Result UserError Text) → Triple (Looked r) (or_error e r) Answered Any
        ends (ok other) = Triple-pure _ _ (λ s h. h)
        ends (err x) = Triple-fail e _ (λ s h. tt)

    create-Triple : Triple (Has none) (create_user new_id acc address chain_id) Answered Any
    unfolding create_user_tx create_profile_tx
    create-Triple =
        Triple-bind (create_user_tx new_id) _ (λ u. Has none) _
          (record {
            at = λ s h. weak (statement (inserted_user new_id) s) (
                (statement-Triple (inserted_user new_id) (λ t. account_of acc t ≡ none)
                    (λ u t. account_of acc t ≡ none) (λ t h'. h')).at
                  s h);
          })
          λ u.
            Triple-bind (attempt (create_profile_tx u)) _ (λ r. Has none) _
              (record {
                at = λ s h. kept (statement (inserted_profile u) s) (
                    (statement-Triple (inserted_profile u) (λ t. account_of acc t ≡ none)
                        (λ x t. account_of acc t ≡ none) (profile u)).at
                      s h);
              })
              λ r.
                Triple-bind (attempt (upsert_user_account_tx u acc address chain_id)) _
                  (Post (λ x. Has (some u)) (Has none)) _ (record { at = (upsert-Triple u).at })
                  (again-Triple u)
      where
        weak :
            (r : Result UserError Text × Store)
            → Post (λ u. Has none) (Has none) r.0 r.1
            → Post (λ u. Has none) Any r.0 r.1
        weak (ok u, s) h = h
        weak (err e, s) h = tt

        kept :
            (r : Result UserError (Unit {0}) × Store)
            → Post (λ u. Has none) (Has none) r.0 r.1
            → Has none r.1
        kept (ok u, s) h = h
        kept (err e, s) h = h

        profile :
            (u : Text) (t : Tables)
            → account_of acc t ≡ none
            → account_of acc (inserted_profile u t).1 ≡ none
        profile u t h = elim (Bool-cases (any (text_eq u) t.profiles)) [
          | inl known ↦ rw known h
          | inr fresh ↦ rw fresh h
        ]

    ensure_in_tx-Triple : Triple Any (ensure_in_tx new_id acc address chain_id) Answered Any
    unfolding ensure_in_tx acquire_account_lock
    ensure_in_tx-Triple =
        Triple-bind (acquire_account_lock acc) _ (λ u. Any) _
          (record { at = λ s p. any (statement locked s) })
          λ u. Triple-bind (attempt (get_user_id_by_account_tx acc)) _ Looked _ get-Triple found
      where
        any : (r : Result UserError (Unit {0}) × Store) → Post (λ u. Any) Any r.0 r.1
        any (ok u, s) = tt
        any (err e, s) = tt

        same :
            (u : Text) (t : Tables)
            → account_of acc t ≡ some u
            → account_of acc (touched acc (to_lower address) t).1 ≡ some u
        same u t h =
            find?-map acc (touch acc (to_lower address)) t.accounts
              (touch-same acc acc (to_lower address))
            ∙ h

        kept :
            (u : Text) (r : Result UserError (Unit {0}) × Store)
            → Post (λ x. Has (some u)) (Has (some u)) r.0 r.1
            → Has (some u) r.1
        kept u (ok x, s) h = h
        kept u (err e, s) h = h

        found :
            (r : Result UserError Text)
            → Triple (Looked r) (found_or_created new_id acc address chain_id r) Answered Any
        found (ok u) =
            Triple-bind (attempt (touch_user_account_tx acc address)) _ (λ r. Has (some u)) _
              (record {
                at = λ s h.
                    unfold touch_user_account_tx in
                    kept u (statement (touched acc (to_lower address)) s) (
                      (statement-Triple (touched acc (to_lower address))
                          (λ t. account_of acc t ≡ some u) (λ x t. account_of acc t ≡ some u)
                          (same u)).at
                        s h);
              })
              λ r. Triple-pure _ _ (λ s h. h)
        found (err user_not_found) = create-Triple
        found (err invalid_input) = Triple-fail _ _ (λ s h. tt)
        found (err database_error) = Triple-fail _ _ (λ s h. tt)

  with_tx-Triple :
      (body : Exec Store UserError EnsureUserResult)
      → Triple Any body Answered Any
      → Triple Any (with_tx body) Answered Any
  unfolding with_tx begin_tx
  with_tx-Triple body h =
      Triple-bind _ _ (λ u. Any) _
        (server_call-Triple database_error begin_tx (λ d. Unit) (λ u d. Unit) (λ d. Unit)
          (λ d p. tt) (λ d p. tt))
        λ u. record { at = λ s p. ended s.tables.tables (body s) (h.at s p) }
    where
      ended :
          (before : Tables) (r : Result UserError EnsureUserResult × Store)
          → Post Answered Any r.0 r.1
          → Post Answered Any (end_tx before r).0 (end_tx before r).1
      ended before (err e, s) q = tt
      ended before (ok a, s) q = elim (Bool-cases (head_or_false s.faults || s.tables.aborted)) [
        | inl no_ ↦ rw no_ tt
        | inr yes_ ↦ rw yes_ q
      ]

  require-Any : (b : Bool) (e : UserError) → Triple Any (require b e) (λ u. Any) Any
  require-Any true e = Triple-pure tt _ (λ s p. tt)
  require-Any false e = Triple-fail e _ (λ s p. tt)

  fast-Looked :
      (s : Store) → Looked (get_user_id_by_account acc s).0 (get_user_id_by_account acc s).1
  unfolding get_user_id_by_account
  fast-Looked = look (server_call database_error (select_user acc)) answered only
    where
      answered :
          (s : Store)
          → Post Has Any
              (server_call database_error (select_user acc) s).0
              (server_call database_error (select_user acc) s).1
      answered s = elim (Bool-cases (head_or_false s.faults)) [
        | inl no_ ↦ unfold server_call select_user in rw no_ tt
        | inr yes_ ↦ unfold server_call select_user in rw yes_ refl
      ]

      only :
          (s : Store) (e : UserError)
          → (server_call database_error (select_user acc) s).0 ≡ err e
          → e ≡ database_error
      only s e h = elim (Bool-cases (head_or_false s.faults)) [
        | inl no_ ↦ unfold server_call select_user in (let k = rw no_ at h in cc)
        | inr yes_ ↦ unfold server_call select_user in absurd (let k = rw yes_ at h in cc)
      ]

  module _ (new_id address chain_id : Text) where
    ensure_user-Triple : Triple Any (ensure_user new_id acc address chain_id) Answered Any
    unfolding ensure_user
    ensure_user-Triple =
        Triple-bind _ _ (λ u. Any) _ (require-Any _ _)
          λ u.
            Triple-bind _ _ (λ u. Any) _ (require-Any _ _)
              λ u'.
                Triple-bind _ _ (λ u. Any) _ (require-Any _ _)
                  λ u''.
                    Triple-bind (attempt (get_user_id_by_account acc)) _ Looked _
                      (record { at = λ s p. fast-Looked s }) chosen
      where
        chosen :
            (r : Result UserError Text)
            → Triple (Looked r) (fast_or_slow new_id acc (to_lower address) chain_id r) Answered Any
        chosen (ok u) = Triple-pure _ _ (λ s h. h)
        chosen (err user_not_found) = record {
          at = λ s h.
              (with_tx-Triple _ (ensure_in_tx-Triple new_id (to_lower address) chain_id)).at s tt;
        }
        chosen (err invalid_input) = Triple-fail _ _ (λ s h. tt)
        chosen (err database_error) = Triple-fail _ _ (λ s h. tt)

-- An EnsureUser that succeeds answers with the user that the account then has, whichever way it took.
pub ensure_user-answers :
    (new_id acc address chain_id : Text) (s : Store) (r : EnsureUserResult)
    → (ensure_user new_id acc address chain_id s).0 ≡ ok r
    → account_of acc (ensure_user new_id acc address chain_id s).1.tables.tables ≡ some (r.user_id)
ensure_user-answers new_id acc address chain_id s r h =
    answer (ensure_user new_id acc address chain_id s) h
      ((ensure_user-Triple acc new_id address chain_id).at s tt)
  where
    answer :
        (o : Result UserError EnsureUserResult × Store)
        → o.0 ≡ ok r
        → Post (Answered acc) (Any acc) o.0 o.1
        → account_of acc o.1.tables.tables ≡ some (r.user_id)
    answer (ok x, t) e p =
        let k : x ≡ r = cc in p ∙ ap (λ (y : EnsureUserResult). some (y.user_id)) k
    answer (err x, t) e p = absurd (cc)
