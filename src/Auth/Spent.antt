-- ===== src/Auth/Spent.antt =====
-- Nonces once issued and once used: two claims that every method keeps, and what they say of
-- consuming a nonce.
use mathlib.Core.List.Memᴰ
use mathlib.Core.Bool.{false≢true}
use zuno_marketplace_api.Common.{
  ℕ, Text, ◌≡◌, ◌≢◌, refl, sym, ◌∙◌, ap, subst, ◌⊎◌, inl, inr, Bool, true, false, List, [], ◌∷◌,
  map, Memᴰ, arith, any, any-false, any-true, keep, keep_none, mem-keep, length, ◌==◌, text_eq_iff,
  Result, ok, bind-eq-ok,
}
use zuno_marketplace_api.Auth.Model.{AuthError, NonceRow, Session, Store}
use zuno_marketplace_api.Auth.Repo.{
  has_value, is_usable, consume, use_rows, call, delete_key, forget_nonce, try_use_nonce,
}
use zuno_marketplace_api.Auth.Calls.{call-eq-ok}
use zuno_marketplace_api.Auth.Tables.{Stable}

-- The primary key: one row for a value.
pub record OneRow (rows : List NonceRow) : Type 0 where
  pub same : (r r' : NonceRow) → Memᴰ r rows → Memᴰ r' rows → r.value ≡ r'.value → r ≡ r'

-- The nonce is in the table, and every row of it is used.
pub record IsSpent (value : Text) (rows : List NonceRow) : Type 0 where
  pub known : any (has_value value) rows ≡ true
  pub used : (row : NonceRow) → Memᴰ row rows → row.value ≡ value → row.used ≡ true

module _ (row : NonceRow) (rows : List NonceRow)
    (fresh : any (has_value row.value) rows ≡ false) where
  fresh_value : (r : NonceRow) → Memᴰ r rows → r.value ≢ row.value
  fresh_value r m e =
      false≢true
        (sym (any-false (has_value row.value) rows fresh m) ∙ (text_eq_iff r.value row.value).1 e)

  OneRow-insert : OneRow rows → OneRow (row ∷ rows)
  OneRow-insert o = record {
    same = λ r r' m m' e. pair r r' (Memᴰ.cases_cons m) (Memᴰ.cases_cons m') e;
  }
    where
      pair :
          (r r' : NonceRow)
          → (r ≡ row) ⊎ Memᴰ r rows
          → (r' ≡ row) ⊎ Memᴰ r' rows
          → r.value ≡ r'.value
          → r ≡ r'
      pair r r' (inl q) (inl q') e = q ∙ sym q'
      pair r r' (inl q) (inr m') e =
          absurd (fresh_value r' m' (sym e ∙ ap (λ (n : NonceRow). n.value) q))
      pair r r' (inr m) (inl q') e =
          absurd (fresh_value r m (e ∙ ap (λ (n : NonceRow). n.value) q'))
      pair r r' (inr m) (inr m') e = o.same r r' m m' e

  IsSpent-insert : (value : Text) → IsSpent value rows → IsSpent value (row ∷ rows)
  IsSpent-insert value s = record {
    known = ground (arith, s.known);
    used = λ r m e. still r (Memᴰ.cases_cons m) e;
  }
    where
      still : (r : NonceRow) → (r ≡ row) ⊎ Memᴰ r rows → r.value ≡ value → r.used ≡ true
      still r (inl q) e =
          let same : row.value ≡ value = ap (λ (n : NonceRow). n.value) (sym q) ∙ e in
          absurd (
            false≢true
              (sym (subst (λ (v : Text). any (has_value v) rows ≡ false) same fresh) ∙ s.known))
      still r (inr m) e = s.used r m e

module _ (now : ℕ) (p : NonceRow → Bool) where
  consume_value : (r : NonceRow) → (consume now p r).value ≡ r.value
  consume_value r = ground arith

  consume_used : (r : NonceRow) → r.used ≡ true → (consume now p r).used ≡ true
  consume_used r e = ground arith

  any-consume :
      (value : Text) (rows : List NonceRow)
      → any (has_value value) rows ≡ true
      → any (has_value value) (map (consume now p) rows) ≡ true
  any-consume value [] h = h
  any-consume value (x ∷ rows) h = rw (consume_value x) (ground (arith, any-consume value rows))

  -- A row after the update, and the row that it was.
  pub consumed_from :
      (rows : List NonceRow) (r : NonceRow)
      → Memᴰ r (map (consume now p) rows)
      → (y : NonceRow) × Memᴰ y rows × (consume now p y ≡ r) × (y.value ≡ r.value)
  consumed_from rows r m =
      let (y, k, q) = Memᴰ.of_map (consume now p) rows m in
      (y, k, q, sym (consume_value y) ∙ ap (λ (n : NonceRow). n.value) q)

  OneRow-consume : (rows : List NonceRow) → OneRow rows → OneRow (map (consume now p) rows)
  OneRow-consume rows o = record {
    same = λ r r' m m' e.
        let (y, k, q, v) = consumed_from rows r m in
        let (y', k', q', v') = consumed_from rows r' m' in
        sym q ∙ ap (consume now p) (o.same y y' k k' (v ∙ e ∙ sym v')) ∙ q';
  }

  IsSpent-consume :
      (value : Text) (rows : List NonceRow)
      → IsSpent value rows
      → IsSpent value (map (consume now p) rows)
  IsSpent-consume value rows s = record {
    known = any-consume value rows s.known;
    used = λ r m e.
        let (y, k, q, v) = consumed_from rows r m in
        subst (λ (n : NonceRow). n.used ≡ true) q (consume_used y (s.used y k (v ∙ e)));
  }

-- A claim about the nonces alone.
abbrev pub Nonces : (List NonceRow → Type 0) → List NonceRow → List Session → Type 0
Nonces P rows sessions = P rows

pub OneRow-Stable : Stable (Nonces OneRow)
OneRow-Stable = record {
  inserted = λ row rows sessions fresh fits. OneRow-insert row rows fresh;
  consumed = λ now p rows sessions. OneRow-consume now p rows;
  opened = λ session rows sessions fresh o. o;
  touched = λ now id rows sessions o. o;
  revoked = λ now id rows sessions o. o;
}

pub IsSpent-Stable : (value : Text) → Stable (Nonces (IsSpent value))
IsSpent-Stable value = record {
  inserted = λ row rows sessions fresh fits s. IsSpent-insert row rows fresh value s;
  consumed = λ now p rows sessions s. IsSpent-consume now p value rows s;
  opened = λ session rows sessions fresh s. s;
  touched = λ now id rows sessions s. s;
  revoked = λ now id rows sessions s. s;
}

-- Dropping the cached key leaves the table.
forget_nonce-nonces :
    (b : Bool) (v : Text) (store : Store) → (forget_nonce b v store).1.nonces ≡ store.nonces
unfolding forget_nonce call delete_key
forget_nonce-nonces false v store = refl
forget_nonce-nonces true v store = ground arith

module _ (now : ℕ) (value account_id chain_id domain : Text) (store : Store) where
  abbrev usable : NonceRow → Bool
  usable = is_usable now value account_id chain_id domain

  -- A successful use has updated exactly one row, and left the rows so.
  pub try_use_nonce-eq-ok :
      {success : Bool}
      → (try_use_nonce now value account_id chain_id domain store).0 ≡ ok success
      → ((length (keep usable store.nonces) == 1) ≡ success)
        × ((try_use_nonce now value account_id chain_id domain store).1.nonces
            ≡ map (consume now usable) store.nonces)
  unfolding try_use_nonce
  try_use_nonce-eq-ok {success} h =
      let (b, hb, rest, left) = bind-eq-ok (call (use_rows now usable)) _ store h in
      let (ran, same) = call-eq-ok (use_rows now usable) store hb in
      let (u, hu, answer, left') = bind-eq-ok (forget_nonce b value) _ _ rest in
      let one : (length (keep usable store.nonces) == 1) ≡ b =
        unfold use_rows in ground (arith, ran) in
      let rows : (call (use_rows now usable) store).1.nonces
          ≡ map (consume now usable) store.nonces =
        ap (λ (r : Result AuthError Bool × Store). r.1.nonces) same ∙ (unfold use_rows in refl) in
      (
        ground (arith, one, answer),
        ap (λ (t : Store). t.nonces) (left ∙ left') ∙ (forget_nonce-nonces b value _ ∙ rows),
      )

  -- A spent nonce is never consumed again, by whatever account, chain and domain.
  pub try_use_nonce_refused :
      IsSpent value store.nonces
      → (try_use_nonce now value account_id chain_id domain store).0 ≢ ok true
  try_use_nonce_refused s h =
      let none_left : keep usable store.nonces ≡ [] =
        keep_none usable store.nonces
          λ r m. ground (arith, s.used r m, text_eq_iff r.value value) in
      let (one, rows) = try_use_nonce-eq-ok h in
      false≢true
        (sym (subst (λ (l : List NonceRow). (length l == 1) ≡ false) (sym none_left) refl) ∙ one)

  -- One usable row among the rows.
  pub one_usable :
      (rows : List NonceRow)
      → (length (keep usable rows) == 1) ≡ true
      → (r : NonceRow) × Memᴰ r rows × (usable r ≡ true)
  one_usable rows h =
      elim (keep usable rows)
          as (λ l. keep usable rows ≡ l → (r : NonceRow) × Memᴰ r rows × (usable r ≡ true)) [
            | [] ↦ λ e. absurd (
                false≢true
                  (sym (subst (λ (l : List NonceRow). (length l == 1) ≡ false) (sym e) refl) ∙ h))
            | x ∷ l ↦ λ e.
                let (m, q) = mem-keep usable rows (subst (Memᴰ x) (sym e) (Memᴰ.head refl)) in
                (x, m, q)
          ]
        refl

  -- A nonce that has just been consumed is spent.
  pub try_use_nonce_spends :
      OneRow store.nonces
      → (try_use_nonce now value account_id chain_id domain store).0 ≡ ok true
      → IsSpent value (try_use_nonce now value account_id chain_id domain store).1.nonces
  try_use_nonce_spends o h =
      let (one, rows) = try_use_nonce-eq-ok h in
      let (r, m, e) = one_usable store.nonces one in
      subst (IsSpent value) (sym rows) (record {
        known =
            any-consume now usable value store.nonces
              (any-true (has_value value) store.nonces m (ground (arith, e)));
        used = λ r' m' q.
            let (y, k, p, v) = consumed_from now usable store.nonces r' m' in
            let same : r ≡ y =
              o.same r y m k ((text_eq_iff r.value value).0 (ground (arith, e)) ∙ sym (v ∙ q)) in
            subst (λ (n : NonceRow). n.used ≡ true) (ap (consume now usable) same ∙ p)
              (ground (arith, e));
      })
