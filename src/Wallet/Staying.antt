-- ===== src/Wallet/Staying.antt =====
-- Statements that keep a row of a link: promotions and demotions, whatever fails.
use zuno_marketplace_api.Common.{
  ℕ, Text, refl, Bool, true, false, List, Option, none, some, Exec, attempt, ◌>>=◌, ◌&&◌, not,
}
use zuno_marketplace_api.Common.Triple.{Triple, Triple-bind}
use zuno_marketplace_api.Wallet.Model.{WalletLink, Row, WalletError, Tx}
use zuno_marketplace_api.Wallet.Repo.{demote_other_primaries_tx, update_wallet_meta_tx, change_meta}
use zuno_marketplace_api.Wallet.Service.{
  is_ok, when_true, make_room, refresh_row, demote_after, promote_row,
}
use zuno_marketplace_api.Wallet.Table.{WellFormed}
use zuno_marketplace_api.Wallet.Writes.{update_row-WellFormed, change_meta-Fits, demote-WellFormed}
use zuno_marketplace_api.Wallet.Statements.{OnRows, statement_triple, scan_triple, demote_triple}
use zuno_marketplace_api.Wallet.Invariant.{attempt_keeps}
use zuno_marketplace_api.Wallet.Stored.{Has, demote-Has, update_row-Has}

-- A well-formed table with a row of the link.
abbrev pub Holds : WalletLink → List Row → Type 0
Holds link rows = WellFormed rows × Has link rows

module _ (now : ℕ) (new_id : Text) (target : WalletLink) where
  abbrev pub Stays : {A : Type 0} → Exec Tx WalletError A → Type 0
  Stays m = Triple (OnRows (Holds target)) m (λ _. OnRows (Holds target)) (OnRows (Holds target))

  pub bind-Stays :
      {A B : Type 0} (m : Exec Tx WalletError A) (f : A → Exec Tx WalletError B)
      → Stays m
      → ((a : A) → Stays (f a))
      → Stays (m >>= f)
  bind-Stays m f = Triple-bind m f (λ _. OnRows (Holds target)) (λ _. OnRows (Holds target))

  demote-Stays :
      (user_id chain_id keep_id : Text)
      → Stays (attempt (demote_other_primaries_tx now user_id chain_id keep_id))
  demote-Stays user_id chain_id keep_id = attempt_keeps (Holds target) _ (
      demote_triple now (Holds target) user_id chain_id keep_id (λ spared rows h. (
        demote-WellFormed now user_id chain_id spared rows h.0,
        demote-Has now target user_id chain_id spared rows h.1,
      )))

  meta-Stays :
      (id : Text) (p : Option Bool) (v l : Option ℕ) (t : Option Text)
      → Stays (attempt (update_wallet_meta_tx now id p v l t))
  unfolding update_wallet_meta_tx
  meta-Stays id p v l t = attempt_keeps (Holds target) _ (
      Triple-bind _ _ (λ _. OnRows (Holds target)) (λ _. OnRows (Holds target))
        (statement_triple (Holds target) (Holds target) _ (λ _. Holds target) (λ _ h. h)
          (λ rows a rows' h e. (
            update_row-WellFormed now id rows h.0 _
                (λ y m _. (refl, change_meta-Fits now id rows h.0 p v l t y m)) e,
            update_row-Has now target id (change_meta now p v l t) rows h.0
                (λ y f. record { account = f.account; chain = f.chain; address = f.address }) e h.1,
          )))
        λ o. scan_triple (Holds target) (Holds target) o (λ _ h. h))

  make_room-Stays : (b : Bool) (acc : WalletLink) → Stays (make_room now new_id b acc)
  unfolding make_room
  make_room-Stays false acc = record { at = λ tx h. h }
  make_room-Stays true acc =
      bind-Stays _ _ (demote-Stays acc.user_id acc.chain_id acc.id) λ r. record { at = λ tx h. h }

  pub refresh_row-Stays :
      (b : Bool) (link acc : WalletLink) → Stays (refresh_row now new_id b link acc)
  unfolding refresh_row
  refresh_row-Stays false link acc = record { at = λ tx h. h }
  refresh_row-Stays true link acc =
      bind-Stays _ _ (make_room-Stays (link.is_primary && not acc.is_primary) acc) λ changed.
        bind-Stays _ _
          (meta-Stays acc.id (when_true (link.is_primary && not acc.is_primary)) none (some now)
            none)
          λ r. record { at = λ tx h. h }

  demote_after-Stays : (b : Bool) (link : WalletLink) → Stays (demote_after now new_id b link)
  unfolding demote_after
  demote_after-Stays false link = record { at = λ tx h. h }
  demote_after-Stays true link =
      bind-Stays _ _ (demote-Stays link.user_id link.chain_id link.id)
        λ _. record { at = λ tx h. h }

  pub promote_row-Stays : (b : Bool) (link : WalletLink) → Stays (promote_row now new_id b link)
  unfolding promote_row
  promote_row-Stays false link = record { at = λ tx h. h }
  promote_row-Stays true link =
      bind-Stays _ _ (meta-Stays link.id (some true) none none none)
        λ r. demote_after-Stays (is_ok r) link
