-- ===== src/Orchestrator/Effects.antt =====
-- What the calls of the repository have run and left.
use mathlib.Core.List.{tail}
use zuno_marketplace_api.Common.{
  ℕ, Text, ◌≡◌, refl, ◌∙◌, ap, inl, inr, Bool, not, ◌||◌, List, map, Option, none, some, [], ◌∷◌,
  arith, Bool-cases, head_or_false, all, find?, Result, ok, bind-eq-ok,
}
use zuno_marketplace_api.Common.Keeps.{Keeps, Keeps-bind, Keeps-pure, Keeps-fail}
use zuno_marketplace_api.Common.Triple.{Triple}
use zuno_marketplace_api.Orchestrator.Model.{
  Intent, IntentStatus, IntentStatusPayload, Store, OrchestratorError,
}
use zuno_marketplace_api.Orchestrator.Repo.{
  call, has_id, fits_columns, change_intent, update_intents, put_tx_hash, update_tx_hash,
  put_status, update_status, select, scan, get_by_id, of_chain_tx, find_by_chain_tx,
  set_intent_status,
}

abbrev pub next : Store → Store
next store = record store { faults = tail store.faults }

pub call-eq-ok :
    {A : Type 0} (run : Store → Result OrchestratorError A × Store) (store : Store) {a : A}
    → (call run store).0 ≡ ok a
    → ((run (next store)).0 ≡ ok a) × (call run store ≡ run (next store))
unfolding call
call-eq-ok run store h = elim (Bool-cases (head_or_false store.faults)) [
  | inl no_ ↦ absurd (ground arith)
  | inr yes_ ↦ (ground arith, rw yes_)
]

module _ (id : Text) (change : Intent → Intent) where
  update_intents-eq-ok :
      (store : Store) {u : Unit {0}}
      → (update_intents id change store).0 ≡ ok u
      → (update_intents id change store).1.intents ≡ map (change_intent id change) store.intents
  unfolding update_intents
  update_intents-eq-ok store h =
      elim (Bool-cases
        (all (λ row. not (has_id id row) || fits_columns (change row)) store.intents)) [
          | inl fits ↦ rw fits refl
          | inr bad ↦ absurd (ground (arith, h, bad))
        ]

  pub call-update :
      (store : Store) {u : Unit {0}}
      → (call (update_intents id change) store).0 ≡ ok u
      → (call (update_intents id change) store).1.intents
        ≡ map (change_intent id change) store.intents
  call-update store h =
      let (ran, same) = call-eq-ok (update_intents id change) store h in
      ap (λ (r : Result OrchestratorError (Unit {0}) × Store). r.1.intents) same
      ∙ update_intents-eq-ok (next store) ran

  -- An update that fails leaves the rows.
  pub call-update-Triple :
      (rows : List Intent)
      → Triple
          (λ t. t.intents ≡ rows)
          (call (update_intents id change))
          (λ u t. t.intents ≡ map (change_intent id change) rows)
          (λ t. t.intents ≡ rows)
  unfolding call update_intents
  call-update-Triple rows = record {
    at = λ s p. elim (Bool-cases (head_or_false s.faults)) [
      | inl down ↦ rw down p
      | inr up ↦
          elim (Bool-cases
            (all (λ row. not (has_id id row) || fits_columns (change row)) s.intents)) [
              | inl fits ↦ rw (up, fits) (ap (map (change_intent id change)) p)
              | inr bad ↦ rw (up, bad) p
            ]
    ];
  }

pub update_tx_hash-eq-ok :
    (now : ℕ) (id hash : Text) (contract : Option Text) (store : Store) {u : Unit {0}}
    → (update_tx_hash now id hash contract store).0 ≡ ok u
    → (update_tx_hash now id hash contract store).1.intents
      ≡ map (change_intent id (put_tx_hash now hash contract)) store.intents
unfolding update_tx_hash
update_tx_hash-eq-ok now id hash contract store h =
    call-update id (put_tx_hash now hash contract) store h

pub update_status-eq-ok :
    (now : ℕ) (id : Text) (status : IntentStatus) (message : Option Text) (store : Store)
    {u : Unit {0}}
    → (update_status now id status message store).0 ≡ ok u
    → (update_status now id status message store).1.intents
      ≡ map (change_intent id (put_status now status message)) store.intents
unfolding update_status
update_status-eq-ok now id status message store h =
    call-update id (put_status now status message) store h

scan-eq-ok :
    (o : Option Intent) (s : Store) {intent : Intent}
    → (scan o s).0 ≡ ok intent
    → (o ≡ some intent) × ((scan o s).1 ≡ s)
scan-eq-ok none s h = cc
scan-eq-ok (some row) s h = (ground (arith, h), refl)

-- A row that a query finds, with the tables as they were.
pub selected-eq-ok :
    (p : Intent → Bool) (store : Store) {o : Option Intent}
    → (call (select p) store).0 ≡ ok o
    → (find? p store.intents ≡ o) × ((call (select p) store).1.intents ≡ store.intents)
selected-eq-ok p store h =
    let (ran, same) = call-eq-ok (select p) store h in
    (
      unfold select in ground (arith, ran),
      ap (λ (r : Result OrchestratorError (Option Intent) × Store). r.1.intents) same
          ∙ (unfold select in refl),
    )

pub get_by_id-eq-ok :
    (id : Text) (store : Store) {intent : Intent}
    → (get_by_id id store).0 ≡ ok intent
    → (find? (has_id id) store.intents ≡ some intent)
      × ((get_by_id id store).1.intents ≡ store.intents)
unfolding get_by_id
get_by_id-eq-ok id store h =
    let (o, ho, rest, e) = bind-eq-ok (call (select (has_id id))) scan store h in
    let (found, kept) = selected-eq-ok (has_id id) store ho in
    let (some_row, same) = scan-eq-ok o (call (select (has_id id)) store).1 rest in
    (found ∙ some_row, ap (λ (s : Store). s.intents) (e ∙ same) ∙ kept)

-- The intent that an update leaves.
pub find?-change :
    (id : Text) (change : Intent → Intent) (rows : List Intent) {row : Intent}
    → ((r : Intent) → (change r).id ≡ r.id)
    → find? (has_id id) rows ≡ some row
    → find? (has_id id) (map (change_intent id change) rows) ≡ some (change row)
unfolding find?
find?-change id change [] same h = cc
find?-change id change (x ∷ rows) {row} same h = elim (Bool-cases (has_id id x)) [
  | inl hit ↦ ground (arith, h, hit, same x)
  | inr miss ↦
      let later : find? (has_id id) rows ≡ some row = ground (arith, h, miss) in
      ground (arith, miss, find?-change id change rows same later)
]

-- Queries leave the table, whether they answer or fail.
call-select_intents :
    (p : Intent → Bool) (store : Store) → (call (select p) store).1.intents ≡ store.intents
unfolding call select
call-select_intents p store = ground arith

-- From a database with no failure to come, there is none to come after a query.
pub get_by_id_quiet : (id : Text) (s : Store) → s.faults ≡ [] → (get_by_id id s).1.faults ≡ []
unfolding get_by_id call select
get_by_id_quiet id s quiet =
    (Keeps-bind (call (select (has_id id))) scan (record { at = λ t e. rw e refl }) scanned).at s
      quiet
  where
    scanned : (o : Option Intent) → Keeps (λ s. s.faults ≡ []) (scan o)
    scanned none = Keeps-fail _
    scanned (some row) = Keeps-pure row

pub find_by_chain_tx_intents :
    (chain_id hash : Text) (store : Store)
    → (find_by_chain_tx chain_id hash store).1.intents ≡ store.intents
unfolding find_by_chain_tx
find_by_chain_tx_intents chain_id hash store =
    (Keeps-bind (call (select (of_chain_tx chain_id hash))) scan
        (record { at = λ s e. call-select_intents (of_chain_tx chain_id hash) s ∙ e }) scanned).at
      store refl
  where
    scanned : (o : Option Intent) → Keeps (λ s. s.intents ≡ store.intents) (scan o)
    scanned none = Keeps-fail _
    scanned (some row) = Keeps-pure row

pub find_by_chain_tx_quiet :
    (chain_id hash : Text) (s : Store)
    → s.faults ≡ []
    → (find_by_chain_tx chain_id hash s).1.faults ≡ []
unfolding find_by_chain_tx call select
find_by_chain_tx_quiet chain_id hash s quiet =
    (Keeps-bind (call (select (of_chain_tx chain_id hash))) scan (record { at = λ t e. rw e refl })
        scanned).at
      s quiet
  where
    scanned : (o : Option Intent) → Keeps (λ s. s.faults ≡ []) (scan o)
    scanned none = Keeps-fail _
    scanned (some row) = Keeps-pure row

pub get_by_id_intents : (id : Text) (store : Store) → (get_by_id id store).1.intents ≡ store.intents
unfolding get_by_id
get_by_id_intents id store =
    (Keeps-bind (call (select (has_id id))) scan
        (record { at = λ s e. call-select_intents (has_id id) s ∙ e }) scanned).at
      store refl
  where
    scanned : (o : Option Intent) → Keeps (λ s. s.intents ≡ store.intents) (scan o)
    scanned none = Keeps-fail _
    scanned (some row) = Keeps-pure row

pub set_intent_status_intents :
    (works : Bool) (payload : IntentStatusPayload) (s : Store)
    → (set_intent_status works payload s).1.intents ≡ s.intents
unfolding set_intent_status
set_intent_status_intents works payload s = ground arith
