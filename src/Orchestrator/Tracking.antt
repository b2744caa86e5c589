-- ===== src/Orchestrator/Tracking.antt =====
-- TrackTx, and GetIntentStatus after it.
use zuno_marketplace_api.Common.{
  ℕ, ◌≡◌, ◌≢◌, refl, sym, ◌∙◌, ap, subst, Bool, true, false, not, ◌||◌, List, [], map, none, some,
  arith, find?, is_empty, ok, attempt, require, bind-eq-ok, bind-eq-ok_same, require-eq-ok,
}
use zuno_marketplace_api.Orchestrator.Model.{
  Intent, IntentStatusPayload, TrackTxInput, Store, pending, invalid_input, duplicate_tx,
}
use zuno_marketplace_api.Orchestrator.Repo.{
  has_id, change_intent, put_tx_hash, put_status, update_tx_hash, update_status, get_by_id,
  find_by_chain_tx,
}
use zuno_marketplace_api.Orchestrator.Service.{
  World, Config, is_other, is_tracked, record_tx, unless_tracked, track_tx, status_of,
}
use zuno_marketplace_api.Orchestrator.Effects.{
  update_tx_hash-eq-ok, update_status-eq-ok, get_by_id-eq-ok, get_by_id_quiet,
  find_by_chain_tx_intents, set_intent_status_intents,
}

module _ (world : World) (config : Config) (now : ℕ) where
  -- The rows that a tracking leaves.
  abbrev pub tracked_rows : TrackTxInput → List Intent → List Intent
  tracked_rows input rows =
      map (change_intent input.intent_id (put_status now pending none))
        (map (change_intent input.intent_id (put_tx_hash now input.tx_hash input.contract)) rows)

  record_tx-eq-ok :
      (input : TrackTxInput) (intent : Intent) (s : Store) {u : Unit {0}}
      → (record_tx world config now input intent s).0 ≡ ok u
      → (is_other world config now input.intent_id
            (find_by_chain_tx input.chain_id input.tx_hash s).0
          ≡ false)
        × ((record_tx world config now input intent s).1.intents ≡ tracked_rows input s.intents)
  unfolding record_tx
  record_tx-eq-ok input intent s h =
      let look = find_by_chain_tx input.chain_id input.tx_hash in
      let (existing, looked, rest, e) = bind-eq-ok (attempt look) _ s h in
      let s1 = (look s).1 in
      let other = is_other world config now input.intent_id existing in
      let (u, alone, rest, e1) =
        bind-eq-ok_same (require (not other) duplicate_tx) _ s1 (λ _. not other ≡ true)
          (λ _. require-eq-ok (not other) _ s1) rest in
      let put = update_tx_hash now input.intent_id input.tx_hash input.contract in
      let (u, done, rest, e2) = bind-eq-ok put _ s1 rest in
      let reset = update_status now input.intent_id pending none in
      let (u, done', rest, e3) = bind-eq-ok reset _ (put s1).1 rest in
      let same : (look s).0 ≡ existing = ground (arith, looked) in
      (
        subst (λ r. is_other world config now input.intent_id r ≡ false) (sym same)
            (ground (arith, alone)),
        ap (λ (t : Store). t.intents) (e ∙ e1 ∙ e2 ∙ e3)
            ∙ set_intent_status_intents _ _ _
            ∙ update_status-eq-ok now input.intent_id pending none (put s1).1 done'
            ∙ ap (map (change_intent input.intent_id (put_status now pending none))) (
                update_tx_hash-eq-ok now input.intent_id input.tx_hash input.contract s1 done
                ∙ ap
                    (map (
                      change_intent input.intent_id (put_tx_hash now input.tx_hash input.contract)))
                    (find_by_chain_tx_intents input.chain_id input.tx_hash s)),
      )

  -- What a tracking has found, and what it leaves.
  pub data Tracked (input : TrackTxInput) (before after : Store) (intent : Intent) : Type 0 where
    as_before :
        is_tracked world config now input.tx_hash intent.tx_hash ≡ true
        → after.intents ≡ before.intents
        → Tracked input before after intent
    newly :
        is_tracked world config now input.tx_hash intent.tx_hash ≡ false
        → (read : Store) → read.intents ≡ before.intents
        → (before.faults ≡ [] → read.faults ≡ [])
        → is_other world config now input.intent_id
            (find_by_chain_tx input.chain_id input.tx_hash read).0
          ≡ false
        → after.intents ≡ tracked_rows input before.intents
        → Tracked input before after intent

  pub track_tx-eq-ok :
      (input : TrackTxInput) (s : Store) {b : Bool}
      → (track_tx world config now input s).0 ≡ ok b
      → (is_empty input.intent_id ≡ false)
        × (intent : Intent) × (find? (has_id input.intent_id) s.intents ≡ some intent)
        × Tracked input s (track_tx world config now input s).1 intent
  unfolding track_tx
  track_tx-eq-ok input s h =
      let filled =
        not (is_empty input.intent_id || (is_empty input.chain_id || is_empty input.tx_hash)) in
      let (u, full, rest, e) =
        bind-eq-ok_same (require filled invalid_input) _ s (λ _. filled ≡ true)
          (λ _. require-eq-ok filled _ s) h in
      let (intent, found, rest, e1) = bind-eq-ok (get_by_id input.intent_id) _ s rest in
      let (row, kept) = get_by_id-eq-ok input.intent_id s found in
      let s1 = (get_by_id input.intent_id s).1 in
      let hit = is_tracked world config now input.tx_hash intent.tx_hash in
      let (u, ran, rest, e2) =
        bind-eq-ok (unless_tracked world config now hit input intent) _ s1 rest in
      let left = ap (λ (t : Store). t.intents) (e ∙ e1 ∙ e2) in
      (
        ground (arith, full),
        intent,
        row,
        outcome s1 kept (get_by_id_quiet input.intent_id s) intent hit refl ran left,
      )
    where
      outcome :
          (s1 : Store)
          → s1.intents ≡ s.intents
          → (s.faults ≡ [] → s1.faults ≡ [])
          → (intent : Intent) (hit : Bool) {u : Unit {0}}
          → is_tracked world config now input.tx_hash intent.tx_hash ≡ hit
          → (unless_tracked world config now hit input intent s1).0 ≡ ok u
          → (track_tx world config now input s).1.intents
            ≡ (unless_tracked world config now hit input intent s1).1.intents
          → Tracked input s (track_tx world config now input s).1 intent
      outcome s1 kept quiet intent true same ran left = as_before same (left ∙ kept)
      outcome s1 kept quiet intent false same ran left =
          let (alone, final) = record_tx-eq-ok input intent s1 ran in
          newly same s1 kept quiet alone (left ∙ final ∙ ap (tracked_rows input) kept)

  -- What the status query answers after a tracking of an intent.
  pub data Reports (input : TrackTxInput) (before : Intent) (payload : IntentStatusPayload)
      : Type 0 where
    unchanged :
        before.tx_hash ≡ some input.tx_hash
        → payload ≡ status_of world config now before
        → Reports input before payload
    restarted :
        before.tx_hash ≢ some input.tx_hash
        → payload ≡ record (status_of world config now before) {
          intent_status = pending;
          hash = some input.tx_hash;
          contract_address = input.contract;
        }
        → Reports input before payload
