-- ===== src/Orchestrator/Unique.antt =====
-- One intent for a transaction of a chain.
use zuno_marketplace_api.Common.{
  ℕ, Text, ◌≡◌, refl, sym, ◌∙◌, subst, ◌⊎◌, inl, inr, Bool, true, false, List, [], map, Memᴰ, none,
  some, arith, Bool-cases, Option-cases, find?, text_eq_iff, ok, err, Result, attempt, require, not,
  ◌>>=◌, ◌>>◌,
}
use zuno_marketplace_api.Orchestrator.Model.{
  Intent, IntentStatusPayload, OrchestratorError, TrackTxInput, Store, pending, duplicate_tx,
}
use zuno_marketplace_api.Orchestrator.Repo.{
  call, select, of_chain_tx, put_tx_hash, put_status, find_by_chain_tx, get_by_id, update_tx_hash,
  update_status, set_intent_status,
}
use zuno_marketplace_api.Orchestrator.Service.{
  World, Config, is_other, track_tx, record_tx, unless_tracked,
}
use zuno_marketplace_api.Orchestrator.Rows.{
  OneTx, only_own, put_row, reset_row, IsAlone, IsOfChain, OneTx-put, OneTx-tracked,
}
use zuno_marketplace_api.Common.Triple.{Triple, Post, Triple-bind, Triple-lose, Keeps→Triple}
use zuno_marketplace_api.Common.Keeps.{Keeps-require}
use zuno_marketplace_api.Orchestrator.Effects.{
  find_by_chain_tx_intents, find_by_chain_tx_quiet, get_by_id_intents, get_by_id_quiet,
  call-update-Triple, set_intent_status_intents,
}

module _ (world : World) (config : Config) (now : ℕ) where
  -- What the duplicate check has seen.
  seen :
      (id chain_id hash : Text) (t : Store)
      → t.faults ≡ []
      → is_other world config now id (find_by_chain_tx chain_id hash t).0 ≡ false
      → (find? (of_chain_tx chain_id hash) t.intents ≡ none)
        ⊎ ((row : Intent) × (find? (of_chain_tx chain_id hash) t.intents ≡ some row)
            × (row.id ≡ id))
  unfolding find_by_chain_tx call select ◌>>=◌
  seen id chain_id hash t quiet alone =
      elim (Option-cases (find? (of_chain_tx chain_id hash) t.intents)) [
        | inl nothing ↦ inl nothing
        | inr (row, e) ↦
            inr (row, e, (text_eq_iff row.id id).0 (ground (arith, rw (quiet, e) at alone)))
      ]

  abbrev Holds : Store → Type 0
  Holds t = OneTx t.intents

  -- The rows, and no failure to come.
  abbrev Same : List Intent → Store → Type 0
  Same rows t = (t.intents ≡ rows) × (t.faults ≡ [])

  module _ (input : TrackTxInput) (rows : List Intent) (one : OneTx rows)
      (chain : IsOfChain now input rows) where
    same_holds : (t : Store) → Same rows t → Holds t
    same_holds t p = subst OneTx (sym p.0) one

    find_by_chain_tx-Triple :
        Triple
          (Same rows)
          (attempt (find_by_chain_tx input.chain_id input.tx_hash))
          (λ r t.
            Same rows t
            × (is_other world config now input.intent_id r ≡ false → IsAlone now input rows))
          Holds
    find_by_chain_tx-Triple = record {
      at = λ s p. (
        (
          find_by_chain_tx_intents input.chain_id input.tx_hash s ∙ p.0,
          find_by_chain_tx_quiet input.chain_id input.tx_hash s p.1,
        ),
        λ alone. subst (IsAlone now input) p.0 (
            only_own input.intent_id input.chain_id input.tx_hash s.intents
              (subst OneTx (sym p.0) one)
              (seen input.intent_id input.chain_id input.tx_hash s p.1 alone)),
      );
    }

    written :
        (payload : IntentStatusPayload)
        → IsAlone now input rows
        → Triple
            (Same rows)
            (update_tx_hash now input.intent_id input.tx_hash input.contract
              >> (update_status now input.intent_id pending none
                  >> set_intent_status config.redis_works payload))
            (λ _. Holds)
            Holds
    unfolding update_tx_hash update_status set_intent_status
    written payload own =
        let put = put_tx_hash now input.tx_hash input.contract in
        let put_rows = map (put_row now input) rows in
        Triple-bind _ _ (λ _ t. t.intents ≡ put_rows) (λ _. Holds)
          (Triple-lose _ _
            (record { at = λ s p. (call-update-Triple input.intent_id put rows).at s p.0 })
            λ t e. subst OneTx (sym e) one)
          λ u.
            Triple-bind _ _ (λ _ t. t.intents ≡ map (reset_row now input) put_rows) _
              (Triple-lose _ _
                (call-update-Triple input.intent_id (put_status now pending none) put_rows)
                λ t e. subst OneTx (sym e) (OneTx-put now input rows one chain own))
              λ u'. record {
                at = λ s e.
                    subst OneTx (sym (set_intent_status_intents config.redis_works payload s ∙ e))
                      (OneTx-tracked now input rows one chain own);
              }

    abbrev Looked : Result OrchestratorError Intent → Store → Type 0
    Looked r t =
        Same rows t × (is_other world config now input.intent_id r ≡ false → IsAlone now input rows)

    checked :
        (payload : IntentStatusPayload) (r : Result OrchestratorError Intent)
        → Triple
            (Looked r)
            (require (not (is_other world config now input.intent_id r)) duplicate_tx
              >> (update_tx_hash now input.intent_id input.tx_hash input.contract
                  >> (update_status now input.intent_id pending none
                      >> set_intent_status config.redis_works payload)))
            (λ _. Holds)
            Holds
    unfolding ◌>>=◌
    checked payload r = elim (Bool-cases (is_other world config now input.intent_id r)) [
      | inl other ↦ record { at = λ s p. rw other (same_holds s p.0) }
      | inr alone ↦ record { at = λ s p. rw alone ((written payload (p.1 alone)).at s p.0) }
    ]

    record_tx-Triple :
        (intent : Intent)
        → Triple (Same rows) (record_tx world config now input intent) (λ _. Holds) Holds
    unfolding record_tx
    record_tx-Triple intent =
        Triple-bind (attempt (find_by_chain_tx input.chain_id input.tx_hash)) _ Looked (λ _. Holds)
          find_by_chain_tx-Triple λ r. checked _ r

    unless_tracked-Triple :
        (tracked : Bool) (intent : Intent)
        → Triple
            (Same rows)
            (unless_tracked world config now tracked input intent)
            (λ _. Holds)
            Holds
    unless_tracked-Triple true intent = record { at = λ s p. same_holds s p }
    unless_tracked-Triple false intent = record_tx-Triple intent

    track_tx-Triple : Triple (Same rows) (track_tx world config now input) (λ _. Holds) Holds
    unfolding track_tx
    track_tx-Triple =
        Triple-bind _ _ (λ _. Same rows) _
          (Triple-lose _ _ (Keeps→Triple (Same rows) _ (Keeps-require _ _)) same_holds)
          λ u.
            Triple-bind (get_by_id input.intent_id) _ (λ _. Same rows) _
              (Triple-lose _ _
                (Keeps→Triple (Same rows) _ (record {
                  at = λ s p. (
                    get_by_id_intents input.intent_id s ∙ p.0,
                    get_by_id_quiet input.intent_id s p.1,
                  );
                }))
                same_holds)
              λ intent.
                Triple-bind _ _ (λ _. Holds) _ (unless_tracked-Triple _ intent)
                  λ u'. record { at = λ s p. p }

  -- Where the database answers every call and the request names the chain of its intent, a tracking
  -- keeps one intent for a transaction, whether it succeeds or refuses the request: invalid, for an
  -- unknown intent, or for a transaction of another one.
  pub track_tx-OneTx :
      (input : TrackTxInput) (s : Store)
      → OneTx s.intents
      → s.faults ≡ []
      → ((r : Intent) → Memᴰ r s.intents → r.id ≡ input.intent_id → r.chain_id ≡ input.chain_id)
      → OneTx (track_tx world config now input s).1.intents
  track_tx-OneTx input s one quiet chain =
      held _ _ ((track_tx-Triple input s.intents one chain).at s (refl, quiet))
    where
      held :
          (r : Result OrchestratorError Bool) (t : Store)
          → Post (λ _. Holds) Holds r t
          → OneTx t.intents
      held (ok b) t h = h
      held (err e) t h = h
