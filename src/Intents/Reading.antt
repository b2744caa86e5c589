-- ===== src/Intents/Reading.antt =====
-- What is read of the intents, where a settled one stands under its key.
use zuno_marketplace_api.Common.{
  ℕ, Text, ◌≡◌, ◌≢◌, refl, sym, ◌∙◌, ap, inl, inr, Bool, true, false, List, [], ◌∷◌, All, Option,
  none, some, arith, Bool-cases, find?, Result, ok, err, attempt,
}
use zuno_marketplace_api.Common.Faults.{OnTables, server_call-Triple}
use zuno_marketplace_api.Common.Triple.{Triple, Post, Triple-bind, Triple-pure, Triple-fail}
use zuno_marketplace_api.Subscriptions.Model.{IntentStatus}
use zuno_marketplace_api.Intents.Redis.{
  Entry, Worker, Store, IntentError, redis_error, intent_not_found, unmarshal_error, call, has_name,
  alive, value_at, get, s_members,
}
use zuno_marketplace_api.Intents.Repository.{
  Codec, status_key, or_else, is_pending, get_intent_status, add_found, collect,
  get_pending_intents_by_contract, get_intents_by_tx_hash, get_contract_key, get_tx_hash_key,
}

-- What decoding does: it gives back what was encoded.
pub record IsRoundTrip (json : Codec) : Type 0 where
  pub unmarshal-marshal :
      (intent : IntentStatus) (data_text : Text)
      → json.marshal intent ≡ some data_text
      → json.unmarshal data_text ≡ some intent

abbrev pub entry_of : Text → Worker → Option Entry
entry_of intent_id w = find? (has_name (status_key intent_id)) w.entries

-- Under an intent's key stands an intent of that id.
pub record IsKeyed (json : Codec) (w : Worker) : Type 0 where
  pub keyed :
      (intent_id : Text) (entry : Entry) (intent : IntentStatus)
      → entry_of intent_id w ≡ some entry
      → json.unmarshal entry.content ≡ some intent
      → intent.intent_id ≡ intent_id

module _ (json : Codec) (laws : IsRoundTrip json) (now : ℕ) (id : Text) (entry : Entry)
    (settled : (intent : IntentStatus)
      → json.unmarshal entry.content ≡ some intent
      → is_pending intent ≡ false) where
  abbrev pub Holds : Worker → Type 0
  Holds w = IsKeyed json w × (entry_of id w ≡ some entry)

  abbrev pub Spares : IntentStatus → Type 0
  Spares intent = is_pending intent ≡ true → intent.intent_id ≢ id

  -- What is read is spared, or is not pending.
  get-Spares :
      (j : Text) (w : Worker) (e : Entry) (intent : IntentStatus)
      → Holds w
      → entry_of j w ≡ some e
      → json.unmarshal e.content ≡ some intent
      → Spares intent
  get-Spares j w e intent h found decoded pending same =
      let at_j : j ≡ id = sym (h.0.keyed j e intent found decoded) ∙ same in
      let e_is : some e ≡ some entry = sym found ∙ ap (λ k. entry_of k w) at_j ∙ h.1 in
      let e_eq : e ≡ entry = cc in
      let here : json.unmarshal entry.content ≡ some intent =
        sym (ap (λ (x : Entry). json.unmarshal x.content) e_eq) ∙ decoded in
      let no_ = settled intent here in absurd (cc)

  abbrev Known : Option Text → Type 0
  Known o =
      (data_text : Text) (intent : IntentStatus)
      → o ≡ some data_text
      → json.unmarshal data_text ≡ some intent
      → Spares intent

  value-Known : (j : Text) (w : Worker) → Holds w → Known (value_at now (status_key j) w.entries)
  value-Known j w h data_text intent = known (entry_of j w) refl
    where
      known :
          (o : Option Entry)
          → entry_of j w ≡ o
          → alive now o ≡ some data_text
          → json.unmarshal data_text ≡ some intent
          → Spares intent
      known none e q decoded = absurd (cc)
      known (some x) e q decoded =
          let same : x.content ≡ data_text = ground (arith, q) in
          get-Spares j w x intent h e (ap json.unmarshal same ∙ decoded)

  get_intent_status-Spares :
      (j : Text)
      → Triple
          (OnTables Holds)
          (get_intent_status json now j)
          (λ intent. OnTables (λ w. Holds w × Spares intent))
          (OnTables Holds)
  unfolding get_intent_status get
  get_intent_status-Spares j =
      Triple-bind (call (get now (status_key j))) _ (λ o. OnTables (λ w. Holds w × Known o)) _
        (server_call-Triple redis_error (get now (status_key j)) Holds (λ o w. Holds w × Known o)
          Holds (λ w h. (h, value-Known j w h)) (λ w h. h))
        λ o.
          Triple-bind (or_else o intent_not_found) _ (λ d. OnTables (λ w. Holds w × Known (some d)))
            _ (first o) λ d. parsed d (json.unmarshal d) refl
    where
      first :
          (o : Option Text)
          → Triple
              (OnTables (λ w. Holds w × Known o))
              (or_else o intent_not_found)
              (λ d. OnTables (λ w. Holds w × Known (some d)))
              (OnTables Holds)
      first none = Triple-fail intent_not_found _ (λ s p. p.0)
      first (some d) = Triple-pure d _ (λ s p. p)

      parsed :
          (d : Text) (o : Option IntentStatus)
          → json.unmarshal d ≡ o
          → Triple
              (OnTables (λ w. Holds w × Known (some d)))
              (or_else o unmarshal_error)
              (λ intent. OnTables (λ w. Holds w × Spares intent))
              (OnTables Holds)
      parsed d none e = Triple-fail unmarshal_error _ (λ s p. p.0)
      parsed d (some intent) e = Triple-pure intent _ (λ s p. (p.0, p.1 d intent refl e))

  -- The same for each intent of a list.
  abbrev pub Read : List IntentStatus → Worker → Type 0
  Read intents w = Holds w × All Spares intents

  collect-Read :
      (wanted : IntentStatus → Bool) (ids : List Text)
      → Triple
          (OnTables Holds)
          (collect json now wanted ids)
          (λ intents. OnTables (Read intents))
          (OnTables Holds)
  unfolding collect
  collect-Read wanted [] = Triple-pure [] _ (λ s p. (p, tt))
  collect-Read wanted (j ∷ ids) =
      Triple-bind (attempt (get_intent_status json now j)) _ (λ r. OnTables (λ w. Holds w × Fine r))
        _
        (record {
          at = λ s p. fine (get_intent_status json now j s) ((get_intent_status-Spares j).at s p);
        })
        λ r. record {
          at = λ s p.
              (Triple-bind (collect json now wanted ids) _ (λ rest. OnTables (Read rest))
                  (λ intents. OnTables (Read intents)) (collect-Read wanted ids)
                  λ rest.
                    Triple-pure _ (λ intents. OnTables (Read intents))
                      (λ s' q. (q.0, added r rest p.1 q.1))).at
                s p.0;
        }
    where
      Fine : Result IntentError IntentStatus → Type 0
      Fine (ok intent) = Spares intent
      Fine (err e) = Unit

      fine :
          (r : Result IntentError IntentStatus × Store)
          → Post (λ intent. OnTables (λ w. Holds w × Spares intent)) (OnTables Holds) r.0 r.1
          → OnTables (λ w. Holds w × Fine r.0) r.1
      fine (ok intent, s) h = h
      fine (err e, s) h = (h, tt)

      added :
          (r : Result IntentError IntentStatus) (rest : List IntentStatus)
          → Fine r
          → All Spares rest
          → All Spares (add_found json now wanted r rest)
      added (err e) rest f h = h
      added (ok intent) rest f h = elim (Bool-cases (wanted intent)) [
        | inl yes_ ↦ rw yes_ (f, h)
        | inr no_ ↦ rw no_ h
      ]

  pub get_intents_by_tx_hash-Read :
      (chain_id tx_hash : Text)
      → Triple
          (OnTables Holds)
          (get_intents_by_tx_hash json now chain_id tx_hash)
          (λ intents. OnTables (Read intents))
          (OnTables Holds)
  unfolding get_intents_by_tx_hash s_members
  get_intents_by_tx_hash-Read chain_id tx_hash =
      Triple-bind (call (s_members (get_tx_hash_key chain_id tx_hash))) _ (λ ids. OnTables Holds) _
        (server_call-Triple redis_error (s_members (get_tx_hash_key chain_id tx_hash)) Holds
          (λ ids. Holds) Holds (λ w h. h) (λ w h. h))
        λ ids. collect-Read _ ids

  pub get_pending_intents_by_contract-Read :
      (chain_id contract_address : Text)
      → Triple
          (OnTables Holds)
          (get_pending_intents_by_contract json now chain_id contract_address)
          (λ intents. OnTables (Read intents))
          (OnTables Holds)
  unfolding get_pending_intents_by_contract s_members
  get_pending_intents_by_contract-Read chain_id contract_address =
      Triple-bind (call (s_members (get_contract_key chain_id contract_address))) _
        (λ ids. OnTables Holds) _
        (server_call-Triple redis_error (s_members (get_contract_key chain_id contract_address))
          Holds (λ ids. Holds) Holds (λ w h. h) (λ w h. h))
        λ ids. collect-Read is_pending ids
