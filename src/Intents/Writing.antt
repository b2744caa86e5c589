-- ===== src/Intents/Writing.antt =====
-- Without failures: what storing an intent leaves of the entries.
use zuno_marketplace_api.Common.{
  ℕ, ◌+◌, Text, codes, ◌≡◌, ◌≢◌, refl, ◌∙◌, ap, inl, inr, Bool, true, false, List, ◌∷◌, Option,
  none, some, Bool-cases, find?, text_eq, text_eq_iff, text_eq_refl, ◌>>=◌,
}
use zuno_marketplace_api.Common.Faults.{server_call}
use zuno_marketplace_api.Common.Quiet.{quiet, Lands, Lands-pure, Lands-server_call, Lands-bind}
use zuno_marketplace_api.Subscriptions.Sets.{insert, subscribers_of, put_key}
use zuno_marketplace_api.Subscriptions.Model.{IntentStatus, DomainEvent, WebSocketMessage}
use zuno_marketplace_api.Intents.Redis.{
  Entry, Worker, redis_error, marshal_error, call, has_name, without_key, set, s_add,
}
use zuno_marketplace_api.Intents.Repository.{
  Codec, status_key, or_else, ttl_of, quietly, update_intent_status, in_contract_index,
  in_tx_hash_index, is_expired,
}
use zuno_marketplace_api.Intents.Resolution.{notify}
use zuno_marketplace_api.Intents.Entries.{status_key-injective, find?-set, find?-set_other}
use zuno_marketplace_api.Intents.Reading.{IsRoundTrip}
use zuno_marketplace_api.Intents.Ready.{IsTotal, Ready, Due}

module _ (json : Codec) (laws : IsRoundTrip json) (total : IsTotal json) (now : ℕ)
    (id contract_address : Text) (event : DomainEvent) where
  abbrev pub R : Worker → Type 0
  R = Ready json laws total now id contract_address event

  abbrev pub D : List IntentStatus → Type 0
  D = Due json laws total now id contract_address event

  -- What storing an intent leaves of the entries.
  pub record IsWritten (intent : IntentStatus) (w w' : Worker) : Type 0 where
    pub content : Text
    pub encoded : json.marshal (record intent { updated_at = now }) ≡ some content
    pub until : ℕ
    pub entries :
        w'.entries
        ≡ record { key = status_key intent.intent_id; content = content; until = until }
          ∷ without_key (status_key intent.intent_id) w.entries

  add-Lands :
      (b : Bool) (key member : Text) (w : Worker) (P : Worker → Type 0)
      → ((w' : Worker) → w'.entries ≡ w.entries → P w')
      → Lands (quietly b (call (s_add key member))) w (λ u. P)
  unfolding s_add server_call ◌>>=◌
  add-Lands true key member w P p = record {
    value = tt;
    tables = record w { sets = put_key key (insert member (subscribers_of key w.sets)) w.sets };
    eq = refl;
    claim = p _ refl;
  }
  add-Lands false key member w P p = Lands-pure tt w _ (p w refl)

  pub update_intent_status-Lands :
      (intent : IntentStatus) (w : Worker)
      → Lands (update_intent_status json now intent) w (λ u. IsWritten intent w)
  unfolding update_intent_status
  update_intent_status-Lands intent w =
      let stamped : IntentStatus = record intent { updated_at = now } in
      let m = total.marshalled stamped in
      let new : Entry = record {
        key = status_key intent.intent_id;
        content = m.0;
        until = now + ttl_of now intent.expires_at;
      } in
      let written =
        λ (w' : Worker). w'.entries ≡ new ∷ without_key (status_key intent.intent_id) w.entries in
      Lands-bind _ _ w (λ d w'. (d ≡ m.0) × (w' ≡ w)) _ (encoded (json.marshal stamped) m.0 m.1)
        λ d w' e.
          Lands-bind _ _ w' (λ u. written) _
            (Lands-server_call redis_error
              (set now (status_key intent.intent_id) d (ttl_of now intent.expires_at)) w' tt
              (record w' { entries = new ∷ without_key (status_key intent.intent_id) w'.entries })
              (λ u. written) (unfold set in rw (e.0) refl) (rw (e.1) refl))
            λ u w1 h1.
              Lands-bind _ _ w1 (λ u. written) _
                (add-Lands (in_contract_index intent) _ _ w1 written (λ w2 q. q ∙ h1))
                λ u w2 h2.
                  Lands-bind _ _ w2 (λ u. written) _
                    (add-Lands (in_tx_hash_index intent) _ _ w2 written (λ w3 q. q ∙ h2))
                    λ u w3 h3.
                      add-Lands (is_expired now intent.expires_at) _ _ w3 (IsWritten intent w)
                        (λ w4 q. record {
                          content = m.0;
                          encoded = m.1;
                          until = now + ttl_of now intent.expires_at;
                          entries = q ∙ h3;
                        })
    where
      encoded :
          (o : Option Text) (d : Text)
          → o ≡ some d
          → Lands (or_else o marshal_error) w (λ d' w'. (d' ≡ d) × (w' ≡ w))
      encoded none d e = absurd (cc)
      encoded (some d') d e = Lands-pure d' w _ (cc, refl)

  -- The intent is one that the event has resolved.
  pub record IsResolved (intent : IntentStatus) : Type 0 where
    pub status : intent.status ≡ codes "ready"
    pub contract : intent.contract_address ≡ contract_address
    pub chain : intent.chain_id ≡ event.chain_id

  pub written-Ready :
      (intent : IntentStatus) (w w' : Worker)
      → IsResolved intent
      → (intent.intent_id ≢ id → R w)
      → IsWritten intent w w'
      → R w'
  written-Ready intent w w' r other h = elim (Bool-cases (text_eq intent.intent_id id)) [
    | inl same ↦ record {
      entry = record { key = status_key intent.intent_id; content = h.content; until = h.until };
      intent = record intent { updated_at = now };
      found =
          ap (find? (has_name (status_key id))) h.entries
          ∙ find?-set (status_key id) _ _ (ap status_key ((text_eq_iff _ _).0 same));
      decoded = laws.unmarshal-marshal _ h.content h.encoded;
      status = r.status;
      contract = r.contract;
      chain = r.chain;
    }
    | inr differs ↦
        let old = other (λ e. absurd (let d = ap (λ x. text_eq x id) e ∙ text_eq_refl id in cc)) in
        record {
          entry = old.entry;
          intent = old.intent;
          found =
              ap (find? (has_name (status_key id))) h.entries
              ∙ find?-set_other (status_key id)
                  (record {
                    key = status_key intent.intent_id;
                    content = h.content;
                    until = h.until;
                  })
                  w.entries (status_key-injective intent.intent_id id ∙ differs)
              ∙ old.found;
          decoded = old.decoded;
          status = old.status;
          contract = old.contract;
          chain = old.chain;
        }
  ]

  -- Another manager changes no entry.
  pub same_entries : (w w' : Worker) → w'.entries ≡ w.entries → R w → R w'
  same_entries w w' e r = record {
    entry = r.entry;
    intent = r.intent;
    found = ap (find? (has_name (status_key id))) e ∙ r.found;
    decoded = r.decoded;
    status = r.status;
    contract = r.contract;
    chain = r.chain;
  }

  pub notify-Lands :
      (intent_id : Text) (message : WebSocketMessage) (w : Worker) (P : Worker → Type 0)
      → ((w' : Worker) → w'.entries ≡ w.entries → P w')
      → Lands (notify intent_id message) w (λ u. P)
  notify-Lands intent_id message w P p = record {
    value = tt;
    tables = (notify intent_id message (quiet w)).1.tables;
    eq = refl;
    claim = p _ refl;
  }
