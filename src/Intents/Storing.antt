-- ===== src/Intents/Storing.antt =====
-- Storing another intent leaves a settled one under its key.
use zuno_marketplace_api.Common.{
  ℕ, ◌+◌, Text, ◌≡◌, ◌≢◌, refl, sym, ◌∙◌, ap, inl, inr, Bool, true, false, List, ◌∷◌, Option, none,
  some, Bool-cases, find?, text_eq, text_eq_iff,
}
use zuno_marketplace_api.Common.Faults.{OnTables, server_call-Keeps, server_call-Triple}
use zuno_marketplace_api.Common.Keeps.{Keeps, Keeps-pure, Keeps-bind, Keeps-attempt}
use zuno_marketplace_api.Common.Triple.{
  Triple, Triple-bind, Triple-pure, Triple-fail, Keeps→Triple, Triple→Keeps,
}
use zuno_marketplace_api.Subscriptions.Model.{IntentStatus, WebSocketMessage}
use zuno_marketplace_api.Intents.Redis.{
  Entry, Worker, redis_error, marshal_error, call, has_name, without_key, set, s_add,
}
use zuno_marketplace_api.Intents.Repository.{
  Codec, status_key, or_else, ttl_of, quietly, is_pending, update_intent_status, in_contract_index,
  in_tx_hash_index, is_expired,
}
use zuno_marketplace_api.Intents.Resolution.{notify}
use zuno_marketplace_api.Intents.Entries.{status_key-injective, find?-set, find?-set_other}
use zuno_marketplace_api.Intents.Reading.{IsRoundTrip, Holds, Spares, Read}

module _ (json : Codec) (laws : IsRoundTrip json) (now : ℕ) (id : Text) (entry : Entry)
    (settled : (intent : IntentStatus)
      → json.unmarshal entry.content ≡ some intent
      → is_pending intent ≡ false) where
  abbrev pub Kept : Worker → Type 0
  Kept = Holds json laws now id entry settled

  abbrev pub Spared : IntentStatus → Type 0
  Spared = Spares json laws now id entry settled

  abbrev pub Found : List IntentStatus → Worker → Type 0
  Found = Read json laws now id entry settled

  set-Kept :
      (intent : IntentStatus) (content : Text) (ttl : ℕ) (w : Worker)
      → intent.intent_id ≢ id
      → json.unmarshal content ≡ some intent
      → Kept w
      → Kept (set now (status_key intent.intent_id) content ttl w).1
  unfolding set
  set-Kept intent content ttl w away decoded h = (record { keyed = keyed }, kept)
    where
      name : Text
      name = status_key intent.intent_id

      new : Entry
      new = record { key = name; content = content; until = now + ttl }

      names : (j : Text) → text_eq name (status_key j) ≡ true → intent.intent_id ≡ j
      names j e = (text_eq_iff _ _).0 (sym (status_key-injective intent.intent_id j) ∙ e)

      keyed :
          (j : Text) (e : Entry) (st : IntentStatus)
          → find? (has_name (status_key j)) (new ∷ without_key name w.entries) ≡ some e
          → json.unmarshal e.content ≡ some st
          → st.intent_id ≡ j
      keyed j e st found read = elim (Bool-cases (text_eq name (status_key j))) [
        | inl hit ↦
            let at_name : name ≡ status_key j = (text_eq_iff _ _).0 hit in
            let e_is : some new ≡ some e =
              sym (find?-set (status_key j) new (without_key name w.entries) at_name) ∙ found in
            let e_eq : new ≡ e = cc in
            let st_is : some intent ≡ some st =
              sym decoded ∙ ap (λ (x : Entry). json.unmarshal x.content) e_eq ∙ read in
            let st_eq : intent ≡ st = cc in
            sym (ap (λ (x : IntentStatus). x.intent_id) st_eq) ∙ names j hit
        | inr miss ↦
            h.0.keyed j e st (sym (find?-set_other (status_key j) new w.entries miss) ∙ found) read
      ]

      kept : find? (has_name (status_key id)) (new ∷ without_key name w.entries) ≡ some entry
      kept = elim (Bool-cases (text_eq name (status_key id))) [
        | inl hit ↦ absurd (away (names id hit))
        | inr miss ↦ find?-set_other (status_key id) new w.entries miss ∙ h.1
      ]

  quiet-Keeps :
      (b : Bool) (key member : Text) → Keeps (OnTables Kept) (quietly b (call (s_add key member)))
  unfolding s_add
  quiet-Keeps false key member = Keeps-pure tt
  quiet-Keeps true key member =
      Keeps-bind _ _
        (Keeps-attempt _ (
          server_call-Keeps redis_error (s_add key member) Kept
            λ w h. (record { keyed = h.0.keyed }, h.1)))
        λ r. Keeps-pure tt

  pub update_intent_status-Keeps :
      (intent : IntentStatus)
      → intent.intent_id ≢ id
      → Keeps (OnTables Kept) (update_intent_status json now intent)
  unfolding update_intent_status
  update_intent_status-Keeps intent away =
      Triple→Keeps (OnTables Kept) (update_intent_status json now intent) (
        Triple-bind (or_else (json.marshal stamped) marshal_error) _
          (λ d. OnTables (λ w. Kept w × Decodes d)) (λ u. OnTables Kept)
          (marshalled (json.marshal stamped) refl)
          λ d.
            Triple-bind
              (call (set now (status_key intent.intent_id) d (ttl_of now intent.expires_at))) _
              (λ u. OnTables Kept) (λ u. OnTables Kept)
              (server_call-Triple redis_error
                (set now (status_key intent.intent_id) d (ttl_of now intent.expires_at))
                (λ w. Kept w × Decodes d) (λ u. Kept) Kept
                (unfold set in
                  λ w h. set-Kept stamped d (ttl_of now intent.expires_at) w away h.1 h.0)
                (λ w h. h.0))
              λ u. Keeps→Triple (OnTables Kept) _ (
                Keeps-bind _ _ (quiet-Keeps (in_contract_index intent) _ _) λ u'.
                  Keeps-bind _ _ (quiet-Keeps (in_tx_hash_index intent) _ _)
                    λ u''. quiet-Keeps (is_expired now intent.expires_at) _ _))
    where
      stamped : IntentStatus
      stamped = record intent { updated_at = now }

      Decodes : Text → Type 0
      Decodes d = json.unmarshal d ≡ some stamped

      marshalled :
          (o : Option Text)
          → json.marshal stamped ≡ o
          → Triple
              (OnTables Kept)
              (or_else o marshal_error)
              (λ d. OnTables (λ w. Kept w × Decodes d))
              (OnTables Kept)
      marshalled none e = Triple-fail marshal_error _ (λ s h. h)
      marshalled (some d) e = Triple-pure d _ (λ s h. (h, laws.unmarshal-marshal stamped d e))

  pub notify-Keeps :
      (intent_id : Text) (message : WebSocketMessage)
      → Keeps (OnTables Kept) (notify intent_id message)
  notify-Keeps intent_id message = record { at = λ s h. (record { keyed = h.0.keyed }, h.1) }
