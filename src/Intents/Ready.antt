-- ===== src/Intents/Ready.antt =====
-- An event makes the pending intents of its transaction ready.
use zuno_marketplace_api.Common.{
  ℕ, Text, codes, ◌≡◌, refl, sym, subst, inl, inr, Bool, true, List, [], ◌∷◌, Option, none, some,
  arith, ltb, Bool-cases, text_eq, text_eq_iff, Result, ok, err, ◌>>=◌,
}
use zuno_marketplace_api.Common.Faults.{server_call}
use zuno_marketplace_api.Common.Quiet.{quiet, Lands, Lands-pure, Lands-attempt, Lands-bind}
use zuno_marketplace_api.Subscriptions.Sets.{mem}
use zuno_marketplace_api.Subscriptions.Model.{IntentStatus, DomainEvent}
use zuno_marketplace_api.Intents.Redis.{
  Entry, Worker, IntentError, intent_not_found, unmarshal_error, value_at, get,
}
use zuno_marketplace_api.Intents.Repository.{
  Codec, status_key, or_else, is_pending, get_intent_status, add_found, collect,
}
use zuno_marketplace_api.Intents.Reading.{IsRoundTrip, entry_of}

-- Every status can be encoded.
pub record IsTotal (json : Codec) : Type 0 where
  pub marshalled :
      (intent : IntentStatus) → (data_text : Text) × (json.marshal intent ≡ some data_text)

-- The intent stands ready under its key, with the contract and the chain.
pub record IsReady (json : Codec) (id contract_address chain_id : Text) (w : Worker) : Type 0 where
  pub entry : Entry
  pub intent : IntentStatus
  pub found : entry_of id w ≡ some entry
  pub decoded : json.unmarshal entry.content ≡ some intent
  pub status : intent.status ≡ codes "ready"
  pub contract : intent.contract_address ≡ contract_address
  pub chain : intent.chain_id ≡ chain_id

module _ (json : Codec) (laws : IsRoundTrip json) (total : IsTotal json) (now : ℕ)
    (id contract_address : Text) (event : DomainEvent) where
  abbrev pub Ready : Worker → Type 0
  Ready w = IsReady json id contract_address event.chain_id w

  abbrev parsed : Option IntentStatus → Result IntentError IntentStatus
  parsed none = err unmarshal_error
  parsed (some intent) = ok intent

  abbrev read : Option Text → Result IntentError IntentStatus
  read none = err intent_not_found
  read (some d) = parsed (json.unmarshal d)

  -- Without failures the intents of a list of ids are a function of the tables.
  get-eq :
      (j : Text) (w : Worker)
      → get_intent_status json now j (quiet w)
        ≡ (read (value_at now (status_key j) w.entries), quiet w)
  unfolding get_intent_status get ◌>>=◌ server_call
  get-eq j w = at_value (value_at now (status_key j) w.entries)
    where
      at_parsed :
          (o : Option IntentStatus) → or_else o unmarshal_error (quiet w) ≡ (parsed o, quiet w)
      at_parsed none = refl
      at_parsed (some i) = refl

      at_value :
          (o : Option Text)
          → (or_else o intent_not_found >>= λ d. or_else (json.unmarshal d) unmarshal_error)
              (quiet w)
            ≡ (read o, quiet w)
      at_value none = refl
      at_value (some d) = at_parsed (json.unmarshal d)

  -- A pending intent of the id is in the list.
  pub data Due : List IntentStatus → Type 0 where
    here :
        (intent : IntentStatus) (rest : List IntentStatus)
        → intent.intent_id ≡ id
        → is_pending intent ≡ true
        → Due (intent ∷ rest)
    there : (intent : IntentStatus) (rest : List IntentStatus) → Due rest → Due (intent ∷ rest)

  pub collect-Lands :
      (wanted : IntentStatus → Bool) (ids : List Text) (w : Worker) (P : Worker → Type 0)
      → P w
      → Lands (collect json now wanted ids) w (λ l. P)
  unfolding collect
  collect-Lands wanted [] w P p = Lands-pure [] w _ p
  collect-Lands wanted (j ∷ ids) w P p =
      Lands-bind _ _ w (λ r. P) (λ l. P)
        (Lands-attempt (get_intent_status json now j) w (λ r. P)
          (read (value_at now (status_key j) w.entries)) w (get-eq j w) p)
        λ r w' p'.
          Lands-bind _ _ w' (λ l. P) (λ l. P) (collect-Lands wanted ids w' P p')
            λ l w'' p''. Lands-pure _ w'' _ p''

  module _ (entry : Entry) (intent : IntentStatus) (fresh : ltb now entry.until ≡ true)
      (decoded : json.unmarshal entry.content ≡ some intent) (pending : is_pending intent ≡ true)
      (named : intent.intent_id ≡ id) where
    abbrev pub Stands : Worker → Type 0
    Stands w = entry_of id w ≡ some entry

    read-Stands :
        (w : Worker) → Stands w → read (value_at now (status_key id) w.entries) ≡ ok intent
    read-Stands w h = rw (h, fresh, decoded) refl

    pub collect-Due :
        (wanted : IntentStatus → Bool) (ids : List Text) (w : Worker)
        → wanted intent ≡ true
        → mem id ids ≡ true
        → Stands w
        → Lands (collect json now wanted ids) w (λ l w'. Due l)
    unfolding collect
    collect-Due wanted [] w y m h = absurd (cc)
    collect-Due wanted (j ∷ ids) w y m h =
        Lands-bind _ _ w (λ r w'. Stands w' × (text_eq j id ≡ true → r ≡ ok intent)) (λ l w'. Due l)
          (Lands-attempt (get_intent_status json now j) w _
            (read (value_at now (status_key j) w.entries)) w (get-eq j w)
            (
              h,
              λ same.
                  subst (λ k. read (value_at now (status_key k) w.entries) ≡ ok intent)
                    (sym ((text_eq_iff j id).0 same)) (read-Stands w h),
            ))
          λ r w' p'. elim (Bool-cases (text_eq j id)) [
            | inl same ↦
                Lands-bind _ _ w' (λ l w''. Unit {0}) (λ l w''. Due l)
                  (collect-Lands wanted ids w' (λ w''. Unit {0}) tt)
                  λ l w'' u. Lands-pure _ w'' _ (rw (p'.1 same, y) (here intent l named pending))
            | inr other ↦
                Lands-bind _ _ w' (λ l w''. Due l) (λ l w''. Due l)
                  (collect-Due wanted ids w' y (ground (arith, m, other)) (p'.0))
                  λ l w'' due. Lands-pure _ w'' _ (later r l due)
          ]
      where
        later :
            (r : Result IntentError IntentStatus) (l : List IntentStatus)
            → Due l
            → Due (add_found json now wanted r l)
        later (err e) l due = due
        later (ok i) l due = elim (Bool-cases (wanted i)) [
          | inl yes_ ↦ rw yes_ (there i l due)
          | inr no_ ↦ rw no_ due
        ]
