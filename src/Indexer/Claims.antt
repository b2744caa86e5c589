-- ===== src/Indexer/Claims.antt =====
-- Claims about the tables that the indexer's writes keep: a run for a chain keeps them, whatever
-- fails and whatever the node answers.
use zuno_marketplace_api.Common.{
  ℕ, suc, ◌≤◌, ◌+◌, Text, ◌≡◌, refl, inl, inr, Bool, true, false, List, [], ◌∷◌, Option, none, some,
  arith, leb, leb→le, Bool-cases, any, find?, text_eq_refl, pure, ◌>>=◌, ◌>>◌,
}
use zuno_marketplace_api.Common.Faults.{OnTables, server_call-Triple}
use zuno_marketplace_api.Common.Keeps.{Keeps, Keeps-pure, Keeps-fail, Keeps-bind, Keeps-attempt}
use zuno_marketplace_api.Common.Triple.{Triple, Post, Triple-bind, Keeps→Triple, Triple→Keeps}
use zuno_marketplace_api.Indexer.Model.{
  Checkpoint, RawEvent, CollectionCreatedEvent, Log, Tables, Store, database_error, broker_error,
}
use zuno_marketplace_api.Indexer.Checkpoints.{of_chain, or_default}
use zuno_marketplace_api.Indexer.Events.{
  same_key, upsert_event, with_id, store_raw_event, publishable, send,
  publish_collection_created_event,
}
use zuno_marketplace_api.Indexer.Client.{
  Node, answer, count_question, ask, parsed_topics, parse_collection_created_log, get_latest_block,
  confirmations_at, get_confirmations, or_insufficient,
}
use zuno_marketplace_api.Indexer.Service.{
  get_required_confirmations, raw_event, publish_if, process_collection_created_log, process_logs,
}

-- The last block of a chain; 0 where it has no checkpoint.
abbrev pub last_of : Text → List Checkpoint → ℕ
last_of chain_id rows = (or_default 0 chain_id (find? (of_chain chain_id) rows)).last_block

-- The node has answered a question with a latest block that gives the block the confirmations that
-- the chain asks for, the block itself the first.
pub record IsConfirmed (node : Node) (chain_id : Text) (block : ℕ) : Type 0 where
  pub question : ℕ
  pub latest : ℕ
  pub answered : node.latest question ≡ some latest
  pub deep : block + get_required_confirmations chain_id ≤ suc latest

-- What the processing of a log does: questions, an event of a fresh key, and a message for an event
-- that is stored and confirmed.
pub record LogStable (node : Node) (P : Tables → Type 0) : Type 0 where
  pub counted : (t : Tables) → P t → P (record t { asked = suc t.asked })
  pub stored :
      (event : RawEvent) (t : Tables)
      → any (same_key event) t.events ≡ false
      → P t
      → P (record t { events = event ∷ t.events })
  pub sent :
      (now : ℕ) (raw : RawEvent) (collection : CollectionCreatedEvent) (t : Tables)
      → any (same_key raw) t.events ≡ true
      → get_required_confirmations raw.chain_id ≤ raw.confirmations
      → IsConfirmed node raw.chain_id raw.block_number
      → P t
      → P (record t { published = publishable now raw.chain_id raw collection ∷ t.published })

module _ (node : Node) (P : Tables → Type 0) (stable : LogStable node P) where
  pub ask-Keeps : {A : Type 0} (question : ℕ → Option A) → Keeps (OnTables P) (ask question)
  unfolding ask
  ask-Keeps question = record { at = λ s p. kept (question s.tables.asked) s p }
    where
      kept :
          {A : Type 0} (o : Option A) (s : Store)
          → OnTables P s
          → OnTables P (answer o (count_question s)).1
      kept none s p = stable.counted s.tables p
      kept (some a) s p = stable.counted s.tables p

  pub parse-Keeps : (log : Log) → Keeps (OnTables P) (parse_collection_created_log log)
  unfolding parse_collection_created_log
  parse-Keeps log = parsed (parsed_topics log.topics)
    where
      parsed : (o : Option CollectionCreatedEvent) → Keeps (OnTables P) (or_insufficient o)
      parsed none = Keeps-fail _
      parsed (some event) = Keeps-pure event

  abbrev Stored : RawEvent → Tables → Type 0
  Stored event t = P t × (any (same_key event) t.events ≡ true)

  upsert_event-Stored :
      (event : RawEvent) (t : Tables)
      → P t
      → Post (λ u. Stored event) P (upsert_event event t).0 (upsert_event event t).1
  unfolding upsert_event
  upsert_event-Stored event t p = elim (Bool-cases (any (same_key event) t.events)) [
    | inl known ↦ rw known (p, known)
    | inr fresh ↦
        let chain = text_eq_refl event.chain_id in
        let tx = text_eq_refl event.tx_hash in
        rw fresh (stable.stored event t fresh p, ground (arith, chain, tx))
  ]

  -- After storing, an event of the key is there.
  store_raw_event-Triple :
      (now : ℕ) (event : RawEvent)
      → Triple (OnTables P) (store_raw_event now event) (λ u. OnTables (Stored event)) (OnTables P)
  unfolding store_raw_event
  store_raw_event-Triple now event =
      server_call-Triple database_error (upsert_event (with_id now event)) P (λ u. Stored event) P
        (upsert_event-Stored (with_id now event)) (λ t p. p)

  -- As many confirmations as the chain asks for are in the node's answer.
  abbrev AllConfirmed : Text → ℕ → ℕ → Type 0
  AllConfirmed chain_id block confirmations =
      get_required_confirmations chain_id ≤ confirmations → IsConfirmed node chain_id block

  required_positive : (chain_id : Text) → 1 ≤ get_required_confirmations chain_id
  unfolding get_required_confirmations
  required_positive chain_id = ground arith

  deep_enough :
      (required block latest : ℕ)
      → 1 ≤ required
      → required ≤ confirmations_at node block latest
      → block + required ≤ suc latest
  unfolding confirmations_at
  deep_enough required block latest positive h = ground (arith, positive, h)

  get_confirmations-Triple :
      (chain_id : Text) (block : ℕ)
      → Triple
          (OnTables P)
          (get_confirmations node block)
          (λ c. OnTables (λ t. P t × AllConfirmed chain_id block c))
          (OnTables P)
  unfolding get_confirmations get_latest_block ask ◌>>=◌
  get_confirmations-Triple chain_id block = record {
    at = λ s p. counted s.tables.asked (node.latest s.tables.asked) refl s p;
  }
    where
      counted :
          (question : ℕ) (o : Option ℕ)
          → node.latest question ≡ o
          → (s : Store) → OnTables P s
          → let out =
              (answer o >>= λ latest. pure (confirmations_at node block latest))
                (count_question s) in
            Post (λ c. OnTables (λ t. P t × AllConfirmed chain_id block c)) (OnTables P) out.0 out.1
      counted question none e s p = stable.counted s.tables p
      counted question (some latest) e s p = (
        stable.counted s.tables p,
        λ enough. record {
          question = question;
          latest = latest;
          answered = e;
          deep = deep_enough _ block latest (required_positive chain_id) enough;
        },
      )

  module _ (now : ℕ) where
    publish_if-Triple :
        (raw : RawEvent) (collection : CollectionCreatedEvent) (b : Bool)
        → (b ≡ true → get_required_confirmations raw.chain_id ≤ raw.confirmations)
        → AllConfirmed raw.chain_id raw.block_number raw.confirmations
        → Triple
            (OnTables (Stored raw))
            (publish_if node now b raw.chain_id raw collection)
            (λ _. OnTables P)
            (OnTables P)
    unfolding publish_collection_created_event
    publish_if-Triple raw collection false enough deep = record { at = λ s p. p.0 }
    publish_if-Triple raw collection true enough deep =
        server_call-Triple broker_error (send (publishable now raw.chain_id raw collection))
          (Stored raw) (λ u. P) P
          (unfold send in
            λ t p. stable.sent now raw collection t p.1 (enough refl) (deep (enough refl)) p.0)
          (λ t p. p.0)

    process_log-Keeps :
        (chain_id : Text) (log : Log)
        → Keeps (OnTables P) (process_collection_created_log node now chain_id log)
    unfolding process_collection_created_log
    process_log-Keeps chain_id log =
        Triple→Keeps (OnTables P) (process_collection_created_log node now chain_id log) (
          Triple-bind (get_confirmations node log.block_number) _
            (λ c. OnTables (λ t. P t × AllConfirmed chain_id log.block_number c)) (λ _. OnTables P)
            (get_confirmations-Triple chain_id log.block_number)
            λ confirmations. record { at = λ s p. (recorded confirmations p.1).at s p.0 })
      where
        recorded :
            (confirmations : ℕ)
            → AllConfirmed chain_id log.block_number confirmations
            → Triple
                (OnTables P)
                (parse_collection_created_log log >>= λ collection.
                  store_raw_event now (raw_event node now chain_id log confirmations collection)
                  >> publish_if node now
                      (leb (get_required_confirmations chain_id) confirmations)
                      chain_id
                      (raw_event node now chain_id log confirmations collection)
                      collection)
                (λ _. OnTables P)
                (OnTables P)
        recorded confirmations deep =
            Triple-bind (parse_collection_created_log log) _ (λ _. OnTables P) (λ _. OnTables P)
              (Keeps→Triple (OnTables P) _ (parse-Keeps log))
              λ collection.
                let raw = raw_event node now chain_id log confirmations collection in
                Triple-bind (store_raw_event now raw) _ (λ u. OnTables (Stored raw))
                  (λ _. OnTables P) (store_raw_event-Triple now raw)
                  λ u.
                    publish_if-Triple raw collection
                      (leb (get_required_confirmations chain_id) confirmations) (leb→le _ _) deep

    pub process_logs-Keeps :
        (chain_id : Text) (logs : List Log)
        → Keeps (OnTables P) (process_logs node now chain_id logs)
    unfolding process_logs
    process_logs-Keeps chain_id [] = Keeps-pure tt
    process_logs-Keeps chain_id (log ∷ logs) =
        Keeps-bind _ _ (Keeps-attempt _ (process_log-Keeps chain_id log))
          λ _. process_logs-Keeps chain_id logs
