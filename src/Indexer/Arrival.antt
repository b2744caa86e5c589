-- ===== src/Indexer/Arrival.antt =====
-- A run whose servers and node answer, and where its checkpoint ends.
use Prim.Native.Nat.{◌^◌}
use zuno_marketplace_api.Common.{
  ℕ, zero, suc, ◌≤◌, ◌<◌, ◌+◌, ◌-◌, Text, ◌≡◌, refl, ◌⊎◌, inl, inr, if◌then◌else◌, Bool, true,
  false, ◌&&◌, List, [], ◌∷◌, Option, none, some, arith, ltb, leb, Bool-cases, any, length, Result,
  ok, err,
}
use zuno_marketplace_api.Common.Keeps.{Keeps, Keeps-pure, Keeps-fail, Keeps-bind}
use zuno_marketplace_api.Common.Triple.{Post}
use zuno_marketplace_api.Common.Quiet.{
  Quiet, Returns, Returns-pure, Returns-attempt, Returns-server_call, Returns-bind, Returns-eq,
  server_call-Quiet,
}
use zuno_marketplace_api.Indexer.Model.{
  Checkpoint, RawEvent, CollectionCreatedEvent, Log, LogFilter, IndexerError, Tables, Store,
}
use zuno_marketplace_api.Indexer.Checkpoints.{
  of_chain, fits, select_checkpoint, get_checkpoint, update_row, upsert_row, create_checkpoint,
  or_create, update_checkpoint,
}
use zuno_marketplace_api.Indexer.Events.{store_raw_event, publish_collection_created_event}
use zuno_marketplace_api.Indexer.Client.{
  Node, answer, count_question, ask, note_query, get_latest_block, get_block_by_number, get_logs,
  get_confirmations, parsed_topics, parse_collection_created_log, or_insufficient,
}
use zuno_marketplace_api.Indexer.Service.{
  Signal, elapsed, filter, batch_end, publish_if, process_collection_created_log, process_logs,
  process_batch, process_batches, process_chain_events,
}
use zuno_marketplace_api.Indexer.Claims.{last_of}
use zuno_marketplace_api.Indexer.Invariants.{IsAtLeast, IsAtLeast-Stable}
use zuno_marketplace_api.Indexer.Progress.{Done, process_chain_events-Done}

-- Every question has an answer, and a block's hash fits its column.
pub record Answers (node : Node) : Type 0 where
  pub latest : (n : ℕ) → (l : ℕ) × (node.latest n ≡ some l) × (ltb l (10 ^ 78) ≡ true)
  pub filter_logs : (n : ℕ) (f : LogFilter) → (logs : List Log) × (node.filter_logs n f ≡ some logs)
  pub block_hash :
      (n number : ℕ)
      → (hash : Text) × (node.block_hash n number ≡ some hash) × (leb (length hash) 66 ≡ true)

module _ {A : Type 0} where
  ask-Quiet : (question : ℕ → Option A) → Keeps Quiet (ask question)
  unfolding ask
  ask-Quiet question = record { at = λ s q. kept (question s.tables.asked) s q }
    where
      kept : (o : Option A) (s : Store) → Quiet s → Quiet (answer o (count_question s)).1
      kept none s q = q
      kept (some a) s q = q

  Returns-ask :
      (question : ℕ → Option A) (G : A → Type 0)
      → ((n : ℕ) → (a : A) × (question n ≡ some a) × G a)
      → Returns (ask question) G
  unfolding ask
  Returns-ask question G h = record {
    triple = record { at = λ s q. rw (h s.tables.asked).1 (q, (h s.tables.asked).2) };
  }

module _ (node : Node) (now : ℕ) where
  process_log-Quiet :
      (chain_id : Text) (log : Log)
      → Keeps Quiet (process_collection_created_log node now chain_id log)
  unfolding process_collection_created_log get_confirmations get_latest_block
      parse_collection_created_log store_raw_event publish_collection_created_event
  process_log-Quiet chain_id log =
      Keeps-bind _ _ (Keeps-bind _ _ (ask-Quiet node.latest) λ latest. Keeps-pure _)
        λ confirmations.
          Keeps-bind _ _ (parsed (parsed_topics log.topics))
            λ collection. Keeps-bind _ _ (server_call-Quiet _ _) λ u. published _ _ collection
    where
      parsed : (o : Option CollectionCreatedEvent) → Keeps Quiet (or_insufficient o)
      parsed none = Keeps-fail _
      parsed (some event) = Keeps-pure event

      published :
          (b : Bool) (raw : RawEvent) (c : CollectionCreatedEvent)
          → Keeps Quiet (publish_if node now b chain_id raw c)
      published true raw c = server_call-Quiet _ _
      published false raw c = Keeps-pure tt

  process_logs-Returns :
      (chain_id : Text) (logs : List Log)
      → Returns (process_logs node now chain_id logs) (λ _. Unit {0})
  unfolding process_logs
  process_logs-Returns chain_id [] = Returns-pure tt _ tt
  process_logs-Returns chain_id (log ∷ logs) =
      Returns-bind _ _ (λ _. Unit {0}) _ (Returns-attempt _ (process_log-Quiet chain_id log))
        λ r u. process_logs-Returns chain_id logs

  update_checkpoint-Returns :
      (c : Checkpoint) → fits c ≡ true → Returns (update_checkpoint now c) (λ _. Unit {0})
  unfolding update_checkpoint create_checkpoint update_row upsert_row fits
  update_checkpoint-Returns c h =
      Returns-bind _ _ (λ _. Unit {0}) _ (Returns-server_call _ _ _ updated) created
    where
      updated :
          (t : Tables)
          → Post
              (λ a _. Unit {0})
              (λ _. ⊥)
              (update_row (record c { updated_at = now }) t).0
              (update_row (record c { updated_at = now }) t).1
      updated t = elim (Bool-cases (any (of_chain c.chain_id) t.checkpoints)) [
        | inl known ↦ rw (known, h) tt
        | inr fresh ↦ rw fresh tt
      ]

      created : (b : Bool) → Unit {0} → Returns (or_create b now c) (λ _. Unit {0})
      created true u = Returns-pure tt _ tt
      created false u = Returns-server_call _ _ _ λ t. rw h tt

  module _ (answers : Answers node) (chain_id factory : Text) where
    process_batch-Returns :
        leb (length chain_id) 50 ≡ true
        → (from_block to_block : ℕ) → ltb to_block (10 ^ 78) ≡ true
        → Returns (process_batch node now chain_id factory from_block to_block) (λ _. Unit {0})
    unfolding process_batch get_logs get_block_by_number fits
    process_batch-Returns short from_block to_block small =
        let f = filter node now factory from_block to_block in
        let asked =
          Returns-ask {A = List Log} (λ n. node.filter_logs n f) (λ _. Unit {0})
            (λ n. let r = answers.filter_logs n f in (r.0, r.1, tt)) in
        Returns-bind (get_logs node chain_id f) _ (λ _. Unit {0}) _
          (record {
            triple = record { at = λ s q. asked.triple.at (note_query node chain_id f s) q };
          })
          λ logs u.
            Returns-bind _ _ (λ _. Unit {0}) _ (process_logs-Returns chain_id logs)
              λ u' u''.
                Returns-bind _ _ (λ hash. leb (length hash) 66 ≡ true) _
                  (Returns-ask _ _ λ n. answers.block_hash n to_block)
                  λ hash fit. update_checkpoint-Returns _ (all_fit (length hash) short small fit)
      where
        all_fit :
            (h : ℕ)
            → leb (length chain_id) 50 ≡ true
            → ltb to_block (10 ^ 78) ≡ true
            → leb h 66 ≡ true
            → leb (length chain_id) 50 && (ltb to_block (10 ^ 78) && leb h 66) ≡ true
        all_fit h a b c = rw (a, b, c) refl

    process_batches-Returns :
        leb (length chain_id) 50 ≡ true
        → (signal : ℕ → Signal) → ((n : ℕ) → signal n ≡ elapsed)
        → (fuel from_block latest : ℕ) → latest < from_block + fuel
        → ltb latest (10 ^ 78) ≡ true
        → Returns
            (process_batches node now signal fuel chain_id factory from_block latest)
            (λ _. Unit {0})
    unfolding process_batches
    process_batches-Returns short signal all zero from_block latest h small =
        let over : ltb latest from_block ≡ true = ground (arith, h) in
        rw over (Returns-pure tt _ tt)
    process_batches-Returns short signal all (suc fuel) from_block latest h small =
        elim (Bool-cases (ltb latest from_block)) [
          | inl over ↦ rw over (Returns-pure tt _ tt)
          | inr more ↦ rw more (record {
            triple =
                (Returns-bind _ _ (λ _. Unit {0}) (λ _. Unit {0})
                  (process_batch-Returns short from_block (batch_end node now from_block latest)
                    (smaller _ (batch_end_le from_block latest) small))
                  λ u u'. rw (all from_block) (
                    process_batches-Returns short signal all fuel
                      (suc (batch_end node now from_block latest)) latest (ground (arith, h, more))
                      small)).triple;
          })
        ]
      where
        smaller : {a b : ℕ} (n : ℕ) → a ≤ b → ltb b n ≡ true → ltb a n ≡ true
        smaller n le h = ground (arith, le, h)

        batch_end_le : (a b : ℕ) → batch_end node now a b ≤ b
        batch_end_le a b = ground arith

    process_chain_events-Returns :
        leb (length chain_id) 50 ≡ true
        → (signal : ℕ → Signal) → ((n : ℕ) → signal n ≡ elapsed)
        → Returns (process_chain_events node now signal chain_id factory) (λ _. Unit {0})
    unfolding process_chain_events get_checkpoint get_latest_block select_checkpoint
    process_chain_events-Returns short signal all =
        Returns-bind _ _ (λ _. Unit {0}) _
          (Returns-bind _ _ (λ _. Unit {0}) _ (Returns-server_call _ _ _ λ t. tt)
            λ row u. Returns-pure _ _ tt)
          λ c u.
            Returns-bind _ _ (λ latest. ltb latest (10 ^ 78) ≡ true) _
              (Returns-ask _ _ answers.latest)
              λ latest small.
                process_batches-Returns short signal all (latest - c.last_block) (suc c.last_block)
                  latest (enough latest c.last_block) small
      where
        enough : (a b : ℕ) → a < suc b + (a - b)
        enough a b = omega arith

    -- Where the servers do not fail, the node answers every question with numbers and hashes that
    -- fit their columns, the chain's id fits and nothing stops the run, the run returns, and the
    -- checkpoint is then exactly at the latest block that its first question was answered with, or
    -- where it was if it was past that block.
    pub process_chain_events-arrives :
        leb (length chain_id) 50 ≡ true
        → (signal : ℕ → Signal) → ((n : ℕ) → signal n ≡ elapsed)
        → (s : Store) → s.faults ≡ []
        → let out = process_chain_events node now signal chain_id factory s in
          let before = last_of chain_id s.tables.checkpoints in
          (out.0 ≡ ok tt)
          × ((latest : ℕ) × (node.latest s.tables.asked ≡ some latest)
              × (last_of chain_id out.1.tables.checkpoints
                  ≡ (if ltb latest before then before else latest)))
    process_chain_events-arrives short signal all s quiet =
        let m = process_chain_events node now signal chain_id factory in
        let r = Returns-eq m _ s (process_chain_events-Returns short signal all) quiet in
        (
          r.1,
          reached (m s) r.1 (
              (process_chain_events-Done node (IsAtLeast chain_id before)
                  (IsAtLeast-Stable node chain_id before) now signal chain_id factory before
                  s.tables.asked).at
                s (same_le, refl, refl)),
        )
      where
        before : ℕ
        before = last_of chain_id s.tables.checkpoints

        same_le : {n : ℕ} → n ≤ n
        same_le = omega arith

        exact :
            (a latest last : ℕ)
            → a ≤ last
            → latest ≤ last
            → (last ≡ a) ⊎ (last ≤ latest)
            → last ≡ (if ltb latest a then a else latest)
        exact a latest last h k (inl same) = ground (arith, h, k, same)
        exact a latest last h k (inr le) = ground (arith, h, k, le)

        reached :
            (o : Result IndexerError (Unit {0}) × Store)
            → o.0 ≡ ok tt
            → Post
                (λ u t.
                  Done node
                    (IsAtLeast chain_id before)
                    (IsAtLeast-Stable node chain_id before)
                    now
                    signal
                    chain_id
                    before
                    s.tables.asked
                    t.tables)
                (λ t. IsAtLeast chain_id before t.tables)
                o.0
                o.1
            → (latest : ℕ) × (node.latest s.tables.asked ≡ some latest)
              × (last_of chain_id o.1.tables.checkpoints
                  ≡ (if ltb latest before then before else latest))
        reached (ok u, t) e d =
            let end = d.2.1 all in
            (d.0, d.1, exact before d.0 (last_of chain_id t.tables.checkpoints) d.2.0 end.0 end.1)
        reached (err x, t) e d = absurd (cc)
