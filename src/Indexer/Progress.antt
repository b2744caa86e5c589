-- ===== src/Indexer/Progress.antt =====
-- A run for a chain: what it keeps, and where the checkpoint ends.
use zuno_marketplace_api.Common.{
  ℕ, suc, ◌-◌, Text, ◌≡◌, refl, sym, ◌∙◌, ap, inl, Option, none, some, find?, Result, ok, err,
}
use zuno_marketplace_api.Common.Faults.{OnTables, server_call-Triple}
use zuno_marketplace_api.Common.Keeps.{Keeps}
use zuno_marketplace_api.Common.Triple.{Triple, Post, Triple-bind, Triple-pure, Triple-weaken}
use zuno_marketplace_api.Indexer.Model.{Checkpoint, IndexerError, Tables, Store, database_error}
use zuno_marketplace_api.Indexer.Checkpoints.{
  of_chain, call, select_checkpoint, get_checkpoint, or_default,
}
use zuno_marketplace_api.Indexer.Client.{Node, answer, count_question, ask, get_latest_block}
use zuno_marketplace_api.Indexer.Service.{Signal, process_chain_events}
use zuno_marketplace_api.Indexer.Claims.{last_of}
use zuno_marketplace_api.Indexer.Runs.{Stable, Caught, Reached, process_batches-Reached}

module _ (node : Node) (P : Tables → Type 0) (stable : Stable node P) (now : ℕ) where
  -- What a run that returns leaves, when its first question is the `n`th and it begins after block
  -- `start`.
  abbrev pub Done : (ℕ → Signal) → Text → ℕ → ℕ → Tables → Type 0
  Done signal chain_id start n t =
      (latest : ℕ) × (node.latest n ≡ some latest)
      × Reached node P stable now signal chain_id start latest t

  abbrev Before : Text → ℕ → ℕ → Tables → Type 0
  Before chain_id start n t = P t × (t.asked ≡ n) × (last_of chain_id t.checkpoints ≡ start)

  abbrev Read : Text → ℕ → ℕ → ℕ → Tables → Type 0
  Read chain_id start n last t =
      P t × (t.asked ≡ n) × (last_of chain_id t.checkpoints ≡ last) × (last ≡ start)

  get_checkpoint-Read :
      (chain_id : Text) (start n : ℕ)
      → Triple
          (OnTables (Before chain_id start n))
          (get_checkpoint now chain_id)
          (λ c. OnTables (Read chain_id start n c.last_block))
          (OnTables P)
  unfolding get_checkpoint select_checkpoint
  get_checkpoint-Read chain_id start n =
      Triple-bind (call (select_checkpoint chain_id)) _
        (λ row. OnTables (Read chain_id start n (or_default now chain_id row).last_block)) _
        (server_call-Triple database_error (select_checkpoint chain_id) _
          (λ row. Read chain_id start n (or_default now chain_id row).last_block) P
          (λ t p.
            let e = last_eq (find? (of_chain chain_id) t.checkpoints) in (p.0, p.1, e, sym e ∙ p.2))
          (λ t p. p.0))
        λ row. Triple-pure _ _ λ s p. p
    where
      last_eq :
          (o : Option Checkpoint)
          → (or_default 0 chain_id o).last_block ≡ (or_default now chain_id o).last_block
      last_eq none = refl
      last_eq (some c) = refl

  get_latest_block-Read :
      (chain_id : Text) (start n last : ℕ)
      → Triple
          (OnTables (Read chain_id start n last))
          (get_latest_block node)
          (λ latest. OnTables (λ t.
            (node.latest n ≡ some latest)
            × Caught node P stable now chain_id (suc last) t
            × (last ≡ start)))
          (OnTables P)
  unfolding get_latest_block ask
  get_latest_block-Read chain_id start n last = record {
    at = λ s p. answered (node.latest s.tables.asked) s (ap node.latest (sym p.1)) p;
  }
    where
      answered :
          (o : Option ℕ) (s : Store)
          → node.latest n ≡ o
          → OnTables (Read chain_id start n last) s
          → Post
              (λ latest. OnTables (λ t.
                (node.latest n ≡ some latest)
                × Caught node P stable now chain_id (suc last) t
                × (last ≡ start)))
              (OnTables P)
              (answer o (count_question s)).0
              (answer o (count_question s)).1
      answered none s e p = stable.logs.counted s.tables p.0
      answered (some latest) s e p = (e, (stable.logs.counted s.tables p.0, ap suc p.2), p.3)

  -- Whatever fails, a run keeps the claim, and one that returns has reached the latest block.
  pub process_chain_events-Done :
      (signal : ℕ → Signal) (chain_id factory : Text) (start n : ℕ)
      → Triple
          (OnTables (Before chain_id start n))
          (process_chain_events node now signal chain_id factory)
          (λ u. OnTables (Done signal chain_id start n))
          (OnTables P)
  unfolding process_chain_events
  process_chain_events-Done signal chain_id factory start n =
      Triple-bind (get_checkpoint now chain_id) _
        (λ c. OnTables (Read chain_id start n c.last_block)) _
        (get_checkpoint-Read chain_id start n)
        λ c.
          Triple-bind (get_latest_block node) _
            (λ latest. OnTables (λ t.
              (node.latest n ≡ some latest)
              × Caught node P stable now chain_id (suc c.last_block) t
              × (c.last_block ≡ start)))
            _ (get_latest_block-Read chain_id start n c.last_block)
            λ latest. record {
              at = λ s p.
                  (Triple-weaken _ _ _
                      (process_batches-Reached node P stable now signal (latest - c.last_block)
                        chain_id factory start (suc c.last_block) latest (inl (ap suc p.2)))
                      λ u s r. (latest, p.0, r)).at
                    s p.1;
            }

  pub process_chain_events-Keeps :
      (signal : ℕ → Signal) (chain_id factory : Text)
      → Keeps (OnTables P) (process_chain_events node now signal chain_id factory)
  process_chain_events-Keeps signal chain_id factory = record {
    at = λ s p.
        kept (last_of chain_id s.tables.checkpoints) s.tables.asked _ _
          ((process_chain_events-Done signal chain_id factory _ _).at s (p, refl, refl));
  }
    where
      kept :
          (start n : ℕ) (r : Result IndexerError (Unit {0})) (s : Store)
          → Post (λ u. OnTables (Done signal chain_id start n)) (OnTables P) r s
          → OnTables P s
      kept start n (ok u) s p = p.2.0
      kept start n (err e) s p = p
