-- ===== src/Indexer/Runs.antt =====
-- The batches of a run: what they keep, and where the checkpoint ends.
use zuno_marketplace_api.Common.{
  ℕ, zero, suc, ◌≤◌, ◌<◌, Text, ◌≡◌, refl, ap, subst, ◌⊎◌, inl, inr, Bool, true, false, List, ◌∷◌,
  arith, ltb, Bool-cases, any, Exec,
}
use zuno_marketplace_api.Common.Faults.{OnTables, server_call, server_call-Triple}
use zuno_marketplace_api.Common.Keeps.{Keeps}
use zuno_marketplace_api.Common.Triple.{
  Triple, Post, Triple-bind, Triple-pure, Triple-fail, Triple-lose, Keeps→Triple,
}
use zuno_marketplace_api.Indexer.Model.{
  Checkpoint, LogFilter, IndexerError, Tables, Store, database_error,
}
use zuno_marketplace_api.Indexer.Checkpoints.{
  of_chain, fits, put_checkpoint, update_row, upsert_row, create_checkpoint, or_create,
  update_checkpoint,
}
use zuno_marketplace_api.Indexer.Client.{Node, get_block_by_number, get_logs, note_query}
use zuno_marketplace_api.Indexer.Service.{
  Signal, elapsed, context_done, stopped, filter, batch_end, process_logs, process_batch,
  then_unless, process_batches,
}
use zuno_marketplace_api.Indexer.Claims.{last_of, LogStable, ask-Keeps, process_logs-Keeps}
use zuno_marketplace_api.Indexer.Rows.{last_of-put}

-- What a run does to the tables: besides the logs, queries above the checkpoint of their chain and
-- checkpoints above the one before.
pub record Stable (node : Node) (P : Tables → Type 0) : Type 0 where
  pub logs : LogStable node P
  pub queried :
      (chain_id : Text) (f : LogFilter) (t : Tables)
      → last_of chain_id t.checkpoints < f.from_block
      → P t
      → P (record t { queries = (chain_id, f) ∷ t.queries })
  pub written :
      (checkpoint : Checkpoint) (t : Tables)
      → last_of checkpoint.chain_id t.checkpoints < checkpoint.last_block
      → P t
      → P (record t { checkpoints = put_checkpoint checkpoint t.checkpoints })

module _ (node : Node) (P : Tables → Type 0) (stable : Stable node P) where
  -- The claim, with the chain's last block before `n`, or at it.
  abbrev pub Below : Text → ℕ → Tables → Type 0
  Below chain_id n t = P t × (last_of chain_id t.checkpoints < n)

  abbrev pub At : Text → ℕ → Tables → Type 0
  At chain_id n t = P t × (last_of chain_id t.checkpoints ≡ n)

  Below-LogStable : (chain_id : Text) (n : ℕ) → LogStable node (Below chain_id n)
  Below-LogStable chain_id n = record {
    counted = λ t p. (stable.logs.counted t p.0, p.1);
    stored = λ event t fresh p. (stable.logs.stored event t fresh p.0, p.1);
    sent = λ now raw collection t known enough deep p.
        (stable.logs.sent now raw collection t known enough deep p.0, p.1);
  }

  put-At :
      (checkpoint : Checkpoint) (t : Tables)
      → Below checkpoint.chain_id checkpoint.last_block t
      → At checkpoint.chain_id checkpoint.last_block
          (record t { checkpoints = put_checkpoint checkpoint t.checkpoints })
  put-At checkpoint t (p, below) =
      (stable.written checkpoint t below p, last_of-put checkpoint t.checkpoints)

  abbrev Affected : Checkpoint → Bool → Tables → Type 0
  Affected c true = At c.chain_id c.last_block
  Affected c false = Below c.chain_id c.last_block

  update_row-Affected :
      (c : Checkpoint) (t : Tables)
      → Below c.chain_id c.last_block t
      → Post (Affected c) P (update_row c t).0 (update_row c t).1
  unfolding update_row
  update_row-Affected c t p = elim (Bool-cases (any (of_chain c.chain_id) t.checkpoints)) [
    | inl known ↦ elim (Bool-cases (fits c)) [
      | inl fit ↦
          let put = put-At c t p in
          rw (known, fit)
            (subst
              (λ (l : List Checkpoint). At c.chain_id c.last_block (record t { checkpoints = l }))
              (rw known refl) put)
      | inr bad ↦ rw (known, bad) (p.0)
    ]
    | inr fresh ↦ rw fresh p
  ]

  upsert_row-At :
      (c : Checkpoint) (t : Tables)
      → Below c.chain_id c.last_block t
      → Post (λ u. At c.chain_id c.last_block) P (upsert_row c t).0 (upsert_row c t).1
  unfolding upsert_row
  upsert_row-At c t p = elim (Bool-cases (fits c)) [
    | inl fit ↦ rw fit (put-At c t p)
    | inr bad ↦ rw bad (p.0)
  ]

  update_checkpoint-At :
      (now : ℕ) (c : Checkpoint)
      → Triple
          (OnTables (Below c.chain_id c.last_block))
          (update_checkpoint now c)
          (λ u. OnTables (At c.chain_id c.last_block))
          (OnTables P)
  unfolding update_checkpoint create_checkpoint
  update_checkpoint-At now c =
      let c' : Checkpoint = record c { updated_at = now } in
      Triple-bind (server_call database_error (update_row c')) _ (λ b. OnTables (Affected c' b)) _
        (server_call-Triple database_error (update_row c') (Below c.chain_id c.last_block)
          (Affected c') P (update_row-Affected c') (λ t p. p.0))
        created
    where
      created :
          (b : Bool)
          → Triple
              (OnTables (Affected (record c { updated_at = now }) b))
              (or_create b now c)
              (λ u. OnTables (At c.chain_id c.last_block))
              (OnTables P)
      created true = record { at = λ s p. p }
      created false =
          server_call-Triple database_error (upsert_row (record c { updated_at = now }))
            (Below c.chain_id c.last_block) (λ u. At c.chain_id c.last_block) P
            (upsert_row-At (record c { updated_at = now })) (λ t p. p.0)

  module _ (now : ℕ) where
    process_batch-At :
        (chain_id factory : Text) (from_block to_block : ℕ)
        → from_block ≤ to_block
        → Triple
            (OnTables (Below chain_id from_block))
            (process_batch node now chain_id factory from_block to_block)
            (λ u. OnTables (At chain_id to_block))
            (OnTables P)
    unfolding process_batch get_logs get_block_by_number
    process_batch-At chain_id factory from_block to_block le =
        let B = Below chain_id from_block in
        let logs_stable = Below-LogStable chain_id from_block in
        let question =
          λ (n : ℕ). node.filter_logs n (filter node now factory from_block to_block) in
        Triple-bind (get_logs node chain_id (filter node now factory from_block to_block)) _
          (λ _. OnTables B) _
          (lose (record {
            at = λ s p.
                (ask-Keeps node B logs_stable question).at
                  (note_query node chain_id (filter node now factory from_block to_block) s)
                  (
                    stable.queried chain_id (filter node now factory from_block to_block) s.tables
                        p.1 p.0,
                    p.1,
                  );
          }))
          λ logs.
            Triple-bind (process_logs node now chain_id logs) _ (λ _. OnTables B) _
              (lose (process_logs-Keeps node B logs_stable now chain_id logs))
              λ u.
                Triple-bind (get_block_by_number node to_block) _ (λ _. OnTables B) _
                  (lose (ask-Keeps node B logs_stable (λ n. node.block_hash n to_block)))
                  λ hash. record {
                    at = λ s p.
                        (update_checkpoint-At now (record {
                          chain_id = chain_id;
                          last_block = to_block;
                          last_block_hash = hash;
                          updated_at = now;
                        })).at
                          s (p.0, below p.1 le);
                  }
      where
        lose :
            {A : Type 0} {m : Exec Store IndexerError A}
            → Keeps (OnTables (Below chain_id from_block)) m
            → Triple
                (OnTables (Below chain_id from_block))
                m
                (λ _. OnTables (Below chain_id from_block))
                (OnTables P)
        lose {A} {m} k =
            Triple-lose m _ (Keeps→Triple (OnTables (Below chain_id from_block)) m k) (λ s p. p.0)

        below : {a b c : ℕ} → a < b → b ≤ c → a < c
        below h h' = omega arith

    -- The end of a run from block `start`: the claim, and, if nothing stops it, the checkpoint at the
    -- latest block, or still at the start if that is later.
    abbrev pub Reached : (ℕ → Signal) → Text → ℕ → ℕ → Tables → Type 0
    Reached signal chain_id start latest t =
        P t
        × (((n : ℕ) → signal n ≡ elapsed)
            → (latest ≤ last_of chain_id t.checkpoints)
              × ((last_of chain_id t.checkpoints ≡ start)
                  ⊎ (last_of chain_id t.checkpoints ≤ latest)))

    -- A batch begins after the start, or after a block of the chain.
    abbrev pub Begins : ℕ → ℕ → ℕ → Type 0
    Begins start from_block latest = (from_block ≡ suc start) ⊎ (from_block ≤ suc latest)

    abbrev pub Caught : Text → ℕ → Tables → Type 0
    Caught chain_id from_block t = P t × (suc (last_of chain_id t.checkpoints) ≡ from_block)

    then_unless-Reached :
        (signal : ℕ → Signal) (chain_id : Text) (start latest from_block to_block : ℕ)
        (rest : Exec Store IndexerError (Unit {0})) (found : Signal)
        → signal from_block ≡ found
        → Triple
            (OnTables (Caught chain_id (suc to_block)))
            rest
            (λ u. OnTables (Reached signal chain_id start latest))
            (OnTables P)
        → Triple
            (OnTables (At chain_id to_block))
            (then_unless node now found rest)
            (λ u. OnTables (Reached signal chain_id start latest))
            (OnTables P)
    then_unless-Reached signal chain_id start latest from_block to_block rest elapsed e h = record {
      at = λ s p. h.at s (p.0, ap suc p.1);
    }
    then_unless-Reached signal chain_id start latest from_block to_block rest context_done e h =
        record { at = λ s p. p.0 }
    then_unless-Reached signal chain_id start latest from_block to_block rest stopped e h = record {
      at = λ s p. (p.0, λ all. absurd (let a = all from_block in cc));
    }

    caught :
        {a b c start : ℕ}
        → ltb b c ≡ true
        → Begins start c b
        → suc a ≡ c
        → (b ≤ a) × ((a ≡ start) ⊎ (a ≤ b))
    caught over (inl first) e = (ground (arith, over, e), inl (omega arith))
    caught over (inr later) e = (ground (arith, over, e), inr (omega arith))

    before : {a b : ℕ} → suc a ≡ b → a < b
    before e = omega arith

    batch_end-le :
        (from_block latest : ℕ)
        → ltb latest from_block ≡ false
        → from_block ≤ batch_end node now from_block latest
    batch_end-le from_block latest h = ground (arith, h)

    batch_end-inside :
        (from_block latest : ℕ) → suc (batch_end node now from_block latest) ≤ suc latest
    batch_end-inside from_block latest = ground arith

    pub process_batches-Reached :
        (signal : ℕ → Signal) (fuel : ℕ) (chain_id factory : Text) (start from_block latest : ℕ)
        → Begins start from_block latest
        → Triple
            (OnTables (Caught chain_id from_block))
            (process_batches node now signal fuel chain_id factory from_block latest)
            (λ u. OnTables (Reached signal chain_id start latest))
            (OnTables P)
    unfolding process_batches
    process_batches-Reached signal zero chain_id factory start from_block latest begins =
        elim (Bool-cases (ltb latest from_block)) [
          | inl over ↦ rw over (Triple-pure tt _ λ s p. (p.0, λ all. caught over begins p.1))
          | inr more ↦ rw more (Triple-fail _ _ λ s p. p.0)
        ]
    process_batches-Reached signal (suc fuel) chain_id factory start from_block latest begins =
        let to_block = batch_end node now from_block latest in
        elim (Bool-cases (ltb latest from_block)) [
          | inl over ↦ rw over (Triple-pure tt _ λ s p. (p.0, λ all. caught over begins p.1))
          | inr more ↦ rw more (record {
            at = λ s p.
                (Triple-bind (process_batch node now chain_id factory from_block to_block) _
                    (λ u. OnTables (At chain_id to_block))
                    (λ u. OnTables (Reached signal chain_id start latest))
                    (process_batch-At chain_id factory from_block to_block
                      (batch_end-le from_block latest more))
                    λ u.
                      then_unless-Reached signal chain_id start latest from_block to_block _
                        (signal from_block) refl
                        (process_batches-Reached signal fuel chain_id factory start (suc to_block)
                          latest (inr (batch_end-inside from_block latest)))).at
                  s (p.0, before p.1);
          })
        ]
