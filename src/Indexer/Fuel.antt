-- ===== src/Indexer/Fuel.antt =====
-- The fuel of a run is enough: it never ends for lack of it.
use zuno_marketplace_api.Common.{
  ℕ, zero, suc, ◌<◌, ◌+◌, ◌-◌, Text, ◌≡◌, ◌≢◌, inl, inr, Bool, true, false, List, [], ◌∷◌, Option,
  none, some, arith, ltb, head_or_false, Bool-cases, Result, ok, err, Exec, pure, fail, ◌>>=◌,
}
use zuno_marketplace_api.Common.Faults.{server_call}
use zuno_marketplace_api.Indexer.Model.{
  Checkpoint, Log, IndexerError, Tables, Store, cancelled, out_of_fuel,
}
use zuno_marketplace_api.Indexer.Checkpoints.{
  call, select_checkpoint, get_checkpoint, update_row, upsert_row, create_checkpoint, or_create,
  update_checkpoint,
}
use zuno_marketplace_api.Indexer.Client.{
  Node, answer, count_question, ask, note_query, get_latest_block, get_block_by_number, get_logs,
}
use zuno_marketplace_api.Indexer.Service.{
  Signal, elapsed, context_done, stopped, filter, batch_end, process_logs, process_batch,
  then_unless, process_batches, process_chain_events,
}

-- Code that does not run out of fuel.
pub record IsFueled {A : Type 0} (m : Exec Store IndexerError A) : Type 0 where
  pub at : (s : Store) → (m s).0 ≢ err out_of_fuel

module _ {A : Type 0} where
  IsFueled-pure : (a : A) → IsFueled (pure a)
  IsFueled-pure a = record { at = λ s h. cc }

  IsFueled-fail : (e : IndexerError) → e ≢ out_of_fuel → IsFueled (fail {A = A} e)
  IsFueled-fail e h = record { at = λ s k. h (cc) }

  IsFueled-bind :
      {B : Type 0} (m : Exec Store IndexerError A) (f : A → Exec Store IndexerError B)
      → IsFueled m
      → ((a : A) → IsFueled (f a))
      → IsFueled (m >>= f)
  unfolding ◌>>=◌
  IsFueled-bind {B} m f h k = record { at = λ s. after (m s) (h.at s) }
    where
      after :
          (r : Result IndexerError A × Store)
          → r.0 ≢ err out_of_fuel
          → (((λ (s : Store). r) >>= f) r.1).0 ≢ err out_of_fuel
      after (ok a, s) h = (k a).at s
      after (err e, s) h = λ q. h (cc)

  IsFueled-call :
      (run : Tables → Result IndexerError A × Tables)
      → ((t : Tables) → (run t).0 ≢ err out_of_fuel)
      → IsFueled (call run)
  unfolding server_call
  IsFueled-call run h = record {
    at = λ s. elim (Bool-cases (head_or_false s.faults)) [
      | inl no_ ↦ rw no_ λ q. cc
      | inr yes_ ↦ rw yes_ (h s.tables)
    ];
  }

  IsFueled-ask : (question : ℕ → Option A) → IsFueled (ask question)
  unfolding ask
  IsFueled-ask question = record { at = λ s. asked (question s.tables.asked) (count_question s) }
    where
      asked : (o : Option A) (s : Store) → (answer o s).0 ≢ err out_of_fuel
      asked none s h = cc
      asked (some a) s h = cc

update_row-fueled : (c : Checkpoint) (t : Tables) → (update_row c t).0 ≢ err out_of_fuel
unfolding update_row
update_row-fueled c t h = ground (arith, h)

upsert_row-fueled : (c : Checkpoint) (t : Tables) → (upsert_row c t).0 ≢ err out_of_fuel
unfolding upsert_row
upsert_row-fueled c t h = ground (arith, h)

update_checkpoint-IsFueled : (now : ℕ) (c : Checkpoint) → IsFueled (update_checkpoint now c)
unfolding update_checkpoint create_checkpoint
update_checkpoint-IsFueled now c = IsFueled-bind _ _ (IsFueled-call _ (update_row-fueled _)) created
  where
    created : (b : Bool) → IsFueled (or_create b now c)
    created true = IsFueled-pure tt
    created false = IsFueled-call _ (upsert_row-fueled _)

module _ (node : Node) (now : ℕ) where
  process_logs-IsFueled :
      (chain_id : Text) (logs : List Log) → IsFueled (process_logs node now chain_id logs)
  unfolding process_logs
  process_logs-IsFueled chain_id [] = IsFueled-pure tt
  process_logs-IsFueled chain_id (log ∷ logs) =
      IsFueled-bind _ _ (record { at = λ s h. cc }) λ _. process_logs-IsFueled chain_id logs

  process_batch-IsFueled :
      (chain_id factory : Text) (from_block to_block : ℕ)
      → IsFueled (process_batch node now chain_id factory from_block to_block)
  unfolding process_batch get_logs get_block_by_number
  process_batch-IsFueled chain_id factory from_block to_block =
      IsFueled-bind _ _
        (record {
          at = λ s.
              (IsFueled-ask
                  (λ n. node.filter_logs n (filter node now factory from_block to_block))).at
                (note_query node chain_id (filter node now factory from_block to_block) s);
        })
        λ logs.
          IsFueled-bind _ _ (process_logs-IsFueled chain_id logs)
            λ u. IsFueled-bind _ _ (IsFueled-ask _) λ hash. update_checkpoint-IsFueled now _

  then_unless-IsFueled :
      (found : Signal) (rest : Exec Store IndexerError (Unit {0}))
      → IsFueled rest
      → IsFueled (then_unless node now found rest)
  then_unless-IsFueled elapsed rest h = h
  then_unless-IsFueled context_done rest h = IsFueled-fail cancelled (λ q. cc)
  then_unless-IsFueled stopped rest h = IsFueled-pure tt

  process_batches-IsFueled :
      (signal : ℕ → Signal) (fuel : ℕ) (chain_id factory : Text) (from_block latest : ℕ)
      → latest < from_block + fuel
      → IsFueled (process_batches node now signal fuel chain_id factory from_block latest)
  unfolding process_batches
  process_batches-IsFueled signal zero chain_id factory from_block latest h =
      let over : ltb latest from_block ≡ true = ground (arith, h) in rw over (IsFueled-pure tt)
  process_batches-IsFueled signal (suc fuel) chain_id factory from_block latest h =
      elim (Bool-cases (ltb latest from_block)) [
        | inl over ↦ rw over (IsFueled-pure tt)
        | inr more ↦ rw more (record {
          at =
              (IsFueled-bind _ _
                (process_batch-IsFueled chain_id factory from_block
                  (batch_end node now from_block latest))
                λ u. then_unless-IsFueled (signal from_block) _ (
                  process_batches-IsFueled signal fuel chain_id factory
                    (suc (batch_end node now from_block latest)) latest
                    (ground (arith, h, more)))).at;
        })
      ]

  run-IsFueled :
      (signal : ℕ → Signal) (chain_id factory : Text)
      → IsFueled (process_chain_events node now signal chain_id factory)
  unfolding process_chain_events get_checkpoint get_latest_block select_checkpoint
  run-IsFueled signal chain_id factory =
      IsFueled-bind _ _ (IsFueled-bind _ _ (IsFueled-call _ (λ t h. cc)) λ row. IsFueled-pure _)
        λ c. IsFueled-bind _ _ (IsFueled-ask _) λ latest.
          process_batches-IsFueled signal (latest - c.last_block) chain_id factory
            (suc c.last_block) latest (enough latest c.last_block)
    where
      enough : (a b : ℕ) → a < suc b + (a - b)
      enough a b = omega arith

  -- A run never lacks fuel: one unit for each block after the checkpoint's covers the batches,
  -- whatever the node, the signals and the failures are.
  pub process_chain_events-fueled :
      (signal : ℕ → Signal) (chain_id factory : Text) (s : Store)
      → (process_chain_events node now signal chain_id factory s).0 ≢ err out_of_fuel
  process_chain_events-fueled signal chain_id factory s =
      (run-IsFueled signal chain_id factory).at s
