-- ===== src/Indexer/Checkpoints.antt =====
-- services/indexer-service/internal/infrastructure/repository/checkpoint_repository.go
use Prim.Native.Nat.{◌^◌}
use zuno_marketplace_api.Common.{
  ℕ, suc, Text, Bool, true, false, not, ◌&&◌, List, [], ◌∷◌, map, Option, none, some, if◌then◌else◌,
  leb, ltb, length, any, find?, keep, text_eq, Result, ok, err, Exec, pure, ◌>>=◌, ◌>>◌,
}
use zuno_marketplace_api.Common.Faults.{server_call}
use zuno_marketplace_api.Indexer.Model.{Checkpoint, IndexerError, Tables, Store, database_error}

abbrev pub call :
    {A : Type 0} → (Tables → Result IndexerError A × Tables) → Exec Store IndexerError A
call run = server_call database_error run

abbrev pub of_chain : Text → Checkpoint → Bool
of_chain chain_id row = text_eq row.chain_id chain_id

-- VARCHAR(50), NUMERIC(78, 0) and VARCHAR(66).
unfoldable pub fits : Checkpoint → Bool
fits row =
    leb (length row.chain_id) 50
    && (ltb row.last_block (10 ^ 78) && leb (length row.last_block_hash) 66)

unfoldable pub select_checkpoint : Text → Tables → Result IndexerError (Option Checkpoint) × Tables
select_checkpoint chain_id t = (ok (find? (of_chain chain_id) t.checkpoints), t)

-- No row is the default checkpoint, before the first block.
abbrev pub or_default : ℕ → Text → Option Checkpoint → Checkpoint
or_default now chain_id none = record {
  chain_id = chain_id;
  last_block = 0;
  last_block_hash = [];
  updated_at = now;
}
or_default now chain_id (some row) = row

unfoldable pub get_checkpoint : ℕ → Text → Exec Store IndexerError Checkpoint
get_checkpoint now chain_id = do
  row ← call (select_checkpoint chain_id)
  pure (or_default now chain_id row)

-- The row of the chain with the new values, and the others.
abbrev pub replace : Checkpoint → Checkpoint → Checkpoint
replace checkpoint row = if of_chain checkpoint.chain_id row then checkpoint else row

-- UPDATE … WHERE chain_id = $1: was a row affected?
unfoldable pub update_row : Checkpoint → Tables → Result IndexerError Bool × Tables
update_row checkpoint t =
    if any (of_chain checkpoint.chain_id) t.checkpoints
    then (if fits checkpoint
        then (ok true, record t { checkpoints = map (replace checkpoint) t.checkpoints })
        else (err database_error, t))
    else (ok false, t)

abbrev pub put_checkpoint : Checkpoint → List Checkpoint → List Checkpoint
put_checkpoint checkpoint rows =
    if any (of_chain checkpoint.chain_id) rows
    then map (replace checkpoint) rows
    else checkpoint ∷ rows

-- INSERT … ON CONFLICT (chain_id) DO UPDATE
unfoldable pub upsert_row : Checkpoint → Tables → Result IndexerError (Unit {0}) × Tables
upsert_row checkpoint t =
    if fits checkpoint
    then (ok tt, record t { checkpoints = put_checkpoint checkpoint t.checkpoints })
    else (err database_error, t)

unfoldable pub create_checkpoint : ℕ → Checkpoint → Exec Store IndexerError (Unit {0})
create_checkpoint now checkpoint = call (upsert_row (record checkpoint { updated_at = now }))

-- `if rowsAffected == 0`
abbrev pub or_create : Bool → ℕ → Checkpoint → Exec Store IndexerError (Unit {0})
or_create true now checkpoint = pure tt
or_create false now checkpoint = create_checkpoint now checkpoint

unfoldable pub update_checkpoint : ℕ → Checkpoint → Exec Store IndexerError (Unit {0})
update_checkpoint now checkpoint = do
  affected ← call (update_row (record checkpoint { updated_at = now }))
  or_create affected now checkpoint

unfoldable pub set_checkpoint_to_block : ℕ → Text → ℕ → Text → Exec Store IndexerError (Unit {0})
set_checkpoint_to_block now chain_id block_number block_hash = update_checkpoint now (record {
  chain_id = chain_id;
  last_block = block_number;
  last_block_hash = block_hash;
  updated_at = now;
})

unfoldable pub begin_or_commit : Tables → Result IndexerError (Unit {0}) × Tables
begin_or_commit t = (ok tt, t)

-- The read and the write go past the transaction, to the pool.
unfoldable pub increment_checkpoint : ℕ → Text → Text → Exec Store IndexerError (Unit {0})
increment_checkpoint now chain_id block_hash = do
  call begin_or_commit
  checkpoint ← get_checkpoint now chain_id
  set_checkpoint_to_block now chain_id (suc checkpoint.last_block) block_hash
  call begin_or_commit

unfoldable pub delete_row : Text → Tables → Result IndexerError (Unit {0}) × Tables
delete_row chain_id t =
    if any (of_chain chain_id) t.checkpoints
    then (ok tt, record t { checkpoints = keep (λ row. not (of_chain chain_id row)) t.checkpoints })
    else (err database_error, t)

unfoldable pub delete_checkpoint : Text → Exec Store IndexerError (Unit {0})
delete_checkpoint chain_id = call (delete_row chain_id)

unfoldable pub get_last_processed_block : ℕ → Text → Exec Store IndexerError ℕ
get_last_processed_block now chain_id = do
  checkpoint ← get_checkpoint now chain_id
  pure checkpoint.last_block
