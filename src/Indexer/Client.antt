-- ===== src/Indexer/Client.antt =====
-- services/indexer-service/internal/infrastructure/blockchain/client.go
use zuno_marketplace_api.Common.{
  ℕ, zero, suc, ◌-◌, Text, codes, List, [], ◌∷◌, ◌++◌, Option, none, some, if◌then◌else◌, ltb, ◌==◌,
  length, Exec, pure, fail, ◌>>=◌,
}
use zuno_marketplace_api.Indexer.Model.{
  CollectionCreatedEvent, Log, LogFilter, IndexerError, Store, node_error, insufficient_topics,
}

-- The node behind the RPC client, an answer for each question by its number: what it says may
-- change from one to the next.
pub record Node : Type 0 where
  pub latest : ℕ → Option ℕ
  pub filter_logs : ℕ → LogFilter → Option (List Log)
  pub block_hash : ℕ → ℕ → Option Text

abbrev pub answer : {A : Type 0} → Option A → Exec Store IndexerError A
answer none = fail node_error
answer (some a) = pure a

abbrev pub count_question : Store → Store
count_question s = record s { tables = record (s.tables) { asked = suc s.tables.asked } }

unfoldable pub ask : {A : Type 0} → (ℕ → Option A) → Exec Store IndexerError A
ask question s = answer (question s.tables.asked) (count_question s)

-- The last 40 digits of a topic of 66 characters.
abbrev pub drop : {A : Type 0} → ℕ → List A → List A
drop zero l = l
drop (suc n) [] = []
drop (suc n) (x ∷ l) = drop n l

unfoldable pub address_from_topic : Text → Text
address_from_topic topic = if length topic == 66 then codes "0x" ++ drop 26 topic else []

abbrev pub parsed_topics : List Text → Option CollectionCreatedEvent
parsed_topics (signature ∷ collection ∷ creator ∷ rest) = some (record {
  collection_address = address_from_topic collection;
  creator = address_from_topic creator;
  name = [];
  symbol = [];
  collection_type = codes "ERC721";
  max_supply = 0;
  royalty_recipient = address_from_topic creator;
  royalty_percentage = 0;
})
parsed_topics _ = none

abbrev pub or_insufficient :
    Option CollectionCreatedEvent → Exec Store IndexerError CollectionCreatedEvent
or_insufficient none = fail insufficient_topics
or_insufficient (some event) = pure event

unfoldable pub parse_collection_created_log : Log → Exec Store IndexerError CollectionCreatedEvent
parse_collection_created_log log = or_insufficient (parsed_topics log.topics)

module _ (node : Node) where
  unfoldable pub get_latest_block : Exec Store IndexerError ℕ
  get_latest_block = ask node.latest

  unfoldable pub get_block_by_number : ℕ → Exec Store IndexerError Text
  get_block_by_number number = ask (λ n. node.block_hash n number)

  abbrev pub note_query : Text → LogFilter → Store → Store
  note_query chain_id filter s = record s {
    tables = record (s.tables) { queries = (chain_id, filter) ∷ s.tables.queries };
  }

  unfoldable pub get_logs : Text → LogFilter → Exec Store IndexerError (List Log)
  get_logs chain_id filter s = ask (λ n. node.filter_logs n filter) (note_query chain_id filter s)

  -- The block itself is the first confirmation; a block to come has none.
  unfoldable pub confirmations_at : ℕ → ℕ → ℕ
  confirmations_at block latest = if ltb latest block then 0 else suc (latest - block)

  unfoldable pub get_confirmations : ℕ → Exec Store IndexerError ℕ
  get_confirmations block = do latest ← get_latest_block; pure (confirmations_at block latest)
