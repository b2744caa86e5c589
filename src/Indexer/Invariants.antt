-- ===== src/Indexer/Invariants.antt =====
-- What runs keep of the tables: checkpoints do not go back, an event has one document, a message
-- has a confirmed event, and no node is queried for the logs of blocks that a checkpoint has passed.
use zuno_marketplace_api.Common.{
  ℕ, ◌≤◌, ◌<◌, Text, ◌≡◌, refl, sym, ap, subst, inl, inr, true, false, List, [], ◌∷◌, ◌++◌, arith,
  Bool-cases, any, text_eq, text_eq_iff,
}
use zuno_marketplace_api.Indexer.Model.{
  Checkpoint, RawEvent, PublishableEvent, LogFilter, Tables, Store,
}
use zuno_marketplace_api.Indexer.Checkpoints.{put_checkpoint}
use zuno_marketplace_api.Indexer.Events.{same_key, publishable}
use zuno_marketplace_api.Indexer.Client.{Node}
use zuno_marketplace_api.Indexer.Service.{Signal, get_required_confirmations, process_chain_events}
use zuno_marketplace_api.Indexer.Claims.{last_of, IsConfirmed}
use zuno_marketplace_api.Indexer.Rows.{last_of-put, last_of-put_other}
use zuno_marketplace_api.Indexer.Runs.{Stable}
use zuno_marketplace_api.Indexer.Progress.{process_chain_events-Keeps}

abbrev pub IsAtLeast : Text → ℕ → Tables → Type 0
IsAtLeast chain_id n t = n ≤ last_of chain_id t.checkpoints

put-IsAtLeast :
    (chain_id : Text) (n : ℕ) (checkpoint : Checkpoint) (rows : List Checkpoint)
    → last_of checkpoint.chain_id rows < checkpoint.last_block
    → n ≤ last_of chain_id rows
    → n ≤ last_of chain_id (put_checkpoint checkpoint rows)
put-IsAtLeast chain_id n checkpoint rows more le =
    elim (Bool-cases (text_eq checkpoint.chain_id chain_id)) [
      | inl same ↦
          subst (λ (c : Text). n ≤ last_of c (put_checkpoint checkpoint rows))
            ((text_eq_iff _ _).0 same)
            (rw (last_of-put checkpoint rows) (
              up (subst (λ (c : Text). n ≤ last_of c rows) (sym ((text_eq_iff _ _).0 same)) le)
                more))
      | inr other ↦ rw (last_of-put_other checkpoint chain_id rows other) le
    ]
  where
    up : {a b c : ℕ} → a ≤ b → b < c → a ≤ c
    up h h' = omega arith

pub IsAtLeast-Stable : (node : Node) (chain_id : Text) (n : ℕ) → Stable node (IsAtLeast chain_id n)
IsAtLeast-Stable node chain_id n = record {
  logs = record {
    counted = λ t p. p;
    stored = λ event t fresh p. p;
    sent = λ now raw collection t known enough deep p. p;
  };
  queried = λ c f t above p. p;
  written = λ checkpoint t more p. put-IsAtLeast chain_id n checkpoint t.checkpoints more p;
}

-- No event of the list has the key of another.
pub data HasUniqueKeys : List RawEvent → Type 0 where
  none_ : HasUniqueKeys []
  more :
      (event : RawEvent) (events : List RawEvent)
      → any (same_key event) events ≡ false
      → HasUniqueKeys events
      → HasUniqueKeys (event ∷ events)

abbrev OneDocument : Tables → Type 0
OneDocument t = HasUniqueKeys t.events

OneDocument-Stable : (node : Node) → Stable node OneDocument
OneDocument-Stable node = record {
  logs = record {
    counted = λ t p. p;
    stored = λ event t fresh p. more event t.events fresh p;
    sent = λ now raw collection t known enough deep p. p;
  };
  queried = λ c f t above p. p;
  written = λ checkpoint t more p. p;
}

-- A message carries an event whose key is stored, with the confirmations its chain asks for, which an
-- answer of the node on its latest block gives the event's block.
pub record IsFounded (node : Node) (events : List RawEvent) (message : PublishableEvent)
    : Type 0 where
  pub known : any (same_key message.raw) events ≡ true
  pub enough : get_required_confirmations message.chain_id ≤ message.raw.confirmations
  pub confirmed : IsConfirmed node message.chain_id message.raw.block_number
  pub same_chain : message.raw.chain_id ≡ message.chain_id
  pub same_tx : message.raw.tx_hash ≡ message.tx_hash

pub data AreFounded (node : Node) (events : List RawEvent) : List PublishableEvent → Type 0 where
  no_message : AreFounded node events []
  message :
      (m : PublishableEvent) (ms : List PublishableEvent)
      → IsFounded node events m
      → AreFounded node events ms
      → AreFounded node events (m ∷ ms)

-- A new event takes nothing from the messages.
AreFounded-∷ :
    {node : Node} (event : RawEvent) {events : List RawEvent} {ms : List PublishableEvent}
    → AreFounded node events ms
    → AreFounded node (event ∷ events) ms
AreFounded-∷ event no_message = no_message
AreFounded-∷ event (message m ms f fs) =
    message m ms
      (record {
        known = let k = f.known in ground (arith, k);
        enough = f.enough;
        confirmed = f.confirmed;
        same_chain = f.same_chain;
        same_tx = f.same_tx;
      })
      (AreFounded-∷ event fs)

abbrev Founded : Node → Tables → Type 0
Founded node t = AreFounded node t.events t.published

Founded-Stable : (node : Node) → Stable node (Founded node)
Founded-Stable node = record {
  logs = record {
    counted = λ t p. p;
    stored = λ event t fresh p. AreFounded-∷ event p;
    sent = λ now raw collection t known enough deep p.
        message (publishable now raw.chain_id raw collection) t.published
          (record {
            known = known;
            enough = enough;
            confirmed = deep;
            same_chain = refl;
            same_tx = refl;
          })
          p;
  };
  queried = λ c f t above p. p;
  written = λ checkpoint t more p. p;
}

-- The queries of the chain among these begin above block `n`.
pub data AreAbove (chain_id : Text) (n : ℕ) : List (Text × LogFilter) → Type 0 where
  no_query : AreAbove chain_id n []
  query :
      (c : Text) (f : LogFilter) (queries : List (Text × LogFilter))
      → (c ≡ chain_id → n < f.from_block)
      → AreAbove chain_id n queries
      → AreAbove chain_id n ((c, f) ∷ queries)

-- Since the queries `old`, only queries above block `n`, which the checkpoint has reached.
pub record IsAsking (chain_id : Text) (n : ℕ) (old : List (Text × LogFilter)) (t : Tables)
    : Type 0 where
  pub new : List (Text × LogFilter)
  pub queries : t.queries ≡ new ++ old
  pub above : AreAbove chain_id n new
  pub reached : n ≤ last_of chain_id t.checkpoints

IsAsking-Stable :
    (node : Node) (chain_id : Text) (n : ℕ) (old : List (Text × LogFilter))
    → Stable node (IsAsking chain_id n old)
IsAsking-Stable node chain_id n old = record {
  logs = record {
    counted =
        λ t p. record { new = p.new; queries = p.queries; above = p.above; reached = p.reached };
    stored = λ event t fresh p. record {
      new = p.new;
      queries = p.queries;
      above = p.above;
      reached = p.reached;
    };
    sent = λ now raw collection t known enough deep p. record {
      new = p.new;
      queries = p.queries;
      above = p.above;
      reached = p.reached;
    };
  };
  queried = λ c f t before p. record {
    new = (c, f) ∷ p.new;
    queries = ap (λ (l : List (Text × LogFilter)). (c, f) ∷ l) p.queries;
    above =
        query c f p.new
          (λ e. up (subst (λ (d : Text). n ≤ last_of d t.checkpoints) (sym e) p.reached) before)
          p.above;
    reached = p.reached;
  };
  written = λ checkpoint t more p. record {
    new = p.new;
    queries = p.queries;
    above = p.above;
    reached = put-IsAtLeast chain_id n checkpoint t.checkpoints more p.reached;
  };
}
  where
    up : {a b c : ℕ} → a ≤ b → b < c → a < c
    up h h' = omega arith

module _ (node : Node) (now : ℕ) (signal : ℕ → Signal) (chain_id factory : Text) (s : Store) where
  -- Whatever fails during a run, and however it ends, no chain's checkpoint goes back to an earlier
  -- block.
  pub process_chain_events-IsAtLeast :
      (other : Text)
      → last_of other s.tables.checkpoints
        ≤ last_of other
            (process_chain_events node now signal chain_id factory s).1.tables.checkpoints
  process_chain_events-IsAtLeast other =
      (process_chain_events-Keeps node (IsAtLeast other (last_of other s.tables.checkpoints))
          (IsAtLeast-Stable node other _) now signal chain_id factory).at
        s refl_le
    where
      refl_le : {n : ℕ} → n ≤ n
      refl_le = omega arith

  -- Where no two stored events have a chain, a transaction hash and a log index in common, none have
  -- after a run, whatever logs the node answers with and whatever fails.
  pub process_chain_events-HasUniqueKeys :
      HasUniqueKeys s.tables.events
      → HasUniqueKeys (process_chain_events node now signal chain_id factory s).1.tables.events
  process_chain_events-HasUniqueKeys h =
      (process_chain_events-Keeps node OneDocument (OneDocument-Stable node) now signal chain_id
          factory).at
        s h

  -- Where each published message carries an event whose key is stored, with at least the
  -- confirmations that its chain asks for, and a latest block that the node has answered gives the
  -- event's block that many, so it is after a run, however it ends.
  pub process_chain_events-AreFounded :
      AreFounded node s.tables.events s.tables.published
      → AreFounded node
          (process_chain_events node now signal chain_id factory s).1.tables.events
          (process_chain_events node now signal chain_id factory s).1.tables.published
  process_chain_events-AreFounded h =
      (process_chain_events-Keeps node (Founded node) (Founded-Stable node) now signal chain_id
          factory).at
        s h

  -- A run queries the node for the logs of no block at or below the checkpoint a chain had before it:
  -- the queries for logs that it adds for the chain begin above.
  pub process_chain_events-IsAsking :
      (other : Text)
      → IsAsking other
          (last_of other s.tables.checkpoints)
          s.tables.queries
          (process_chain_events node now signal chain_id factory s).1.tables
  process_chain_events-IsAsking other =
      (process_chain_events-Keeps node
          (IsAsking other (last_of other s.tables.checkpoints) s.tables.queries)
          (IsAsking-Stable node other _ _) now signal chain_id factory).at
        s (record { new = []; queries = refl; above = no_query; reached = refl_le })
    where
      refl_le : {n : ℕ} → n ≤ n
      refl_le = omega arith
