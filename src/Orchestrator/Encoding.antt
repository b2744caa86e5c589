-- ===== src/Orchestrator/Encoding.antt =====
-- What the encoding of a PrepareCreateCollection gives, and what it does to the table.
use zuno_marketplace_api.Common.{
  ℕ, Text, codes, ◌≡◌, ◌≢◌, refl, ◌∙◌, ap, inl, inr, ◌||◌, List, Option, none, some, arith,
  Bool-cases, is_empty, ok, attempt, bind-eq-ok,
}
use zuno_marketplace_api.Orchestrator.Model.{
  IntentKind, failed, PrepareCreateCollectionInput, TxRequest, Store,
}
use zuno_marketplace_api.Orchestrator.Repo.{set_intent_status, update_status}
use zuno_marketplace_api.Orchestrator.Service.{
  World, Config, encode_create_collection, encoded, store_preview, tx_request, calldata, abi_of,
  method_name,
}
use zuno_marketplace_api.Orchestrator.Prepared.{IsCall}
use zuno_marketplace_api.Orchestrator.Effects.{set_intent_status_intents}

module _ (world : World) (config : Config) (now : ℕ) where
  abbrev packed : Text → PrepareCreateCollectionInput → Option (List ℕ)
  packed factory input =
      calldata world config now
        (abi_of world config now (world.get_abi_by_address input.chain_id factory))
        (method_name world config now input.collection_type) input

  -- What an encoding leaves: EncodeCreateCollection gives no preview address.
  pub encode-no_preview :
      (factory : Text) (input : PrepareCreateCollectionInput) (tx : TxRequest)
      → encode_create_collection world config now factory input ≡ some tx
      → tx.preview ≡ none
  unfolding encode_create_collection
  encode-no_preview factory input tx h =
      elim (Bool-cases (is_empty input.name || (is_empty input.symbol || is_empty input.creator))) [
        | inl blank ↦ absurd (no_request (rw blank at h))
        | inr full ↦ plain (packed factory input) (rw full at h)
      ]
    where
      no_request : ◌≢◌ {A = Option TxRequest} none (some tx)
      no_request e = cc

      plain :
          (o : Option (List ℕ))
          → tx_request world config now factory o ≡ some tx
          → tx.preview ≡ none
      plain none e = cc
      plain (some bytes) e = ground (arith, e)

  store_preview-none :
      (id : Text) (preview : Option Text) (s : Store)
      → preview ≡ none
      → (store_preview world config now id preview s).1 ≡ s
  store_preview-none id none s e = refl
  store_preview-none id (some address) s e = cc

  pub encoded-eq-ok :
      (id : Text) (kind : IntentKind) (chain_id : Text) (o : Option TxRequest) (s : Store)
      {pair : Text × TxRequest}
      → ((tx : TxRequest) → o ≡ some tx → tx.preview ≡ none)
      → (encoded world config now id kind chain_id o s).0 ≡ ok pair
      → (o ≡ some (pair.1))
        × (pair.0 ≡ id)
        × ((encoded world config now id kind chain_id o s).1.intents ≡ s.intents)
  encoded-eq-ok id kind chain_id none s plain h =
      let failing = update_status now id failed (some (codes "encode")) in
      let (r, ran, rest, e) = bind-eq-ok (attempt failing) _ s h in absurd (cc rest)
  encoded-eq-ok id kind chain_id (some tx) s plain h =
      let (u, stored, rest, e) = bind-eq-ok (store_preview world config now id tx.preview) _ s h in
      let s1 = (store_preview world config now id tx.preview s).1 in
      let (u, put, rest, e1) = bind-eq-ok (set_intent_status config.redis_works _) _ s1 rest in
      (
        ground (arith, rest),
        ground (arith, rest),
        ap (λ (t : Store). t.intents) (e ∙ e1)
            ∙ set_intent_status_intents config.redis_works _ s1
            ∙ ap (λ (t : Store). t.intents) (store_preview-none id tx.preview s (plain tx refl)),
      )

  -- The encoder's transaction is a call of the method.
  pub encode-IsCall :
      (factory method : Text) (input : PrepareCreateCollectionInput) (tx : TxRequest)
      → method_name world config now input.collection_type ≡ some method
      → encode_create_collection world config now factory input ≡ some tx
      → IsCall world config now input factory method tx
  unfolding encode_create_collection
  encode-IsCall factory method input tx m h =
      elim (Bool-cases (is_empty input.name || (is_empty input.symbol || is_empty input.creator))) [
        | inl blank ↦ absurd (no_request (rw blank at h))
        | inr full ↦ by_abi _ refl (rw (full, m) at h)
      ]
    where
      no_request : ◌≢◌ {A = Option TxRequest} none (some tx)
      no_request e = cc

      by_bytes :
          (json : Text) (abi : world.Abi) (o : Option (List ℕ))
          → world.get_abi_by_address input.chain_id factory ≡ some json
          → world.parse_abi json ≡ some abi
          → world.pack abi method input ≡ o
          → tx_request world config now factory o ≡ some tx
          → IsCall world config now input factory method tx
      by_bytes json abi none known parsed packed e = absurd (cc)
      by_bytes json abi (some bytes) known parsed packed e = record {
        to_factory = ground (arith, e);
        no_value = ground (arith, e);
        no_preview = ground (arith, e);
        json = json;
        known = known;
        abi = abi;
        parsed = parsed;
        packed = packed ∙ ground (arith, e);
      }

      by_parse :
          (json : Text) (o : Option world.Abi)
          → world.get_abi_by_address input.chain_id factory ≡ some json
          → world.parse_abi json ≡ o
          → tx_request world config now factory (calldata world config now o (some method) input)
            ≡ some tx
          → IsCall world config now input factory method tx
      by_parse json none known parsed e = absurd (no_request e)
      by_parse json (some abi) known parsed e = by_bytes json abi _ known parsed refl e

      by_abi :
          (o : Option Text)
          → world.get_abi_by_address input.chain_id factory ≡ o
          → tx_request world config now factory
              (calldata world config now (abi_of world config now o) (some method) input)
            ≡ some tx
          → IsCall world config now input factory method tx
      by_abi none known e = absurd (no_request e)
      by_abi (some json) known e = by_parse json _ known refl e
