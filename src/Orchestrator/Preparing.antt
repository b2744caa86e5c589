-- ===== src/Orchestrator/Preparing.antt =====
-- PrepareCreateCollection: what it leaves when it succeeds.
use mathlib.Core.Bool.{false≢true}
use zuno_marketplace_api.Common.{
  ℕ, Text, codes, ◌≡◌, ◌≢◌, refl, sym, ◌∙◌, ap, subst, inl, inr, true, false, not, ◌&&◌, ◌||◌, List,
  ◌∷◌, Option, none, some, arith, Bool-cases, any, find?, is_empty, text_eq, text_eq_iff, Result,
  ok, err, attempt, require, bind-eq-ok, bind-eq-ok_same, require-eq-ok,
}
use zuno_marketplace_api.Common.Keeps.{Keeps-bind, Keeps-pure, Keeps-attempt}
use zuno_marketplace_api.Orchestrator.Model.{
  Intent, collection, std_erc721, std_erc1155, PrepareCreateCollectionInput, TxRequest, Audit,
  OrchestratorError, Store, invalid_collection, contracts_unavailable, factory_not_found,
}
use zuno_marketplace_api.Orchestrator.Validate.{validate_create_collection_input, is_supported}
use zuno_marketplace_api.Orchestrator.Repo.{
  call, has_id, fits_columns, insert_intent, create, insert_audit, insert_session_intent_audit,
}
use zuno_marketplace_api.Orchestrator.Service.{
  World, Config, found, factory_name, get_factory_address_and_type, link_session,
  encode_create_collection, audit_session, collection_intent, method_name,
  prepare_create_collection, first_value,
}
use zuno_marketplace_api.Orchestrator.Prepared.{
  Creates, erc721, erc1155, IsPrepared, Factory, IsCall, Linked,
}
use zuno_marketplace_api.Orchestrator.Encoding.{encode-no_preview, encoded-eq-ok, encode-IsCall}
use zuno_marketplace_api.Orchestrator.Effects.{next, call-eq-ok}

insert_intent-eq-ok :
    (intent : Intent) (s : Store) {u : Unit {0}}
    → (insert_intent intent s).0 ≡ ok u
    → (any (has_id intent.id) s.intents ≡ false)
      × ((insert_intent intent s).1.intents ≡ intent ∷ s.intents)
unfolding insert_intent
insert_intent-eq-ok intent s h =
    elim (Bool-cases (any (has_id intent.id) s.intents || not (fits_columns intent))) [
      | inl bad ↦ absurd (ground (arith, h, bad))
      | inr good ↦ (ground (arith, good), rw good refl)
    ]

create-eq-ok :
    (intent : Intent) (s : Store) {u : Unit {0}}
    → (create intent s).0 ≡ ok u
    → (any (has_id intent.id) s.intents ≡ false)
      × ((create intent s).1.intents ≡ intent ∷ s.intents)
unfolding create
create-eq-ok intent s h =
    let (ran, same) = call-eq-ok (insert_intent intent) s h in
    let (fresh, left) = insert_intent-eq-ok intent (next s) ran in
    (fresh, ap (λ (r : Result OrchestratorError (Unit {0}) × Store). r.1.intents) same ∙ left)

insert_audit_intents :
    (audit : Audit) (s : Store) → (call (insert_audit audit) s).1.intents ≡ s.intents
unfolding call insert_audit
insert_audit_intents audit s = ground arith

module _ (world : World) (config : Config) (now : ℕ) where
  audit_session_intents :
      (session : Option Text) (id : Text) (user_id : Option Text) (s : Store)
      → (audit_session world config now session id user_id s).1.intents ≡ s.intents
  unfolding insert_session_intent_audit
  audit_session_intents none id user_id s = refl
  audit_session_intents (some session) id user_id s =
      let audit : Audit = record { session_id = session; intent_id = id; user_id = user_id } in
      let insert = call (insert_audit audit) in
      (Keeps-bind {P = λ t. t.intents ≡ s.intents} (attempt insert) _
          (Keeps-attempt insert (record { at = λ t e. insert_audit_intents audit t ∙ e }))
          (λ r. Keeps-pure tt)).at
        s refl

  found-eq-ok :
      {A : Type 0} (o : Option A) (e : OrchestratorError) (s : Store) {a : A}
      → (found world config now o e s).0 ≡ ok a
      → (o ≡ some a) × ((found world config now o e s).1 ≡ s)
  found-eq-ok none e s h = cc
  found-eq-ok (some a) e s h = (ground (arith, h), refl)

  abbrev Chosen : Text → Type 0
  Chosen collection_type =
      (method : Text) × Creates collection_type (factory_name world config now collection_type)
        method
      × (method_name world config now collection_type ≡ some method)

  supported-Creates :
      (collection_type : Text) → is_supported collection_type ≡ true → Chosen collection_type
  unfolding text_eq
  supported-Creates collection_type h = elim (Bool-cases (text_eq collection_type std_erc721)) [
    | inl e ↦
        subst Chosen (sym ((text_eq_iff collection_type std_erc721).0 e))
          (codes "createERC721Collection", erc721, refl)
    | inr other ↦
        subst Chosen (sym ((text_eq_iff collection_type std_erc1155).0 (ground (arith, h, other))))
          (codes "createERC1155Collection", erc1155, refl)
  ]

  -- What the choice of a factory has found.
  record Selected (input : PrepareCreateCollectionInput) (address : Text) : Type 0 where
    name : Text
    method : Text
    creates : Creates input.collection_type name method
    by_method : method_name world config now input.collection_type ≡ some method
    factory : Factory world config now input name address

  chosen-Factory :
      (input : PrepareCreateCollectionInput) (s : Store) {pair : Text × Text}
      → (get_factory_address_and_type world config now input s).0 ≡ ok pair
      → Selected input (pair.0) × ((get_factory_address_and_type world config now input s).1 ≡ s)
  unfolding get_factory_address_and_type
  chosen-Factory input s h =
      let (contracts, known, rest, e) =
        bind-eq-ok_same
          (found world config now (world.get_contracts input.chain_id) contracts_unavailable) _ s
          (λ cs. world.get_contracts input.chain_id ≡ some cs) (λ _. found-eq-ok _ _ s) h in
      let (u, supported, rest, e1) =
        bind-eq-ok_same (require (is_supported input.collection_type) factory_not_found) _ s
          (λ _. is_supported input.collection_type ≡ true) (λ _. require-eq-ok _ _ s) rest in
      let named =
        find? (λ c. text_eq c.contract_name (factory_name world config now input.collection_type))
          contracts in
      let (factory, hit, rest, e2) =
        bind-eq-ok_same (found world config now named factory_not_found) _ s (λ c. named ≡ some c)
          (λ _. found-eq-ok _ _ s) rest in
      let (method, creates, by_method) = supported-Creates input.collection_type supported in
      let chosen : Factory world config now input
          (factory_name world config now input.collection_type) factory.address =
        record {
          contracts = contracts;
          of_chain = known;
          contract = factory;
          named = hit;
          has_address = refl;
        } in
      (
        subst (Selected input) (ground (arith, rest)) (record {
          name = factory_name world config now input.collection_type;
          method = method;
          creates = creates;
          by_method = by_method;
          factory = chosen;
        }),
        e ∙ e1 ∙ e2,
      )

  link_session-Linked :
      (header : List Text) (s : Store) {session : Option Text}
      → (link_session world config now header s).0 ≡ ok session
      → Linked world config now header session × ((link_session world config now header s).1 ≡ s)
  unfolding link_session
  link_session-Linked header s h =
      let first = first_value world config now header in
      elim (Bool-cases config.session_linked_intents) [
        | inl linked ↦ elim (Bool-cases (not (is_empty first) && world.is_uuid first)) [
          | inl valid ↦ (
            record {
              enforced = λ q. (sym (answer (rw (linked, valid) at h)), ground (arith, valid));
              best_effort = λ q. absurd (false≢true (sym q ∙ linked));
            },
            rw (linked, valid) refl,
          )
          | inr bad ↦ absurd (clash (rw (linked, bad) at h))
        ]
        | inr loose ↦ (
          record {
            enforced = λ q. absurd (false≢true (sym loose ∙ q));
            best_effort = λ q. sym (answer (rw loose at h));
          },
          rw loose refl,
        )
      ]
    where
      answer : {A : Type 0} {x y : A} → ◌≡◌ {A = Result OrchestratorError A} (ok x) (ok y) → x ≡ y
      answer e = ground (arith, e)

      clash :
          {A : Type 0} {x : OrchestratorError} {y : A}
          → ◌≢◌ {A = Result OrchestratorError A} (err x) (ok y)
      clash e = cc

  -- A preparation that succeeds had a valid input and a factory of the input's type on its chain; it
  -- adds exactly one intent, pending and without a hash, under an id that was free, linked to the
  -- session as the settings demand, and answers with a call of the factory's method for the type.
  pub prepare_create_collection-adds_intent :
      (id : Text) (header : List Text) (input : PrepareCreateCollectionInput) (s : Store)
      (answer : Text × TxRequest)
      → (prepare_create_collection world config now id header input s).0 ≡ ok answer
      → (validate_create_collection_input now input ≡ true)
        × (name : Text) × (method : Text) × (factory : Text) × Creates input.collection_type name
            method
        × Factory world config now input name factory
        × (session : Option Text) × Linked world config now header session
        × (any (has_id id) s.intents ≡ false)
        × (intent : Intent) × ((prepare_create_collection world config now id header input
              s).1.intents
            ≡ intent ∷ s.intents)
        × IsPrepared now id factory session input intent
        × (answer.0 ≡ id)
        × IsCall world config now input factory method (answer.1)
  unfolding prepare_create_collection
  prepare_create_collection-adds_intent id header input s answer h =
      let (u, valid, rest, e) =
        bind-eq-ok_same (require (validate_create_collection_input now input) invalid_collection) _
          s (λ _. validate_create_collection_input now input ≡ true) (λ _. require-eq-ok _ _ s) h in
      let (pair, chosen, rest, e1) =
        bind-eq-ok_same (get_factory_address_and_type world config now input) _ s
          (λ pair. Selected input (pair.0)) (λ _. chosen-Factory input s) rest in
      let factory = pair.0 in
      let (session, linked, rest, e2) =
        bind-eq-ok_same (link_session world config now header) _ s (Linked world config now header)
          (λ _. link_session-Linked header s) rest in
      let intent = collection_intent world config now id factory session input in
      let (u, created, rest, e3) = bind-eq-ok (create intent) _ s rest in
      let (fresh, added) = create-eq-ok intent s created in
      let audit = audit_session world config now session id input.created_by in
      let s1 = (create intent s).1 in
      let (u, audited, rest, e4) = bind-eq-ok audit _ s1 rest in
      let (tx, same, kept) =
        encoded-eq-ok world config now id collection input.chain_id
          (encode_create_collection world config now factory input) (audit s1).1
          (encode-no_preview world config now factory input) rest in
      (
        valid,
        chosen.name,
        chosen.method,
        factory,
        chosen.creates,
        chosen.factory,
        session,
        linked,
        fresh,
        intent,
        ap (λ (t : Store). t.intents) (e ∙ e1 ∙ e2 ∙ e3 ∙ e4)
            ∙ kept
            ∙ audit_session_intents session id input.created_by s1
            ∙ added,
        record {
          own_id = refl;
          of_collection = refl;
          is_pending = refl;
          on_chain = refl;
          no_hash = refl;
          no_preview = refl;
          no_error = refl;
          linked = refl;
          by_user = refl;
          deadline = refl;
          payload = refl;
          created = refl;
          updated = refl;
        },
        same,
        encode-IsCall world config now factory chosen.method input (answer.1) chosen.by_method tx,
      )
