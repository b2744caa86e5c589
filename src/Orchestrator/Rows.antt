-- ===== src/Orchestrator/Rows.antt =====
-- Tables with one intent for a transaction of a chain, and the changes that keep them so.
use mathlib.Core.List.Memᴰ
use mathlib.Core.Bool.{false≢true}
use zuno_marketplace_api.Common.{
  ℕ, Text, ◌≡◌, refl, sym, ◌∙◌, ap, subst, subst₂, ◌⊎◌, inl, inr, true, List, map, Memᴰ, none, some,
  arith, Bool-cases, Option-cases, find?, find?-some, find?-none, text_eq_iff, text_eq_refl,
}
use zuno_marketplace_api.Orchestrator.Model.{Intent, TrackTxInput, pending}
use zuno_marketplace_api.Orchestrator.Repo.{
  has_id, has_tx, of_chain_tx, change_intent, put_tx_hash, put_status,
}

-- Two intents of one chain and one hash have one id.
pub record OneTx (rows : List Intent) : Type 0 where
  pub same :
      (r r' : Intent)
      → Memᴰ r rows
      → Memᴰ r' rows
      → r.chain_id ≡ r'.chain_id
      → (hash : Text) → r.tx_hash ≡ some hash
      → r'.tx_hash ≡ some hash
      → r.id ≡ r'.id

of_chain_tx-true :
    (chain_id hash : Text) (row : Intent)
    → of_chain_tx chain_id hash row ≡ true
    → (row.chain_id ≡ chain_id) × (row.tx_hash ≡ some hash)
of_chain_tx-true chain_id hash row h = elim (Option-cases row.tx_hash) [
  | inl no_hash ↦ absurd (ground (arith, h, no_hash))
  | inr (own, e) ↦ (
    (text_eq_iff row.chain_id chain_id).0 (ground (arith, h)),
    e ∙ ap some ((text_eq_iff own hash).0 (ground (arith, h, e))),
  )
]

-- Every row of the chain and the hash is then the intent itself.
pub only_own :
    (id chain_id hash : Text) (rows : List Intent)
    → OneTx rows
    → ((find? (of_chain_tx chain_id hash) rows ≡ none)
        ⊎ ((row : Intent) × (find? (of_chain_tx chain_id hash) rows ≡ some row) × (row.id ≡ id)))
    → (r : Intent) → Memᴰ r rows
    → r.chain_id ≡ chain_id
    → r.tx_hash ≡ some hash
    → r.id ≡ id
only_own id chain_id hash rows one looked r m chain tx =
    let p = of_chain_tx chain_id hash in
    let on_chain = (text_eq_iff r.chain_id chain_id).1 chain in
    let on_tx : has_tx hash r.tx_hash ≡ true = ap (has_tx hash) tx ∙ text_eq_refl hash in
    let hit : p r ≡ true = ground (arith, on_chain, on_tx) in
    elim looked [
      | inl nothing ↦ absurd (false≢true (sym (find?-none p rows nothing m) ∙ hit))
      | inr (row, e, q) ↦
          let (k, here) = find?-some p rows e in
          let (chain', tx') = of_chain_tx-true chain_id hash row here in
          one.same r row m k (chain ∙ sym chain') hash tx tx' ∙ q
    ]

module _ (now : ℕ) where
  abbrev pub put_row : TrackTxInput → Intent → Intent
  put_row input = change_intent input.intent_id (put_tx_hash now input.tx_hash input.contract)

  abbrev pub reset_row : TrackTxInput → Intent → Intent
  reset_row input = change_intent input.intent_id (put_status now pending none)

  -- A change that leaves an intent its id, its chain and its hash, or gives the request's intent the
  -- request's hash.
  record Tracks (input : TrackTxInput) (change : Intent → Intent) : Type 0 where
    id : (y : Intent) → (change y).id ≡ y.id
    chain : (y : Intent) → (change y).chain_id ≡ y.chain_id
    hash :
        (y : Intent)
        → ((y.id ≡ input.intent_id) × ((change y).tx_hash ≡ some input.tx_hash))
          ⊎ ((change y).tx_hash ≡ y.tx_hash)

  put_row-Tracks : (input : TrackTxInput) → Tracks input (put_row input)
  put_row-Tracks input = record {
    id = λ y. ground arith;
    chain = λ y. ground arith;
    hash = λ y. elim (Bool-cases (has_id input.intent_id y)) [
      | inl own ↦ inl ((text_eq_iff y.id input.intent_id).0 own, rw own refl)
      | inr other ↦ inr (rw other refl)
    ];
  }

  tracked-Tracks : (input : TrackTxInput) → Tracks input (λ y. reset_row input (put_row input y))
  tracked-Tracks input = record {
    id = λ y. elim (Bool-cases (has_id input.intent_id y)) [
      | inl own ↦ rw own (rw own refl)
      | inr other ↦ rw other (rw other refl)
    ];
    chain = λ y. elim (Bool-cases (has_id input.intent_id y)) [
      | inl own ↦ rw own (rw own refl)
      | inr other ↦ rw other (rw other refl)
    ];
    hash = λ y. elim (Bool-cases (has_id input.intent_id y)) [
      | inl own ↦ inl ((text_eq_iff y.id input.intent_id).0 own, rw own (rw own refl))
      | inr other ↦ inr (rw other (rw other refl))
    ];
  }

  -- No other row has the chain and the hash of the request.
  abbrev pub IsAlone : TrackTxInput → List Intent → Type 0
  IsAlone input rows =
      (r : Intent)
      → Memᴰ r rows
      → r.chain_id ≡ input.chain_id
      → r.tx_hash ≡ some input.tx_hash
      → r.id ≡ input.intent_id

  abbrev pub IsOfChain : TrackTxInput → List Intent → Type 0
  IsOfChain input rows =
      (r : Intent) → Memᴰ r rows → r.id ≡ input.intent_id → r.chain_id ≡ input.chain_id

  module _ (input : TrackTxInput) (rows : List Intent) (one : OneTx rows)
      (chain : IsOfChain input rows) (own : IsAlone input rows) where
    changed_same :
        (change : Intent → Intent)
        → Tracks input change
        → (y y' : Intent) → Memᴰ y rows
        → Memᴰ y' rows
        → (change y).chain_id ≡ (change y').chain_id
        → (hash : Text) → (change y).tx_hash ≡ some hash
        → (change y').tx_hash ≡ some hash
        → (change y).id ≡ (change y').id
    changed_same change k y y' m m' c hash t t' =
        let c0 : y.chain_id ≡ y'.chain_id = sym (k.chain y) ∙ c ∙ k.chain y' in
        k.id y
        ∙ elim (k.hash y) [
          | inl (q, u) ↦ elim (k.hash y') [
            | inl (q', u') ↦ q ∙ sym q'
            | inr u' ↦ q ∙ sym (own y' m' (sym c0 ∙ chain y m q) (sym u' ∙ t' ∙ sym t ∙ u))
          ]
          | inr u ↦ elim (k.hash y') [
            | inl (q', u') ↦ own y m (c0 ∙ chain y' m' q') (sym u ∙ t ∙ sym t' ∙ u') ∙ sym q'
            | inr u' ↦ one.same y y' m m' c0 hash (sym u ∙ t) (sym u' ∙ t')
          ]
        ]
        ∙ sym (k.id y')

    OneTx-changed :
        (change : Intent → Intent) (after : List Intent)
        → Tracks input change
        → ((r : Intent) → Memᴰ r after → (y : Intent) × Memᴰ y rows × (change y ≡ r))
        → OneTx after
    OneTx-changed change after tracks from = record {
      same = λ r r' m m' c hash t t'.
          let (y, k, q) = from r m in
          let (y', k', q') = from r' m' in
          subst₂ (λ (a a' : Intent). a.id ≡ a'.id) q q'
            (changed_same change tracks y y' k k'
              (subst₂ (λ (a a' : Intent). a.chain_id ≡ a'.chain_id) (sym q) (sym q') c) hash
              (subst (λ (a : Intent). a.tx_hash ≡ some hash) (sym q) t)
              (subst (λ (a : Intent). a.tx_hash ≡ some hash) (sym q') t'));
    }

    pub OneTx-put : OneTx (map (put_row input) rows)
    OneTx-put =
        OneTx-changed (put_row input) _ (put_row-Tracks input)
          (λ r m. Memᴰ.of_map (put_row input) rows m)

    pub OneTx-tracked : OneTx (map (reset_row input) (map (put_row input) rows))
    OneTx-tracked =
        OneTx-changed (λ y. reset_row input (put_row input y)) _ (tracked-Tracks input)
          (λ r m.
            let (x, k, q) = Memᴰ.of_map (reset_row input) (map (put_row input) rows) m in
            let (y, k', q') = Memᴰ.of_map (put_row input) rows k in
            (y, k', ap (reset_row input) q' ∙ q))
