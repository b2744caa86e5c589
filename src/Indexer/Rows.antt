-- ===== src/Indexer/Rows.antt =====
-- The row of a chain after a write of a checkpoint.
use zuno_marketplace_api.Common.{
  Text, ◌≡◌, refl, ◌∙◌, ap, inl, inr, true, false, List, [], ◌∷◌, map, Option, some, arith,
  Bool-cases, any, find?, text_eq, text_eq_iff, text_eq_refl,
}
use zuno_marketplace_api.Indexer.Model.{Checkpoint}
use zuno_marketplace_api.Indexer.Checkpoints.{of_chain, or_default, replace, put_checkpoint}
use zuno_marketplace_api.Indexer.Claims.{last_of}

module _ (checkpoint : Checkpoint) where
  find?-replace :
      (rows : List Checkpoint)
      → any (of_chain checkpoint.chain_id) rows ≡ true
      → find? (of_chain checkpoint.chain_id) (map (replace checkpoint) rows) ≡ some checkpoint
  unfolding find?
  find?-replace [] h = cc
  find?-replace (x ∷ rows) h = elim (Bool-cases (of_chain checkpoint.chain_id x)) [
    | inl hit ↦ let same = text_eq_refl checkpoint.chain_id in ground (arith, hit, same)
    | inr miss ↦
        let later = find?-replace rows (ground (arith, h, miss)) in ground (arith, miss, later)
  ]

  find?-put :
      (rows : List Checkpoint)
      → find? (of_chain checkpoint.chain_id) (put_checkpoint checkpoint rows) ≡ some checkpoint
  find?-put rows = elim (Bool-cases (any (of_chain checkpoint.chain_id) rows)) [
    | inl known ↦ rw known (find?-replace rows known)
    | inr fresh ↦ rw fresh (unfold find? in ground (arith, text_eq_refl checkpoint.chain_id))
  ]

  -- After the write, the chain's last block is the checkpoint's.
  pub last_of-put :
      (rows : List Checkpoint)
      → last_of checkpoint.chain_id (put_checkpoint checkpoint rows) ≡ checkpoint.last_block
  last_of-put rows =
      ap (λ (o : Option Checkpoint). (or_default 0 checkpoint.chain_id o).last_block)
        (find?-put rows)

  find?-replace_other :
      (chain_id : Text) (rows : List Checkpoint)
      → text_eq checkpoint.chain_id chain_id ≡ false
      → find? (of_chain chain_id) (map (replace checkpoint) rows) ≡ find? (of_chain chain_id) rows
  unfolding find?
  find?-replace_other chain_id [] h = refl
  find?-replace_other chain_id (x ∷ rows) h =
      let later = find?-replace_other chain_id rows h in
      let same = text_eq_iff x.chain_id checkpoint.chain_id in
      elim (Bool-cases (of_chain checkpoint.chain_id x)) [
        | inl hit ↦
            let miss : of_chain chain_id x ≡ false =
              ap (λ (c : Text). text_eq c chain_id) (same.0 hit) ∙ h in
            ground (arith, hit, h, miss, later)
        | inr other ↦ ground (arith, other, later)
      ]

  find?-put_other :
      (chain_id : Text) (rows : List Checkpoint)
      → text_eq checkpoint.chain_id chain_id ≡ false
      → find? (of_chain chain_id) (put_checkpoint checkpoint rows) ≡ find? (of_chain chain_id) rows
  find?-put_other chain_id rows h = elim (Bool-cases (any (of_chain checkpoint.chain_id) rows)) [
    | inl known ↦ rw known (find?-replace_other chain_id rows h)
    | inr fresh ↦ rw fresh (unfold find? in ground (arith, h))
  ]

  -- Another chain's last block stays.
  pub last_of-put_other :
      (chain_id : Text) (rows : List Checkpoint)
      → text_eq checkpoint.chain_id chain_id ≡ false
      → last_of chain_id (put_checkpoint checkpoint rows) ≡ last_of chain_id rows
  last_of-put_other chain_id rows h =
      ap (λ (o : Option Checkpoint). (or_default 0 chain_id o).last_block)
        (find?-put_other chain_id rows h)
