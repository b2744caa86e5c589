-- ===== src/Intents/Entries.antt =====
-- The entries of Redis after a command.
use zuno_marketplace_api.Common.{
  Text, ◌≡◌, refl, ◌∙◌, ap, inl, inr, true, false, List, [], ◌∷◌, some, Bool-cases, find?, keep,
  text_eq, text_eq_iff, text_eq_refl,
}
use zuno_marketplace_api.Intents.Redis.{Entry, has_name, without_key}
use zuno_marketplace_api.Intents.Repository.{status_key}

pub status_key-injective : (a b : Text) → text_eq (status_key a) (status_key b) ≡ text_eq a b
unfolding text_eq
status_key-injective a b = refl

module _ (key : Text) where
  pub find?-set :
      (entry : Entry) (entries : List Entry)
      → entry.key ≡ key
      → find? (has_name key) (entry ∷ entries) ≡ some entry
  unfolding find?
  find?-set entry entries e =
      let h : text_eq entry.key key ≡ true = ap (λ k. text_eq k key) e ∙ text_eq_refl key in
      rw h refl

  pub find?-without :
      (other : Text) (entries : List Entry)
      → text_eq other key ≡ false
      → find? (has_name key) (without_key other entries) ≡ find? (has_name key) entries
  unfolding find? keep
  find?-without other [] h = refl
  find?-without other (entry ∷ entries) h =
      let later = find?-without other entries h in
      elim (Bool-cases (text_eq entry.key other)) [
        | inl hit ↦
            let miss : text_eq entry.key key ≡ false =
              ap (λ k. text_eq k key) ((text_eq_iff _ _).0 hit) ∙ h in
            rw (hit, miss) later
        | inr miss ↦ rw (miss, later) refl
      ]

  pub find?-set_other :
      (entry : Entry) (entries : List Entry)
      → text_eq entry.key key ≡ false
      → find? (has_name key) (entry ∷ without_key entry.key entries) ≡ find? (has_name key) entries
  unfolding find?
  find?-set_other entry entries h = rw h (find?-without entry.key entries h)
