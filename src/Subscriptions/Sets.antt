-- ===== src/Subscriptions/Sets.antt =====
-- Maps to sets, as lists: the type map[string]map[string]bool of
-- services/subscription-worker/internal/infrastructure/websocket/manager.go.
use zuno_marketplace_api.Common.{
  Text, ◌≡◌, Bool, true, false, not, List, [], ◌∷◌, if◌then◌else◌, any, keep, text_eq,
}

abbrev pub mem : Text → List Text → Bool
mem x l = any (λ y. text_eq y x) l

abbrev pub insert : Text → List Text → List Text
insert x l = if mem x l then l else x ∷ l

abbrev pub delete : Text → List Text → List Text
delete x l = keep (λ y. not (text_eq y x)) l

-- len(set) == 0
abbrev pub is_empty_set : List Text → Bool
is_empty_set [] = true
is_empty_set (x ∷ l) = false

abbrev pub Subscriptions : Type 0
Subscriptions = List (Text × List Text)

-- m.subscriptions[intentID], which is empty for a key that is not there.
unfoldable pub subscribers_of : Text → Subscriptions → List Text
subscribers_of intent_id [] = []
subscribers_of intent_id ((k, l) ∷ rest) =
    if text_eq k intent_id then l else subscribers_of intent_id rest

abbrev pub has_key : Text → Subscriptions → Bool
has_key intent_id subscriptions = any (λ entry. text_eq entry.0 intent_id) subscriptions

unfoldable pub delete_key : Text → Subscriptions → Subscriptions
delete_key intent_id [] = []
delete_key intent_id ((k, l) ∷ rest) =
    let others = delete_key intent_id rest in
    if text_eq k intent_id then others else (k, l) ∷ others

abbrev pub put_key : Text → List Text → Subscriptions → Subscriptions
put_key intent_id l subscriptions = (intent_id, l) ∷ delete_key intent_id subscriptions

-- The loops over the subscriptions in RemoveConnection and cleanup.
unfoldable pub delete_everywhere : Text → Subscriptions → Subscriptions
delete_everywhere conn_id [] = []
delete_everywhere conn_id ((k, l) ∷ rest) =
    let others = delete_everywhere conn_id rest in
    let left = delete conn_id l in if is_empty_set left then others else (k, left) ∷ others

-- No value stands twice.
abbrev pub IsSetList : List Text → Type 0
IsSetList [] = Unit
IsSetList (x ∷ l) = (mem x l ≡ false) × IsSetList l

-- No key stands twice, and a key's set is not empty.
abbrev pub IsMapOfSets : Subscriptions → Type 0
IsMapOfSets [] = Unit
IsMapOfSets ((k, l) ∷ rest) =
    (has_key k rest ≡ false) × IsSetList l × (is_empty_set l ≡ false) × IsMapOfSets rest
